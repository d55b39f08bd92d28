-- ===== src/Ptable/MapLoop.antt =====
-- `page_map` of src/vm/ptable.rs on a tree of tables: the map is updated at a range of pages, from the
-- first one on.
use reedos.Common.{
  ℕ, zero, suc, ◌+◌, ◌-◌, ◌*◌, ◌/◌, ◌≤◌, ◌<◌, ◌≡◌, refl, sym, ap, ◌∙◌, none, some, arith, inl, inr,
  ◌⊎◌, if◌then◌else◌, Result, ok, err, leb-true, leb-false, ==_ne,
}
use native.Mathlib.Decide.{ℕ_discrete}
use reedos.Machine.{Mem, Cmd, pure, Ensures, page_size, usize_top, add, ◌>>=◌}
use reedos.Machine.Laws.{add-done, sub-done, Ensures-and_then, Ensures-mono}
use reedos.Palloc.{Pool, VmError}
use reedos.Ptable.{PageTable, va_top, map_page, map_loop, map_fuel, page_map}
use reedos.Ptable.Entries.{page_align_down_lem}
use reedos.Ptable.Map.{entry}
use reedos.Ptable.Tree.{lookup}
use reedos.Ptable.Paths.{lookup-page}
use reedos.Ptable.PageRange.{is_among, insert_pages, insert_pages-zero, insert_pages-suc}
use reedos.Ptable.MapPage.{IsSpace, Inserted, insert, map_page-Inserted}

-- The pages from that of `va` to that of the last of `size` bytes
abbrev pub page_count : (va size : ℕ) → ℕ
page_count va size = (va + (size - 1)) / page_size - va / page_size + 1

-- The `n` pages from the page `first` on, which were not mapped, are mapped, and no other page's entry
-- has changed.
pub record Filled (m : Mem) (pt : PageTable) (first phys flag n : ℕ) (m' : Mem) (pool' : Pool)
    : Type 0 where
  pub space : IsSpace pt pool' m'
  pub fresh :
      (va : ℕ)
      → va < va_top
      → first ≤ va / page_size
      → va / page_size < first + n
      → lookup m pt va ≡ none
  pub maps :
      (va : ℕ) → va < va_top → lookup m' pt va ≡ insert_pages first phys flag n (lookup m pt) va

-- The page `n` is mapped.
abbrev pub Taken : Mem → PageTable → ℕ → Type 0
Taken m pt n =
    (va : ℕ) × (va < va_top) × (va / page_size ≡ n) × (old : ℕ) × (lookup m pt va ≡ some old)

-- All of the pages on success, and only the first few on an error.
abbrev pub FilledTo :
    Mem → PageTable → (first phys flag n : ℕ) → Result VmError (Unit {0}) × Pool → Mem → Type 0
FilledTo m pt first phys flag n (ok _, pool') m' = Filled m pt first phys flag n m' pool'
FilledTo m pt first phys flag n (err _, pool') m' =
    (i : ℕ) × (i < n)
    × Filled m pt first phys flag i m' pool'
    × ((pool'.free ≡ none) ⊎ Taken m pt (first + i))

module _ (pt : PageTable) (flag : ℕ) (small : flag < 1024) where
  Filled-zero :
      {m m' : Mem} {pool' : Pool} (first phys : ℕ)
      → IsSpace pt pool' m'
      → ((va : ℕ) → lookup m' pt va ≡ lookup m pt va)
      → Filled m pt first phys flag 0 m' pool'
  Filled-zero {m} first phys space maps = record {
    space = space;
    fresh = λ va low l h. absurd (omega arith);
    maps = λ va low. maps va ∙ sym (insert_pages-zero first phys flag (lookup m pt) va);
  }

  Filled-suc :
      {m m₁ m' : Mem} {pool' : Pool} (first start phys n : ℕ)
      → start / page_size ≡ first
      → lookup m pt start ≡ none
      → ((va : ℕ) → va < va_top → lookup m₁ pt va ≡ insert start (entry phys flag) (lookup m pt) va)
      → Filled m₁ pt (suc first) (phys + page_size) flag n m' pool'
      → Filled m pt first phys flag (suc n) m' pool'
  Filled-suc {m} {m₁} first start phys n at new maps x = record {
    space = x.space;
    fresh = λ va low l h. elim (ℕ_discrete (va / page_size) first) [
      | yes e ↦ lookup-page m pt start va (e ∙ sym at) ∙ new
      | no e ↦
          sym (maps va low ∙ rw (==_ne (va / page_size) (start / page_size) (omega arith)) refl)
          ∙ x.fresh va low (omega arith) (omega arith)
    ];
    maps = λ va low.
        x.maps va low
        ∙ ap
            (λ old.
              if is_among (suc first) n va
              then some (entry (phys + page_size + page_size * (va / page_size - suc first)) flag)
              else old)
            (maps va low)
        ∙ insert_pages-suc first phys flag n (lookup m pt) start va at;
  }

  after_page :
      (m : Mem) {m₁ : Mem} {pool₁ : Pool} (first start phys n : ℕ)
      (k : Cmd (Result VmError (Unit {0}) × Pool))
      → start / page_size ≡ first
      → Inserted m pt start (entry phys flag) (ok tt, pool₁) m₁
      → Ensures (FilledTo m₁ pt (suc first) (phys + page_size) flag n) (k m₁)
      → Ensures (FilledTo m pt first phys flag (suc n)) (k m₁)
  after_page m {m₁} first start phys n k at (space, new, maps) run =
      Ensures-mono (FilledTo m₁ pt (suc first) (phys + page_size) flag n) _ (k m₁) run
        λ (result, pool') m' x. go result pool' m' x
    where
      taken : (i : ℕ) → Taken m₁ pt (suc first + i) → Taken m pt (first + suc i)
      taken i (va, low, e, old, mapped) =
          let ne = ==_ne (va / page_size) (start / page_size) (omega arith) in
          (va, low, omega arith, old, sym (maps va low ∙ rw ne refl) ∙ mapped)

      go :
          (result : Result VmError (Unit {0})) (pool' : Pool) (m' : Mem)
          → FilledTo m₁ pt (suc first) (phys + page_size) flag n (result, pool') m'
          → FilledTo m pt first phys flag (suc n) (result, pool') m'
      go (ok _) pool' m' x = Filled-suc first start phys n at new maps x
      go (err _) pool' m' (i, few, x, inl empty) =
          (suc i, omega arith, Filled-suc first start phys i at new maps x, inl empty)
      go (err _) pool' m' (i, few, x, inr t) =
          (suc i, omega arith, Filled-suc first start phys i at new maps x, inr (taken i t))

  pub map_loop-Filled :
      {m : Mem} {pool : Pool} (k n first start end phys : ℕ)
      → n < k
      → start ≡ page_size * first
      → end + page_size ≡ start + page_size * n
      → start + page_size * n ≤ va_top
      → phys + page_size * n < usize_top
      → IsSpace pt pool m
      → Ensures (FilledTo m pt first phys flag n) (map_loop k pool pt start end phys flag m)
  unfolding map_loop
  map_loop-Filled zero n first start end phys fuel s e top room space = absurd (omega arith)
  map_loop-Filled {m} (suc k) zero first start end phys fuel s e top room space =
      rw (leb-false start end (omega arith)) (Filled-zero first phys space (λ va. refl))
  map_loop-Filled {m} {pool} (suc k) (suc n) first start end phys fuel s e top room space =
      rw (leb-true start end (omega arith)) (
        Ensures-and_then (Inserted m pt start (entry phys flag)) _
          (map_page pool pt start phys flag m) _
          (map_page-Inserted pt start phys flag (omega arith) small space)
          λ (result, pool₁) m₁ done₁. go result pool₁ m₁ done₁ (λ m₂ space₂.
            map_loop-Filled k n (suc first) (start + page_size) end (phys + page_size) (omega arith)
              (omega arith) (omega arith) (omega arith) (omega arith) space₂))
    where
      go :
          (result : Result VmError (Unit {0})) (pool₁ : Pool) (m₁ : Mem)
          → Inserted m pt start (entry phys flag) (result, pool₁) m₁
          → ((m₂ : Mem)
              → IsSpace pt pool₁ m₂
              → Ensures
                  (FilledTo m₂ pt (suc first) (phys + page_size) flag n)
                  (map_loop k pool₁ pt (start + page_size) end (phys + page_size) flag m₂))
          → Ensures (FilledTo m pt first phys flag (suc n)) (
              (elim result as (λ _. Cmd (Result VmError (Unit {0}) × Pool)) [
                | err e ↦ pure (err e, pool₁)
                | ok _ ↦ (do
                  start' ← add start page_size
                  phys' ← add phys page_size
                  map_loop k pool₁ pt start' end phys' flag)
              ])
                m₁)
      go (err _) pool₁ m₁ (space₁, maps, inl empty) rest =
          (0, omega arith, Filled-zero first phys space₁ maps, inl empty)
      go (err _) pool₁ m₁ (space₁, maps, inr (old, mapped)) rest = (
        0,
        omega arith,
        Filled-zero first phys space₁ maps,
        inr (start, omega arith, omega arith, old, mapped),
      )
      go (ok _) pool₁ m₁ (space₁, new, maps) rest =
          rw (add-done start page_size m₁ (omega arith), add-done phys page_size m₁ (omega arith))
            (after_page m first start phys n
              (map_loop k pool₁ pt (start + page_size) end (phys + page_size) flag) (omega arith)
              (space₁, new, maps) (rest m₁ space₁))

  -- On a tree of tables apart from the free pages of a pool, for a range that is not empty and ends
  -- below 2 ^ 39, and flags below 1024, `page_map` ends with neither a panic nor a fault, and leaves
  -- such a tree and pool: the pages of the range from the first one on, all of them on success, were
  -- not mapped and are mapped to those from `pa` on, and no other page's entry changes. On an error
  -- these are fewer, and the pool has no free page left or the next page was mapped. The physical
  -- pages end below 2 ^ 64.
  pub page_map-Filled :
      {m : Mem} {pool : Pool} (va pa size : ℕ)
      → 0 < size
      → va + size ≤ va_top
      → pa + page_size * page_count va size < usize_top
      → IsSpace pt pool m
      → Ensures
          (FilledTo m pt (va / page_size) pa flag (page_count va size))
          (page_map pool pt va pa size flag m)
  unfolding page_map
  page_map-Filled {m} {pool} va pa size pos top room space =
      let last : ℕ = va + (size - 1) in
      rw
        (
          sub-done size 1 m pos,
          add-done va (size - 1) m (omega arith),
          page_align_down_lem va (omega arith),
          page_align_down_lem last (omega arith),
        )
        (map_loop-Filled (map_fuel (va / page_size * page_size) (last / page_size * page_size))
          (page_count va size) (va / page_size) (va / page_size * page_size)
          (last / page_size * page_size) pa (omega arith) (omega arith) (omega arith) (omega arith)
          room space)
