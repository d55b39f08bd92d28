-- ===== src/Ptable/MapPage.antt =====
-- One round of `page_map` in src/vm/ptable.rs on a tree of tables: the map is updated at one page, or
-- it is as it was.
use Prim.Native.Nat.{bit_and, bit_or}
use reedos.Common.{
  ℕ, ◌+◌, ◌*◌, ◌/◌, ◌%◌, ◌^◌, ◌<◌, ◌≡◌, refl, sym, ap, ◌∙◌, subst, true, not, Option, none, some,
  List, arith, Bool-cases, inl, inr, ◌⊎◌, if◌then◌else◌, ◌==◌, Result, ok, err,
}
use reedos.Common.Bits.{bit_or_low, bit_or_bit}
use reedos.Machine.{Mem, Cmd, pure, Ensures, page_size, usize_top, read, write, ◌>>=◌, ◌>>◌}
use reedos.Machine.Laws.{read-done, write-done, Ensures-and_then}
use reedos.Palloc.{Pool, VmError, palloc_fail}
use reedos.Palloc.FreeList.{IsPool}
use reedos.Ptable.{
  PageTable, pte_get_flag, pte_set_flag, phy_to_pte, pte_valid, va_top, walk, map_page,
}
use reedos.Ptable.Entries.{valid_lem}
use reedos.Ptable.Walk.{slot, slot-IsWord}
use reedos.Ptable.Map.{entry}
use reedos.Ptable.Tree.{is_valid, lookup, IsTree}
use reedos.Ptable.Reach.{Extends}
use reedos.Ptable.Down.{Down, WalkedTo, walk-WalkedTo}
use reedos.Ptable.Paths.{lookup-Down, Down-rank}
use reedos.Ptable.Update.{IsTree-written, IsPool-written, lookup-written}

-- A pool and a tree of tables apart from its free pages.
pub record IsSpace (pt : PageTable) (pool : Pool) (m : Mem) : Type 0 where
  pub free : List ℕ
  pub rank : ℕ → ℕ
  pub is_pool : IsPool m pool free
  pub tree : IsTree m free pt rank

-- The map with the page of `va` mapped by `e`.
abbrev pub insert : (va e : ℕ) → (ℕ → Option ℕ) → ℕ → Option ℕ
insert va e f va' = if va' / page_size == va / page_size then some e else f va'

-- What one round leaves: the map with one more page, which was not mapped, or the same map.
abbrev pub Inserted : Mem → PageTable → (va e : ℕ) → Result VmError (Unit {0}) × Pool → Mem → Type 0
Inserted m pt va e (ok _, pool') m' =
    IsSpace pt pool' m'
    × (lookup m pt va ≡ none)
    × ((va' : ℕ) → va' < va_top → lookup m' pt va' ≡ insert va e (lookup m pt) va')
Inserted m pt va e (err _, pool') m' =
    IsSpace pt pool' m'
    × ((va' : ℕ) → lookup m' pt va' ≡ lookup m pt va')
    × ((pool'.free ≡ none) ⊎ ((old : ℕ) × (lookup m pt va ≡ some old)))

pub entry-valid : (phys flag : ℕ) → flag < 1024 → pte_get_flag (entry phys flag) pte_valid ≡ true
unfolding pte_set_flag phy_to_pte
entry-valid phys flag small =
    let flags : bit_or flag 1 ≡ flag / 2 * 2 + 1 = bit_or_bit 0 flag ∙ omega arith in
    let shifted : phys / 2 ^ 12 * 2 ^ 10 % usize_top ≡ phys / 2 ^ 12 % 2 ^ 54 * 2 ^ 10 =
      omega arith in
    rw
      (
        flags,
        shifted,
        bit_or_low 10 (phys / 2 ^ 12 % 2 ^ 54) (flag / 2 * 2 + 1) (omega arith),
        valid_lem (phys / 2 ^ 12 % 2 ^ 54 * 2 ^ 10 + (flag / 2 * 2 + 1)),
      )
      (ground arith)

module _ (pt : PageTable) (va phys flag : ℕ) (low : va < va_top) (small : flag < 1024) where
  -- The entry that `walk` found is taken, or is written.
  at_entry :
      {m₁ m : Mem} {pool' : Pool} {rank : ℕ → ℕ} (x : Extends m pt rank m₁ pool') (t₀ : ℕ)
      → Down m₁ x.rank' va pt 2 t₀
      → Ensures (Inserted m pt va (entry phys flag)) (
          (do
            found ← read (slot t₀ va 0)
            if not (bit_and found pte_valid == 0)
                then pure (err palloc_fail, pool')
                else (do write (slot t₀ va 0) (entry phys flag); pure (ok tt, pool')))
            m₁)
  unfolding pte_get_flag
  at_entry {m₁} {m} {pool'} x t₀ down =
      let word =
        slot-IsWord t₀ va 0 (x.tree.page t₀ (omega (arith, Down-rank x.tree va t₀ down))) in
      let here = lookup-Down x.tree va t₀ down in
      rw (read-done word m₁) (elim (Bool-cases (is_valid m₁ (slot t₀ va 0))) [
        | inl v ↦ rw v (
          record { free = x.free'; rank = x.rank'; is_pool = x.is_pool; tree = x.tree },
          x.maps,
          inr (m₁ (slot t₀ va 0), sym (x.maps va) ∙ (here ∙ rw v refl)),
        )
        | inr v ↦
            rw (v, write-done word m₁ (entry phys flag))
              (
                record {
                  free = x.free';
                  rank = x.rank';
                  is_pool =
                      IsPool-written x.tree va t₀ (entry phys flag) down
                        (entry-valid phys flag small) pool' x.is_pool;
                  tree =
                      IsTree-written x.tree va t₀ (entry phys flag) down
                        (entry-valid phys flag small);
                },
                sym (x.maps va) ∙ (here ∙ rw v refl),
                λ va' low'.
                    lookup-written x.tree va t₀ (entry phys flag) down (entry-valid phys flag small)
                      va' low low'
                    ∙ ap
                        (λ old.
                          if va' / page_size == va / page_size then some (entry phys flag) else old)
                        (x.maps va'),
              )
      ])

  -- On a tree of tables apart from the free pages of a pool, for an address below 2 ^ 39 and flags
  -- below 1024, one round of `page_map` ends with neither a panic nor a fault, and leaves such a tree
  -- and pool: on success the page was not mapped and the map has its new entry there and nowhere
  -- else; on an error the map is as it was, and the pool has no free page left or the page was mapped.
  pub map_page-Inserted :
      {m : Mem} {pool : Pool}
      → IsSpace pt pool m
      → Ensures (Inserted m pt va (entry phys flag)) (map_page pool pt va phys flag m)
  unfolding map_page
  map_page-Inserted {m} {pool} space =
      Ensures-and_then (WalkedTo pt va m space.rank) _ (walk pool pt va true m) _
        (walk-WalkedTo pt va space.free low space.is_pool space.tree)
        λ (result, pool') m₁ walked. go result pool' m₁ walked
    where
      go :
          (result : Result VmError ℕ) (pool' : Pool) (m₁ : Mem)
          → WalkedTo pt va m space.rank (result, pool') m₁
          → Ensures (Inserted m pt va (entry phys flag)) (
              (elim result as (λ _. Cmd (Result VmError (Unit {0}) × Pool)) [
                | err e ↦ pure (err e, pool')
                | ok pte_addr ↦ (do
                  found ← read pte_addr
                  if not (bit_and found pte_valid == 0)
                      then pure (err palloc_fail, pool')
                      else (do write pte_addr (entry phys flag); pure (ok tt, pool')))
              ])
                m₁)
      go (err e) pool' m₁ (x, empty) = (
        record { free = x.free'; rank = x.rank'; is_pool = x.is_pool; tree = x.tree },
        x.maps,
        inl empty,
      )
      go (ok q) pool' m₁ (x, t₀, down, eq) =
          subst
            (λ p. Ensures (Inserted m pt va (entry phys flag)) (
              (do
                found ← read p
                if not (bit_and found pte_valid == 0)
                    then pure (err palloc_fail, pool')
                    else (do write p (entry phys flag); pure (ok tt, pool')))
                m₁))
            (sym eq) (at_entry x t₀ down)
