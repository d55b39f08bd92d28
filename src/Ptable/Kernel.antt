-- ===== src/Ptable/Kernel.antt =====
-- `kpage_init` of src/vm/ptable.rs: the kernel's own page table maps each range of its list to itself.
use reedos.Common.{
  ℕ, ◌+◌, ◌-◌, ◌*◌, ◌/◌, ◌≤◌, ◌<◌, ◌≡◌, refl, sym, ◌∙◌, subst, none, some, List, [], ◌∷◌, arith,
  inl, inr, Result, ok, err, Bool-cases,
}
use reedos.Machine.{Mem, Cmd, pure, Ensures, page_size}
use reedos.Machine.Laws.{sub-done, Ensures-and_then, Ensures-mono}
use reedos.Palloc.{Pool, VmError, palloc}
use reedos.Palloc.Links.{Pages-le}
use reedos.Palloc.Steps.{IsPage}
use reedos.Palloc.FreeList.{IsPool}
use reedos.Palloc.Api.{Allocated, palloc-cons}
use reedos.Palloc.RoundTrip.{Apart-above}
use reedos.Ptable.{
  PageTable, page_map, Mapping, Linker, kernel_mappings, va_top, map_all, init_table, kpage_init,
}
use reedos.Ptable.Map.{entry}
use reedos.Ptable.Tree.{lookup}
use reedos.Ptable.MapPage.{IsSpace}
use reedos.Ptable.Ranges.{
  IsRange, Ranges, Clear, AllClear, Unmapped, Identity, KeepsMap, MappedAll, IsSpace-root,
  Unmapped-root, root-none, Uncovered,
}
use reedos.Ptable.PageRange.{is_among, is_among-true, is_among-false, is_among-bounds}
use reedos.Ptable.MapLoop.{Filled, FilledTo, page_count, page_map-Filled}

module _ (pt : PageTable) where
  module _ (mapping : Mapping) (range : IsRange mapping) where
    abbrev count : ℕ
    count = page_count mapping.base (mapping.stop - mapping.base)

    Filled-KeepsMap :
        {m m₁ : Mem} {pool₁ : Pool}
        → Filled m pt (mapping.base / page_size) mapping.base mapping.flag count m₁ pool₁
        → KeepsMap m m₁ pt
    Filled-KeepsMap {m} x va e low mapped =
        elim (Bool-cases (is_among (mapping.base / page_size) count va)) [
          | inl among ↦
              (let (l, h) = is_among-bounds (mapping.base / page_size) count va among in
                cc (x.fresh va low l h, mapped))
          | inr among ↦ x.maps va low ∙ rw among mapped
        ]

    Filled-Identity :
        {m m₁ : Mem} {pool₁ : Pool}
        → Filled m pt (mapping.base / page_size) mapping.base mapping.flag count m₁ pool₁
        → (va : ℕ) → mapping.base ≤ va
        → va < mapping.stop
        → lookup m₁ pt va ≡ some (entry (va / page_size * page_size) mapping.flag)
    Filled-Identity {m} x va l h =
        let own : mapping.base + page_size * (va / page_size - mapping.base / page_size)
            ≡ va / page_size * page_size =
          omega (arith, range.aligned) in
        x.maps va (omega (arith, range.top))
        ∙ rw
            (
              is_among-true (mapping.base / page_size) count va (omega arith)
                  (omega (arith, range.size)),
              own,
            )
            refl

  -- A range apart from the one that has been mapped is still not mapped.
  Unmapped-Filled :
      {m m₁ : Mem} {pool₁ : Pool} (mapping : Mapping) (range : IsRange mapping)
      → Filled m pt
          (mapping.base / page_size)
          mapping.base
          mapping.flag
          (count mapping range)
          m₁
          pool₁
      → (mappings : List Mapping) → Clear mapping mappings
      → Unmapped m pt mappings
      → Unmapped m₁ pt mappings
  Unmapped-Filled mapping range x [] clear free = tt
  Unmapped-Filled mapping range x (other ∷ mappings) (apart, clear) (here, free) = (
    λ va low l h.
        x.maps va low
        ∙ rw
            (is_among-false (mapping.base / page_size) (count mapping range) va
              (omega (arith, range.aligned, range.whole, range.size, apart)))
            (here va low l h),
    Unmapped-Filled mapping range x mappings clear free,
  )

  MappedAll-cons :
      (m m₁ m' : Mem) {pool₁ : Pool} (pool' : Pool) (mapping : Mapping) (mappings : List Mapping)
      (range : IsRange mapping) (result : Result VmError (Unit {0}))
      → Filled m pt
          (mapping.base / page_size)
          mapping.base
          mapping.flag
          (count mapping range)
          m₁
          pool₁
      → MappedAll m₁ pt mappings (result, pool') m'
      → MappedAll m pt (mapping ∷ mappings) (result, pool') m'
  MappedAll-cons m m₁ m' pool' mapping mappings range (err _) x rest = rest
  MappedAll-cons m m₁ m' pool' mapping mappings range (ok _) x (space, identity, keeps, same) = (
    space,
    (
      λ va l h.
          keeps va (entry (va / page_size * page_size) mapping.flag) (omega (arith, range.top))
            (Filled-Identity mapping range x va l h),
      identity,
    ),
    (λ va e low mapped. keeps va e low (Filled-KeepsMap mapping range x va e low mapped)),
    λ va low (beside, uncovered).
        same va low uncovered
        ∙ x.maps va low
        ∙ rw
            (is_among-false (mapping.base / page_size) (count mapping range) va
              (omega (arith, range.aligned, range.whole, range.size, beside)))
            refl,
  )

  map_all-MappedAll :
      {m : Mem} {pool : Pool} (mappings : List Mapping)
      → Ranges mappings
      → AllClear mappings
      → Unmapped m pt mappings
      → IsSpace pt pool m
      → Ensures (MappedAll m pt mappings) (map_all pool pt mappings m)
  unfolding map_all
  map_all-MappedAll [] ranges clear free space =
      (space, tt, (λ va e low mapped. mapped), λ va low uncovered. refl)
  map_all-MappedAll {m} {pool} (mapping ∷ mappings) (range, ranges) (clear, all_clear) (here, free)
        space =
      let size : ℕ = mapping.stop - mapping.base in
      rw (sub-done mapping.stop mapping.base m (omega (arith, range.size))) (
        Ensures-and_then
          (FilledTo m pt (mapping.base / page_size) mapping.base mapping.flag (count mapping range))
          _ (page_map pool pt mapping.base mapping.base size mapping.flag m) _
          (page_map-Filled pt mapping.flag range.flags mapping.base mapping.base size
            (omega (arith, range.size)) (omega (arith, range.top, range.size))
            (omega (arith, range.top, range.size)) space)
          λ (result, pool₁) m₁ filled.
            go result pool₁ m₁ filled
              (λ m₂ free₂ space₂. map_all-MappedAll mappings ranges all_clear free₂ space₂))
    where
      go :
          (result : Result VmError (Unit {0})) (pool₁ : Pool) (m₁ : Mem)
          → FilledTo m pt
              (mapping.base / page_size)
              mapping.base
              mapping.flag
              (count mapping range)
              (result, pool₁)
              m₁
          → ((m₂ : Mem)
              → Unmapped m₂ pt mappings
              → IsSpace pt pool₁ m₂
              → Ensures (MappedAll m₂ pt mappings) (map_all pool₁ pt mappings m₂))
          → Ensures (MappedAll m pt (mapping ∷ mappings)) (
              (elim result as (λ _. Cmd (Result VmError (Unit {0}) × Pool)) [
                | err e ↦ pure (err e, pool₁)
                | ok _ ↦ map_all pool₁ pt mappings
              ])
                m₁)
      go (err _) pool₁ m₁ (i, few, x, inl empty) below = (x.space, empty)
      go (err _) pool₁ m₁ (i, few, x, inr (va, low, at, old, mapped)) below = absurd (
          cc (
            here va low (omega (arith, range.aligned))
                (omega (arith, range.aligned, range.size, range.whole)),
            mapped,
          ))
      go (ok _) pool₁ m₁ x below =
          Ensures-mono (MappedAll m₁ pt mappings) _ (map_all pool₁ pt mappings m₁)
            (below m₁ (Unmapped-Filled mapping range x mappings clear free) x.space)
            λ (result', pool') m' rest.
              MappedAll-cons m m₁ m' pool' mapping mappings range result' x rest

-- What `kpage_init` leaves.
abbrev pub KernelMapped : Linker → Result VmError PageTable × Pool → Mem → Type 0
KernelMapped l (ok pt, pool') m' =
    IsSpace pt pool' m'
    × Identity m' pt (kernel_mappings l)
    × ((va : ℕ) → va < va_top → Uncovered va (kernel_mappings l) → lookup m' pt va ≡ none)
KernelMapped l (err _, pool') m' = pool'.free ≡ none

-- On a pool with a free page, with linker symbols by which every range of the kernel is from a page
-- to another, not empty, below 2 ^ 39 and apart from the others, `kpage_init` ends with neither a
-- panic nor a fault. Either it returns a page table, which is a tree of tables apart from the free
-- pages of the pool, and in it each address of each range has the entry for its own page with the
-- flags of the range, and no other address is mapped; or it is an error and the pool has no free page left.
pub kpage_init-KernelMapped :
    {m : Mem} {pool : Pool} (l : Linker) (a : ℕ) (rest : List ℕ)
    → Ranges (kernel_mappings l)
    → AllClear (kernel_mappings l)
    → IsPool m pool (a ∷ rest)
    → Ensures (KernelMapped l) (kpage_init l pool m)
unfolding kpage_init init_table
kpage_init-KernelMapped {m} {pool} l a rest ranges clear p =
    let page : IsPage a = omega (
      arith,
      p.low,
      p.high,
      p.pages.0,
      p.pages.1,
      Pages-le (a + page_size) pool.top rest p.pages.2,
    ) in
    let apart =
      Apart-above a (a + page_size) (a + page_size) pool.top rest (omega arith) p.pages.2 in
    Ensures-and_then (Allocated pool m rest a 1) _ (palloc pool m) (init_table l)
      (palloc-cons a rest p)
      λ (result, pool₁) m₁ (got, bounds, is, zeros, same).
        subst (λ r. Ensures (KernelMapped l) (init_table l (r, pool₁) m₁)) (sym got)
          (Ensures-and_then (MappedAll m₁ a (kernel_mappings l)) _
            (map_all pool₁ a (kernel_mappings l) m₁) _
            (map_all-MappedAll a (kernel_mappings l) ranges clear
              (Unmapped-root a is page apart (λ q l' h al. zeros q l' (omega arith) al)
                (kernel_mappings l))
              (IsSpace-root a is page apart (λ q l' h al. zeros q l' (omega arith) al)))
            λ (result', pool₂) m₂ mapped.
              go result' pool₂ m₂ m₁
                (root-none a is page apart (λ q l' h al. zeros q l' (omega arith) al)) mapped)
  where
    go :
        (result : Result VmError (Unit {0})) (pool₂ : Pool) (m₂ m₁ : Mem)
        → ((va : ℕ) → lookup m₁ a va ≡ none)
        → MappedAll m₁ a (kernel_mappings l) (result, pool₂) m₂
        → Ensures (KernelMapped l) (
            (elim result as (λ _. Cmd (Result VmError PageTable × Pool)) [
              | err e ↦ pure (err e, pool₂)
              | ok _ ↦ pure (ok a, pool₂)
            ])
              m₂)
    go (err _) pool₂ m₂ m₁ none_before (space, empty) = empty
    go (ok _) pool₂ m₂ m₁ none_before (space, identity, keeps, same) =
        (space, identity, λ va low uncovered. same va low uncovered ∙ none_before va)
