-- ===== src/Galloc/Pages.antt =====
-- The requests that the global allocator of src/vm/global.rs hands to the page pool.
use reedos.Common.{
  ℕ, ◌+◌, ◌*◌, ◌/◌, ◌≤◌, ◌<◌, ◌≡◌, refl, subst, sym, List, ◌++◌, arith, leb, ok, inl, inr, ◌⊎◌,
  Bool-cases, ==_gt, leb-true, if◌then◌else◌, Result,
}
use reedos.Machine.{Mem, Cmd, done, page_size, usize_top, null, Ensures, ◌>>=◌}
use reedos.Machine.Laws.{add-done, sub-eq, Ensures-and_then}
use reedos.Palloc.{Pool, palloc_plural, pfree_plural}
use reedos.Palloc.Links.{run, first}
use reedos.Palloc.Steps.{IsZero}
use reedos.Palloc.FreeList.{IsPool, Keeps}
use reedos.Palloc.Api.{Allocated, SameBounds, palloc_plural-run}
use reedos.Palloc.RoundTrip.{pfree_plural-front}
use reedos.Galloc.{
  Galloc, Layout, decide_internal_scheme, alloc, alloc_pages, dealloc, dealloc_pages, expect,
}

-- The pages for a layout, or 0 for the allocator of chunks.
abbrev pub pages_for : Layout → ℕ
pages_for layout =
    if leb layout.size 4080
    then if leb layout.align 8 then 0 else 1
    else (layout.size + 4095) / page_size

pub decide-done :
    (layout : Layout) (m : Mem)
    → 0 < layout.size
    → layout.size + page_size < usize_top
    → decide_internal_scheme layout m ≡ done (pages_for layout) m
unfolding decide_internal_scheme
decide-done layout m pos small = elim (Bool-cases (leb layout.size 4080)) [
  | inl e ↦ rw (==_gt layout.size 0 pos, e) refl
  | inr e ↦
      rw
        (
          ==_gt layout.size 0 pos,
          e,
          add-done layout.size page_size m small,
          sub-eq (layout.size + page_size) 1 (layout.size + 4095) m (omega arith),
        )
        refl
]

pages_for_lem :
    (size align : ℕ)
    → 0 < size
    → let n : ℕ = pages_for (record { size = size; align = align }) in
      ((n ≡ 0) × (size ≤ 4080) × (align ≤ 8))
      ⊎ ((0 < n) × (size ≤ page_size * n) × (page_size * n < size + page_size))
pages_for_lem size align pos = elim (Bool-cases (leb size 4080)) [
  | inl e ↦ elim (Bool-cases (leb align 8)) [
    | inl f ↦ rw (e, f) (inl (refl, ground arith, ground arith))
    | inr f ↦ rw (e, f) (inr (omega arith, ground arith, omega arith))
  ]
  | inr e ↦ let h : 4080 < size = ground arith in rw e (inr (omega arith, omega arith, omega arith))
]

-- For a layout of a size that is not 0 and is rounded up to pages without overflow,
-- `decide_internal_scheme` is 0 only for a size of at most 4080 and an alignment of at most 8,
-- and otherwise the least number of pages that hold the size.
pub decide_internal_scheme-fits :
    (layout : Layout) (m : Mem)
    → 0 < layout.size
    → layout.size + page_size < usize_top
    → (n : ℕ) × (decide_internal_scheme layout m ≡ done n m)
      × (((n ≡ 0) × (layout.size ≤ 4080) × (layout.align ≤ 8))
          ⊎ ((0 < n) × (layout.size ≤ page_size * n) × (page_size * n < layout.size + page_size)))
decide_internal_scheme-fits layout m pos small =
    (pages_for layout, decide-done layout m pos small, pages_for_lem layout.size layout.align pos)

pub expect-Ensures :
    {E A B : Type 0} (P : B → Mem → Type 0) (result : Result E A) (a : A) (k : A → Cmd B) (m : Mem)
    → result ≡ ok a
    → Ensures P (k a m)
    → Ensures P ((expect result >>= k) m)
unfolding expect
expect-Ensures P result a k m got e = subst (λ r. Ensures P ((expect r >>= k) m)) (sym got) e

module _ {m : Mem} {pool : Pool} (galloc : Galloc) (layout : Layout) (a : ℕ) (rest : List ℕ)
    (pos : 0 < layout.size) (small : layout.size + page_size < usize_top)
    (aligned : layout.align ≤ page_size) (large : 0 < pages_for layout)
    (p : IsPool m pool (run (pages_for layout) a ++ rest))
    (enough : (pages_for layout ≡ 1) ⊎ (first rest null ≡ a + page_size * pages_for layout)) where
  abbrev n : ℕ
  n = pages_for layout

  -- For a layout of a size that is not 0 and is rounded up to pages without overflow, that is for
  -- pages and aligned to at most a page, on a pool whose first free pages are the number `n` of
  -- pages for it, adjacent and from `a` on, and `n` is 1 or the next free page is adjacent too,
  -- `alloc` returns `a`, all `n` pages zero; the other pages stay free, the pool's bounds are the
  -- old ones, and no word of RAM outside these pages and the free ones changes.
  pub alloc-run :
      Ensures
        (λ (ptr, pool') m'.
          (ptr ≡ a)
          × SameBounds pool pool'
          × IsPool m' pool' rest
          × IsZero m' a (a + page_size * n)
          × Keeps m m' rest a (a + page_size * n))
        (alloc galloc pool layout m)
  unfolding alloc alloc_pages expect
  alloc-run =
      rw (leb-true layout.align page_size aligned, decide-done layout m pos small, ==_gt n 0 large)
        (Ensures-and_then (Allocated pool m rest a n) _ (palloc_plural pool n m) _
          (palloc_plural-run a n rest p large enough)
          (λ (result, pool') m' (got, bounds, is, zeros, same).
            expect-Ensures _ result a (λ ptr. done (ptr, pool')) m' got
              (refl, bounds, is, zeros, same)))

  -- For a layout of a size that is not 0 and is rounded up to pages without overflow, that is for
  -- pages and aligned to at most a page, on a pool whose first free pages are the number `n` of
  -- pages for it, adjacent and from `a` on, and `n` is 1 or the next free page is adjacent too,
  -- `alloc` returns an address and `dealloc` of it with the same layout succeeds, and the free
  -- pages are those of the start.
  pub alloc-dealloc :
      Ensures
        (λ pool' m'. IsPool m' pool' (run n a ++ rest))
        ((alloc galloc pool layout >>= λ (ptr, pool'). dealloc galloc pool' ptr layout) m)
  unfolding dealloc dealloc_pages
  alloc-dealloc =
      Ensures-and_then _ _ (alloc galloc pool layout m)
        (λ (ptr, pool'). dealloc galloc pool' ptr layout) alloc-run
        λ (ptr, pool') m₁ (q, bounds, is, zeros, same).
          rw
            (
              leb-true layout.align page_size aligned,
              decide-done layout m₁ pos small,
              ==_gt n 0 large,
              q,
            )
            (Ensures-and_then _ _ (pfree_plural pool' a n m₁) _
              (pfree_plural-front pool a n rest p.pages large bounds is)
              (λ (result, pool'') m₂ (ended, is').
                expect-Ensures _ result tt (λ _. done pool'') m₂ ended is'))
