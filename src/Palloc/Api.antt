-- ===== src/Palloc/Api.antt =====
-- The operations of `PagePool` in src/vm/palloc.rs.

use reedos.Common.{
  ℕ, zero, suc, ◌+◌, ◌*◌, ◌/◌, ◌%◌, ◌≤◌, ◌<◌, ◌≡◌, ◌≢◌, refl, ◌∙◌, true, false, List, [], ◌∷◌, ◌++◌,
  arith, ap, inl, ◌⊎◌, ==_true, ==_gt, ok, err, subst, sym, Result,
}
use reedos.Common.Bits.{bit_and_low}
use reedos.Machine.{Mem, done, panic, fault, page_size, dram_base, null, Ensures}
use reedos.Palloc.{
  Pool, VmError, out_of_pages, is_multiple, palloc, palloc_plural, pfree, pfree_plural, alloc_from,
}
use reedos.Palloc.Links.{run, first}
use reedos.Palloc.Steps.{IsZero}
use reedos.Palloc.FreeList.{IsPool, Keeps, insert, head}
use reedos.Palloc.FreePages.{IsRegion, free_pages-done}
use reedos.Palloc.AllocPages.{alloc_pages-done}
use reedos.Palloc.Alloc.{LongEnough}
use reedos.Palloc.AllocShort.{alloc_pages-gap, alloc_pages-last, alloc_pages-single}

-- Asserts of the alignment of a page.
is_multiple-misaligned : (a : ℕ) → a % page_size ≢ 0 → is_multiple a page_size ≡ false
unfolding is_multiple
is_multiple-misaligned a h = rw (bit_and_low 12 a) (==_gt (a % page_size) 0 (omega arith))

-- The mask test is the test of divisibility.
pub is_multiple_page : (a : ℕ) → a % page_size ≡ 0 → is_multiple a page_size ≡ true
unfolding is_multiple
is_multiple_page a h = rw (bit_and_low 12 a) (==_true _ _ h)

abbrev pub SameBounds : Pool → Pool → Type 0
SameBounds pool pool' = (pool'.bottom ≡ pool.bottom) × (pool'.top ≡ pool.top)

-- The `n` pages from `a` on are handed out, zeroed; the pages `rest` are still free, and no other
-- word changes.
abbrev pub Allocated : Pool → Mem → List ℕ → (a n : ℕ) → Result VmError ℕ × Pool → Mem → Type 0
Allocated pool m rest a n (result, pool') m' =
    (result ≡ ok a)
    × SameBounds pool pool'
    × IsPool m' pool' rest
    × IsZero m' a (a + page_size * n)
    × Keeps m m' rest a (a + page_size * n)

-- The `n` pages from `page` on are free again, in their place, and no other word changes but the
-- links of the free pages.
abbrev pub Freed :
    Pool → Mem → List ℕ → (page n : ℕ) → Result VmError (Unit {0}) × Pool → Mem → Type 0
Freed pool m xs page n (result, pool') m' =
    (result ≡ ok tt)
    × SameBounds pool pool'
    × IsPool m' pool' (insert page n xs)
    × Keeps m m' xs page (page + page_size * n)

module _ {m : Mem} {pool : Pool} where
  -- The match on the head of the list, where it is known.
  from_head :
      (P : Result VmError ℕ × Pool → Mem → Type 0) (xs : List ℕ) (n : ℕ)
      → IsPool m pool xs
      → Ensures P (alloc_from (head xs) pool n m)
      → Ensures P (alloc_from pool.free pool n m)
  from_head P xs n p e = subst (λ free. Ensures P (alloc_from free pool n m)) (sym p.free) e

  alloc_from-run :
      (a want : ℕ) (rest : List ℕ)
      → IsPool m pool (run (suc want) a ++ rest)
      → LongEnough a want rest
      → Ensures (Allocated pool m rest a (suc want)) (alloc_from pool.free pool (suc want) m)
  unfolding alloc_from
  alloc_from-run a want rest p enough =
      let (m', ran, is, zeros, same) = alloc_pages-done a want rest p enough in
      from_head (Allocated pool m rest a (suc want)) (run (suc want) a ++ rest) (suc want) p
        (rw ran (refl, (refl, refl), is, zeros, same))

  -- On a pool whose free pages are `a` and then `rest`, `palloc` returns `a`, all of it zero;
  -- `rest` are the free pages of the new pool, its bounds are the old ones, and no word of RAM
  -- outside `a` and `rest` changes.
  pub palloc-cons :
      (a : ℕ) (rest : List ℕ)
      → IsPool m pool (a ∷ rest)
      → Ensures (Allocated pool m rest a 1) (palloc pool m)
  unfolding palloc
  palloc-cons a rest p = alloc_from-run a 0 rest p (inl refl)

  -- On a pool without a free page, `palloc` is `OutOfPages`, and neither the pool nor memory
  -- changes.
  pub palloc-nil : IsPool m pool [] → palloc pool m ≡ done (err out_of_pages, pool) m
  unfolding palloc alloc_from
  palloc-nil p = ap (λ free. alloc_from free pool 1 m) p.free

  -- On a pool whose first free pages are `n` adjacent ones from `a` on, 0 < `n`, `palloc_plural`
  -- of `n` pages returns `a`, the `n` pages all zero, if `n` is 1 or the next free page is
  -- adjacent to them too; `rest` are the free pages of the new pool, its bounds are the old ones,
  -- and no word of RAM outside the `n` pages and `rest` changes.
  pub palloc_plural-run :
      (a n : ℕ) (rest : List ℕ)
      → IsPool m pool (run n a ++ rest)
      → 0 < n
      → (n ≡ 1) ⊎ (first rest null ≡ a + page_size * n)
      → Ensures (Allocated pool m rest a n) (palloc_plural pool n m)
  unfolding palloc_plural
  palloc_plural-run a zero rest p pos enough = absurd (omega arith)
  palloc_plural-run a (suc want) rest p pos enough =
      rw (==_gt (suc want) 0 (omega arith)) (alloc_from-run a want rest p (omega arith))

  -- Where the first region of adjacent free pages has at most `n` pages, and a free page follows
  -- behind a gap, `palloc_plural` of `n` pages, 1 < `n`, panics.
  pub palloc_plural-gap :
      (a n j x : ℕ) (rest : List ℕ)
      → IsPool m pool (run (suc j) a ++ x ∷ rest)
      → a + page_size * suc j < x
      → 1 < n
      → suc j ≤ n
      → palloc_plural pool n m ≡ panic
  unfolding palloc_plural alloc_from
  palloc_plural-gap a zero j x rest p gap more le = absurd (omega arith)
  palloc_plural-gap a (suc want) j x rest p gap more le = rw (==_gt (suc want) 0 (omega arith)) (
      ap (λ free. alloc_from free pool (suc want) m) p.free
      ∙ rw (alloc_pages-gap a want j x rest p (omega arith) (omega arith) gap) refl)

  -- Where all free pages are one region of two or more pages, and of at most `n`, `palloc_plural`
  -- of `n` pages is `OutOfPages`, also where the region has exactly `n`; neither the pool nor
  -- memory changes.
  pub palloc_plural-last :
      (a n j : ℕ)
      → IsPool m pool (run (suc (suc j)) a)
      → suc (suc j) ≤ n
      → palloc_plural pool n m ≡ done (err out_of_pages, pool) m
  unfolding palloc_plural alloc_from
  palloc_plural-last a zero j p le = absurd (omega arith)
  palloc_plural-last a (suc want) j p le = rw (==_gt (suc want) 0 (omega arith)) (
      ap (λ free. alloc_from free pool (suc want) m) p.free
      ∙ rw (alloc_pages-last a want j p (omega arith)) refl)

  -- Where one page is free, `palloc_plural` of `n` pages, 1 < `n` and `n` at most the number of
  -- pages below RAM, reads an address outside RAM.
  pub palloc_plural-single :
      (a n : ℕ)
      → IsPool m pool (a ∷ [])
      → 1 < n
      → n ≤ dram_base / page_size
      → palloc_plural pool n m ≡ fault
  unfolding palloc_plural alloc_from
  palloc_plural-single a zero p more le = absurd (omega arith)
  palloc_plural-single a (suc want) p more le = rw (==_gt (suc want) 0 (omega arith)) (
      ap (λ free. alloc_from free pool (suc want) m) p.free
      ∙ rw (alloc_pages-single a want p (omega arith) (omega arith)) refl)

  -- `pfree_plural` of a region of `n` pages, 0 < `n`, that is page aligned, inside the pool's
  -- bounds and apart from the free pages `xs`, succeeds: the pages are free again, at their place
  -- in the ascending list, the pool's bounds are the old ones, and no word of RAM outside `xs`
  -- and the region changes.
  pub pfree_plural-insert :
      (xs : List ℕ) (page n : ℕ)
      → IsPool m pool xs
      → IsRegion pool xs page n
      → 0 < n
      → Ensures (Freed pool m xs page n) (pfree_plural pool page n m)
  unfolding pfree_plural
  pfree_plural-insert xs page zero p r pos = absurd (omega arith)
  pfree_plural-insert xs page (suc n) p r pos =
      let (m', ran, is, same) = free_pages-done p page n r in
      rw (==_gt (suc n) 0 (omega arith), is_multiple_page page r.aligned, ran)
        (refl, (refl, refl), is, same)

  -- `pfree` of a page that is page aligned, inside the pool's bounds and apart from the free
  -- pages `xs` succeeds: the page is free again, at its place in the ascending list, the pool's
  -- bounds are the old ones, and no word of RAM outside `xs` and the page changes.
  pub pfree-insert :
      (xs : List ℕ) (page : ℕ)
      → IsPool m pool xs
      → IsRegion pool xs page 1
      → Ensures (Freed pool m xs page 1) (pfree pool page m)
  unfolding pfree
  pfree-insert xs page p r =
      let (m', ran, is, same) = free_pages-done p page 0 r in
      rw (is_multiple_page page r.aligned, ran) (refl, (refl, refl), is, same)

-- Both `pfree` and `pfree_plural`, of one page or more, panic at an address that is not a
-- multiple of the page size, whatever the pool and memory.
pub pfree-misaligned :
    (pool : Pool) (page n : ℕ) (m : Mem)
    → page % page_size ≢ 0
    → (pfree pool page m ≡ panic) × (pfree_plural pool page (suc n) m ≡ panic)
unfolding pfree pfree_plural
pfree-misaligned pool page n m h = (
  rw (is_multiple-misaligned page h) refl,
  rw (==_gt (suc n) 0 (omega arith), is_multiple-misaligned page h) refl,
)
