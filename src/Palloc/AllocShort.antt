-- ===== src/Palloc/AllocShort.antt =====
-- `alloc_pages` of src/vm/palloc.rs where the first region of the free list is too short: at a gap
-- the new start of the region is above `page`, and at the end of the list there is no more page.
use reedos.Common.{
  ℕ, zero, suc, ◌+◌, ◌-◌, ◌*◌, ◌/◌, ◌%◌, ◌≤◌, ◌<◌, ◌≡◌, refl, ◌∙◌, List, [], ◌∷◌, ◌++◌, arith, ap,
  ==_gt, ==_lt, ==_true, ltb-true, ltb-false, ok, err, length-append,
}
use reedos.Machine.{Mem, done, panic, fault, page_size, dram_base, dram_end, null}
use reedos.Machine.Laws.{sub-done, sub-panic, read-null, read-done}
use reedos.Palloc.{Pool, pool_fuel, extend, find_region, unlink, read_free, alloc_pages, no_gap}
use reedos.Palloc.Links.{Links, run, first-InRange}
use reedos.Palloc.Steps.{
  IsPage, write_prev-IsWord, write_next-IsWord, read_free-done, add_page-done,
}
use reedos.Palloc.FreeList.{IsPool, pool_fuel-lt, length-run, suc-sub-one}
use reedos.Palloc.AllocPages.{Pages-run_rest, Pages-run_end}

-- The inner loop stops at the last page before the gap.
extend-gap :
    (k want i j start page prev x : ℕ) (rest : List ℕ) (m : Mem)
    → dram_base ≤ page
    → page % page_size ≡ 0
    → x + page_size ≤ dram_end
    → i + j ≤ want
    → start + page_size * i ≡ page
    → Links m prev (run (suc j) page ++ x ∷ rest) null
    → page + page_size * suc j < x
    → j < k
    → extend k want start page (m (page + 8)) m ≡ done (ok (page + page_size * j, x)) m
unfolding extend
extend-gap zero want i j start page prev x rest m ram al hi e f l gap fuel = absurd (omega arith)
extend-gap (suc k) want i zero start page prev x rest m ram al hi e f (lp, ln, l) gap fuel =
    let a : IsPage page = omega arith in
    rw (add_page-done page a m, ln, ==_gt x (page + page_size) (omega arith))
      (ap (λ p. done (ok (p, x)) m) (omega arith))
extend-gap (suc k) want i (suc j) start page prev x rest m ram al hi e f (lp, ln, l) gap fuel =
    let a : IsPage page = omega arith in
    let b : IsPage (page + page_size) = omega arith in
    let d : (page - start) / page_size ≡ i = omega arith in
    rw
      (
        add_page-done page a m,
        ln,
        ==_true (page + page_size) (page + page_size) refl,
        sub-done page start m (omega arith),
        d,
        ltb-true i want (omega arith),
        read_free-done (page + page_size) b m,
        ==_gt (m (page + page_size + 8)) 0 (next_pos j l gap),
      )
      (extend-gap k want (suc i) j start (page + page_size) page x rest m (omega arith)
          (omega arith) hi (omega arith) (omega arith) l (omega arith) (omega arith)
        ∙ ap (λ p. done (ok (p, x)) m) (omega arith))
  where
    next_pos :
        (j : ℕ)
        → Links m page (run (suc j) (page + page_size) ++ x ∷ rest) null
        → page + page_size * suc (suc j) < x
        → 0 < m (page + page_size + 8)
    next_pos zero l g = omega (arith, l.1)
    next_pos (suc j) l g = omega (arith, l.1)

-- The inner loop runs off the end of the list.
extend-last :
    (k want i j start page prev : ℕ) (m : Mem)
    → dram_base ≤ page
    → page % page_size ≡ 0
    → page + page_size * suc (suc j) ≤ dram_end
    → i + suc j ≤ want
    → start + page_size * i ≡ page
    → Links m prev (run (suc (suc j)) page) null
    → j < k
    → extend k want start page (page + page_size) m ≡ done (err no_gap) m
unfolding extend
extend-last zero want i j start page prev m ram al hi e f l fuel = absurd (omega arith)
extend-last (suc k) want i zero start page prev m ram al hi e f (lp, ln, l) fuel =
    let a : IsPage page = omega arith in
    let b : IsPage (page + page_size) = omega arith in
    let d : (page - start) / page_size ≡ i = omega arith in
    rw
      (
        add_page-done page a m,
        ==_true (page + page_size) (page + page_size) refl,
        sub-done page start m (omega arith),
        d,
        ltb-true i want (omega arith),
        read_free-done (page + page_size) b m,
        l.1,
      )
      refl
extend-last (suc k) want i (suc j) start page prev m ram al hi e f (lp, ln, l) fuel =
    let a : IsPage page = omega arith in
    let b : IsPage (page + page_size) = omega arith in
    let d : (page - start) / page_size ≡ i = omega arith in
    rw
      (
        add_page-done page a m,
        ==_true (page + page_size) (page + page_size) refl,
        sub-done page start m (omega arith),
        d,
        ltb-true i want (omega arith),
        read_free-done (page + page_size) b m,
        l.1,
        ==_gt (page + page_size + page_size) 0 (omega arith),
      )
      (extend-last k want (suc i) j start (page + page_size) page m (omega arith) (omega arith)
        (omega arith) (omega arith) (omega arith) l (omega arith))

-- A gap makes the loop subtract the start of the new region from a page below it.
find_region-gap :
    (rounds k want j a x : ℕ) (rest : List ℕ) (m : Mem)
    → dram_base ≤ a
    → a % page_size ≡ 0
    → x + page_size ≤ dram_end
    → 0 < want
    → j ≤ want
    → Links m null (run (suc j) a ++ x ∷ rest) null
    → a + page_size * suc j < x
    → j < rounds
    → 1 < k
    → find_region rounds k want a a (m (a + 8)) m ≡ panic
unfolding find_region
find_region-gap rounds zero want j a x rest m ram al hi w le l gap fuel fuel' = absurd (omega arith)
find_region-gap rounds (suc zero) want j a x rest m ram al hi w le l gap fuel fuel' =
    absurd (omega arith)
find_region-gap rounds (suc (suc k)) want j a x rest m ram al hi w le l gap fuel fuel' =
    let b : IsPage (a + page_size * j) = omega arith in
    let d : (a - a) / page_size ≡ 0 = omega arith in
    rw
      (
        sub-done a a m (omega arith),
        d,
        ltb-true 0 want w,
        extend-gap rounds want 0 j a a null x rest m ram al hi (omega arith) (omega arith) l gap
            fuel,
        add_page-done (a + page_size * j) b m,
        ==_gt x (a + page_size * j + page_size) (omega arith),
        sub-panic (a + page_size * j) x m (omega arith),
      )
      refl

find_region-last :
    (rounds k want j a : ℕ) (m : Mem)
    → dram_base ≤ a
    → a % page_size ≡ 0
    → a + page_size * suc (suc j) ≤ dram_end
    → suc j ≤ want
    → Links m null (run (suc (suc j)) a) null
    → j < rounds
    → 0 < k
    → find_region rounds k want a a (a + page_size) m ≡ done (err no_gap) m
unfolding find_region
find_region-last rounds zero want j a m ram al hi le l fuel fuel' = absurd (omega arith)
find_region-last rounds (suc k) want j a m ram al hi le l fuel fuel' =
    let d : (a - a) / page_size ≡ 0 = omega arith in
    rw
      (
        sub-done a a m (omega arith),
        d,
        ltb-true 0 want (omega arith),
        extend-last rounds want 0 j a a null m ram al hi (omega arith) (omega arith) l fuel,
      )
      refl

module _ {m : Mem} {pool : Pool} (a want j : ℕ) where
  pub alloc_pages-gap :
      (x : ℕ) (rest : List ℕ)
      → IsPool m pool (run (suc j) a ++ x ∷ rest)
      → 0 < want
      → j ≤ want
      → a + page_size * suc j < x
      → alloc_pages pool a (suc want) m ≡ panic
  unfolding alloc_pages
  alloc_pages-gap x rest p w le gap =
      let c = first-InRange pool.bottom pool.top a (run j (a + page_size) ++ x ∷ rest) p.pages in
      let ps = Pages-run_rest j pool.bottom pool.top a (x ∷ rest) p.pages in
      let b = first-InRange (a + page_size * suc j) pool.top x rest ps in
      let page : IsPage a = omega (arith, p.low, p.high, c.low, c.high, c.aligned) in
      let len = length-append (run (suc j) a) (x ∷ rest) in
      let fuel = pool_fuel-lt p in
      rw
        (
          read_free-done a page m,
          p.links.0,
          sub-done (suc want) 1 m (omega arith),
          suc-sub-one want,
          find_region-gap (pool_fuel pool) (pool_fuel pool) want j a x rest m page.low page.aligned
              (omega (arith, b.high, p.high)) w le p.links gap
              (omega (arith, fuel, len, length-run j (a + page_size))) (omega (arith, fuel, len)),
        )
        refl

  pub alloc_pages-last :
      IsPool m pool (run (suc (suc j)) a)
      → suc j ≤ want
      → alloc_pages pool a (suc want) m ≡ done (err no_gap, pool) m
  unfolding alloc_pages
  alloc_pages-last p le =
      let c = first-InRange pool.bottom pool.top a (run (suc j) (a + page_size)) p.pages in
      let b = Pages-run_end (suc j) pool.bottom pool.top a p.pages in
      let page : IsPage a = omega (arith, p.low, p.high, c.low, c.high, c.aligned) in
      let fuel = pool_fuel-lt p in
      rw
        (
          read_free-done a page m,
          p.links.0,
          p.links.1,
          sub-done (suc want) 1 m (omega arith),
          suc-sub-one want,
          find_region-last (pool_fuel pool) (pool_fuel pool) want j a m page.low page.aligned
              (omega (arith, b, p.high)) le p.links
              (omega (arith, fuel, length-run j (a + page_size + page_size))) (omega (arith, fuel)),
        )
        refl

-- With a single free page, and more than one asked for, the new region starts at address 0.
find_region-single :
    (rounds k want a : ℕ) (m : Mem)
    → IsPage a
    → 0 < want
    → want ≤ dram_base / page_size
    → 0 < rounds
    → 1 < k
    → find_region rounds k want a a 0 m ≡ done (ok (0, a, 0)) m
unfolding find_region extend
find_region-single zero k want a m page w le fuel fuel' = absurd (omega arith)
find_region-single (suc r) zero want a m page w le fuel fuel' = absurd (omega arith)
find_region-single (suc r) (suc zero) want a m page w le fuel fuel' = absurd (omega arith)
find_region-single (suc r) (suc (suc k)) want a m page w le fuel fuel' =
    let d : (a - a) / page_size ≡ 0 = omega arith in
    rw
      (
        sub-done a a m (omega arith),
        d,
        ltb-true 0 want w,
        add_page-done a page m,
        ==_lt 0 (a + page_size) (omega arith),
        add_page-done a page m,
        ==_lt 0 (a + page_size) (omega arith),
        sub-done a 0 m (omega arith),
        ltb-false ((a - 0) / page_size) want (omega arith),
      )
      refl

module _ {m : Mem} {pool : Pool} (a want : ℕ) where
  pub alloc_pages-single :
      IsPool m pool (a ∷ [])
      → 0 < want
      → want ≤ dram_base / page_size
      → alloc_pages pool a (suc want) m ≡ fault
  unfolding alloc_pages unlink read_free
  alloc_pages-single p w le =
      let c = first-InRange pool.bottom pool.top a [] p.pages in
      let page : IsPage a = omega (arith, p.low, p.high, c.low, c.high, c.aligned) in
      let fuel = pool_fuel-lt p in
      rw
        (
          read-done (write_prev-IsWord a page m) m,
          read-done (write_next-IsWord a page m) m,
          p.links.0,
          p.links.1,
          sub-done (suc want) 1 m (omega arith),
          suc-sub-one want,
          find_region-single (pool_fuel pool) (pool_fuel pool) want a m page w le
              (omega (arith, fuel)) (omega (arith, fuel)),
          read-null m,
        )
        refl
