-- ===== src/Palloc/Alloc.antt =====
-- `alloc_pages` of src/vm/palloc.rs where the free list starts with a region that is long enough.
use reedos.Common.{
  ℕ, zero, suc, ◌+◌, ◌-◌, ◌*◌, ◌/◌, ◌%◌, ◌≤◌, ◌<◌, ◌≡◌, refl, ◌⊎◌, inl, inr, ◌∙◌, List, ◌++◌, arith,
  ap, ==_gt, ==_true, ltb-true, ltb-false, ok,
}
use reedos.Machine.{Mem, done, page_size, dram_base, dram_end, null}
use reedos.Machine.Laws.{sub-done}
use reedos.Palloc.{extend, find_region}
use reedos.Palloc.Links.{Links, first, run}
use reedos.Palloc.Steps.{IsPage, read_free-done, add_page-done}

-- The page behind the first of two adjacent regions, the former of which may be empty.
first-run :
    (j a : ℕ) (rest : List ℕ)
    → first rest null ≡ a + page_size * j
    → first (run j a ++ rest) null ≡ a
first-run zero a rest e = omega arith
first-run (suc j) a rest e = refl

-- The inner loop goes through `j` more adjacent pages, until the region has `want + 1`.
extend-done :
    (k want i j start page prev : ℕ) (rest : List ℕ) (m : Mem)
    → dram_base ≤ page
    → page % page_size ≡ 0
    → page + page_size * suc j ≤ dram_end
    → i + j ≡ want
    → start + page_size * i ≡ page
    → Links m prev (run (suc j) page ++ rest) null
    → first rest null ≡ page + page_size * suc j
    → j < k
    → extend k want start page (page + page_size) m
      ≡ done (ok (start + page_size * want, start + page_size * suc want)) m
unfolding extend
extend-done zero want i j start page prev rest m ram al hi e f l fr fuel = absurd (omega arith)
extend-done (suc k) want i zero start page prev rest m ram al hi e f l fr fuel =
    let a : IsPage page = omega arith in
    let d : (page - start) / page_size ≡ want = omega arith in
    rw
      (
        add_page-done page a m,
        ==_true (page + page_size) (page + page_size) refl,
        sub-done page start m (omega arith),
        d,
        ltb-false want want (omega arith),
      )
      (ap (λ p. done (ok p) m) (ground arith))
extend-done (suc k) want i (suc j) start page prev rest m ram al hi e f (lp, ln, l) fr fuel =
    let a : IsPage page = omega arith in
    let b : IsPage (page + page_size) = omega arith in
    let d : (page - start) / page_size ≡ i = omega arith in
    let n : m (page + page_size + 8) ≡ page + page_size + page_size =
      l.1 ∙ first-run j (page + page_size + page_size) rest (omega arith) in
    rw
      (
        add_page-done page a m,
        ==_true (page + page_size) (page + page_size) refl,
        sub-done page start m (omega arith),
        d,
        ltb-true i want (omega arith),
        read_free-done (page + page_size) b m,
        n,
        ==_gt (page + page_size + page_size) 0 (omega arith),
      )
      (extend-done k want (suc i) j start (page + page_size) page rest m (omega arith) (omega arith)
        (omega arith) (omega arith) (omega arith) l (omega arith) (omega arith))

-- A region of `want + 1` pages at the head of the list: one page, or with an adjacent page behind.
abbrev pub LongEnough : ℕ → ℕ → List ℕ → Type 0
LongEnough a want rest = (want ≡ 0) ⊎ (first rest null ≡ a + page_size * suc want)

pub find_region-done :
    (rounds k want a : ℕ) (rest : List ℕ) (m : Mem)
    → dram_base ≤ a
    → a % page_size ≡ 0
    → a + page_size * suc want ≤ dram_end
    → Links m null (run (suc want) a ++ rest) null
    → LongEnough a want rest
    → want < rounds
    → 1 < k
    → find_region rounds k want a a (first (run want (a + page_size) ++ rest) null) m
      ≡ done (ok (a, a + page_size * want, first rest null)) m
unfolding find_region
find_region-done rounds zero want a rest m ram al hi l en fuel fuel' = absurd (omega arith)
find_region-done rounds (suc zero) want a rest m ram al hi l en fuel fuel' = absurd (omega arith)
find_region-done rounds (suc (suc k)) zero a rest m ram al hi l en fuel fuel' =
    rw (sub-done a a m (omega arith), ltb-false ((a - a) / page_size) 0 (omega arith))
      (ap (λ p. done (ok (a, p, first rest null)) m) (omega arith))
find_region-done rounds (suc (suc k)) (suc want) a rest m ram al hi l (inl e) fuel fuel' =
    absurd (omega arith)
find_region-done rounds (suc (suc k)) (suc want) a rest m ram al hi l (inr e) fuel fuel' =
    let w = suc want in
    let last_page : IsPage (a + page_size * w) = omega arith in
    let d : (a - a) / page_size ≡ 0 = omega arith in
    let d' : (a + page_size * w - a) / page_size ≡ w = omega arith in
    let n : a + page_size * w + page_size ≡ a + page_size * suc w = omega arith in
    rw (
      sub-done a a m (omega arith),
      d,
      ltb-true 0 w (omega arith),
      extend-done rounds w 0 w a a null rest m ram al hi (omega arith) (omega arith) l e fuel,
      add_page-done (a + page_size * w) last_page m,
      n,
      ==_true (a + page_size * suc w) (a + page_size * suc w) refl,
      sub-done (a + page_size * w) a m (omega arith),
      d',
      ltb-false w w (omega arith),
      e,
    )
