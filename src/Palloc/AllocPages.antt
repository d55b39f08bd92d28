-- ===== src/Palloc/AllocPages.antt =====
-- `alloc_pages` of src/vm/palloc.rs against the list of free pages: the region at its head leaves.
use reedos.Common.{
  ℕ, zero, suc, ◌+◌, ◌*◌, ◌%◌, ◌≤◌, ◌<◌, ◌≡◌, ◌≢◌, refl, inr, ◌∙◌, List, [], ◌∷◌, ◌++◌, arith,
  ==_gt, ok, length-append,
}
use reedos.Machine.{Mem, done, update, page_size, dram_base, dram_end, null}
use reedos.Machine.Laws.{sub-done, update_self, update_ne}
use reedos.Palloc.{Pool, pool_fuel, unlink, alloc_pages}
use reedos.Palloc.Links.{
  Links, Pages, first, last, run, Links-last, Links-split, Links-frame, Links-retarget, Pages-le,
  Pages-weaken, first-InRange, last-InRange,
}
use reedos.Palloc.Steps.{IsPage, IsZero, read_free-done, write_prev-done}
use reedos.Palloc.Region.{zero_region-done}
use reedos.Palloc.FreeList.{IsPool, Keeps, head, pool_fuel-lt, ne-first, length-run, suc-sub-one}
use reedos.Palloc.Alloc.{LongEnough, find_region-done}

-- The rest of the list loses its pointer back to the region.
record Unlinked (m m' : Mem) (rest : List ℕ) : Type 0 where
  links : Links m' null rest null
  same : (q : ℕ) → q ≢ first rest null → m' q ≡ m q

unlink-done :
    (pool : Pool) (lo hi a prev : ℕ) (rest : List ℕ) (m : Mem)
    → IsPage a
    → m a ≡ null
    → dram_base ≤ lo
    → hi ≤ dram_end
    → Pages lo hi rest
    → Links m prev rest null
    → (m' : Mem) × (unlink pool a (first rest null) m ≡ done (record pool { free = head rest }) m')
      × Unlinked m m' rest
unfolding unlink
unlink-done pool lo hi a prev [] m p e ram top ps l =
    (m, rw (read_free-done a p m, e) refl, record { links = tt; same = λ q h. refl })
unlink-done pool lo hi a prev (x ∷ rest) m p e ram top ps l =
    let r = first-InRange lo hi x rest ps in
    let r' = last-InRange lo hi x rest ps in
    let b : IsPage x = omega arith in
    (
      update m x null,
      rw (read_free-done a p m, e, ==_gt x 0 (omega arith), write_prev-done x b m null) refl,
      record {
        links =
            Links-retarget m (update m x null) lo hi prev null x rest null null ps l
              (update_self m x null)
              (update_ne m x (last x rest + 8) null (omega arith) ∙ Links-last m prev x rest null l)
              (λ q c d f g. update_ne m x q null f);
        same = λ q h. update_ne m x q null h;
      },
    )

pub Pages-run_rest :
    (n lo hi a : ℕ) (rest : List ℕ)
    → Pages lo hi (run (suc n) a ++ rest)
    → Pages (a + page_size * suc n) hi rest
Pages-run_rest zero lo hi a rest (p, al, ps) = ps
Pages-run_rest (suc n) lo hi a rest (p, al, ps) =
    let e : a + page_size + page_size * suc n ≡ a + page_size * suc (suc n) = omega arith in
    rw e at (Pages-run_rest n (a + page_size) hi (a + page_size) rest ps)

pub Pages-run_end : (n lo hi a : ℕ) → Pages lo hi (run (suc n) a) → a + page_size * suc n ≤ hi
Pages-run_end zero lo hi a (p, al, ps) = omega arith
Pages-run_end (suc n) lo hi a (p, al, ps) =
    omega (arith, Pages-run_end n (a + page_size) hi (a + page_size) ps)

module _ {m : Mem} {pool : Pool} (a want : ℕ) (rest : List ℕ)
    (p : IsPool m pool (run (suc want) a ++ rest)) (enough : LongEnough a want rest) where
  abbrev stop : ℕ
  stop = a + page_size * suc want

  abbrev pub remaining : Pool
  remaining = record pool { free = head rest }

  Pages-rest : Pages stop pool.top rest
  Pages-rest = Pages-run_rest want pool.bottom pool.top a rest p.pages

  region_fits : (dram_base ≤ a) × (a % page_size ≡ 0) × (stop ≤ dram_end)
  region_fits =
      let r = first-InRange pool.bottom pool.top a (run want (a + page_size) ++ rest) p.pages in
      let l = p.low in
      let h = p.high in
      let s = Pages-le stop pool.top rest Pages-rest in (omega arith, r.aligned, omega arith)

  fuel : suc want < pool_fuel pool
  fuel =
      omega (arith, pool_fuel-lt p, length-append (run (suc want) a) rest, length-run (suc want) a)

  pub alloc_pages-done :
      (m' : Mem) × (alloc_pages pool a (suc want) m ≡ done (ok a, remaining) m')
      × IsPool m' remaining rest
      × IsZero m' a stop
      × Keeps m m' rest a stop
  unfolding alloc_pages
  alloc_pages-done =
      let (ram, al, hi) = region_fits in
      let c : IsPage a = omega arith in
      let (front, back) = Links-split m null (run (suc want) a) rest null p.links in
      let (m₁, unlinked, u) =
        unlink-done pool stop pool.top a (last null (run (suc want) a)) rest m c front.0
          (omega arith) p.high Pages-rest back in
      let (m₂, zeroed, zeros, same) =
        zero_region-done (pool_fuel pool) (suc want) a (a + page_size * want) stop m₁ fuel ram al
          refl (omega arith) hi in
      (
        m₂,
        rw
            (
              read_free-done a c m,
              p.links.0,
              p.links.1,
              sub-done (suc want) 1 m (omega arith),
              suc-sub-one want,
              find_region-done (pool_fuel pool) (pool_fuel pool) want a rest m ram al hi p.links
                  enough (omega (arith, fuel)) (omega (arith, fuel)),
              unlinked,
              zeroed,
            )
            refl,
        record {
          low = p.low;
          high = p.high;
          pages =
              Pages-weaken stop pool.bottom pool.top pool.top rest (omega (arith, p.pages.0))
                (omega arith) Pages-rest;
          links =
              Links-frame m₁ m₂ stop pool.top null rest null Pages-rest (λ q b d. same q (inr b))
                u.links;
          free = refl;
        },
        zeros,
        λ q b d e. same q d ∙ u.same q (ne-first q rest b e),
      )
