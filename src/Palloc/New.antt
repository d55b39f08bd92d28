-- ===== src/Palloc/New.antt =====
-- `Pool::new` and `PagePool::new` of src/vm/palloc.rs: at first every page of the pool is free.

use reedos.Common.{
  ℕ, zero, suc, ◌+◌, ◌-◌, ◌*◌, ◌/◌, ◌%◌, ◌≤◌, ◌<◌, ◌≡◌, refl, ◌∙◌, arith, ==_true, ==_lt, ltb-true,
  ltb-false, some, inl, ◌==◌, if◌then◌else◌,
}
use reedos.Machine.{Mem, done, pure, add, update, page_size, dram_base, dram_end, null, Ensures}
use reedos.Machine.Laws.{sub-done, sub-eq, update_self, update_ne}
use reedos.Palloc.{Pool, new_loop, new_pool, new, write_free}
use reedos.Palloc.Links.{Links, run, first, Pages-run}
use reedos.Palloc.Steps.{
  IsPage, SameOutside, write_prev-done, write_next-done, zero_page-done, add_page-done,
}
use reedos.Palloc.FreeList.{IsPool}
use reedos.Palloc.Api.{is_multiple_page}

write_free-done :
    (page : ℕ) (c : IsPage page) (m : Mem) (prev next : ℕ)
    → write_free page prev next m ≡ done tt (update (update m page prev) (page + 8) next)
unfolding write_free
write_free-done page c m prev next =
    rw (write_prev-done page c m prev, write_next-done page c (update m page prev) next)

-- The pointer behind the page `pa`: to the next page, or null in the last one.
next_pa-done :
    (j pa top : ℕ) (m : Mem)
    → IsPage pa
    → pa + page_size * suc j ≡ top
    → (if pa == top - page_size then pure null else add pa page_size) m
      ≡ done (first (run j (pa + page_size)) null) m
next_pa-done zero pa top m d f = rw (==_true pa (top - page_size) (omega arith)) refl
next_pa-done (suc j) pa top m d f =
    rw (==_lt pa (top - page_size) (omega arith)) (add_page-done pa d m)

new_loop-Links :
    (k j prev pa top : ℕ) (m : Mem)
    → j < k
    → IsPage prev
    → prev + page_size ≡ pa
    → pa + page_size * j ≡ top
    → top ≤ dram_end
    → (m' : Mem) × (new_loop k page_size top (top - page_size) pa m ≡ done tt m')
      × Links m' prev (run j pa) null
      × SameOutside m m' pa top
unfolding new_loop
new_loop-Links zero j prev pa top m fuel c e f hi = absurd (omega arith)
new_loop-Links (suc k) zero prev pa top m fuel c e f hi =
    (m, rw (ltb-false pa top (omega arith)) refl, tt, λ q h. refl)
new_loop-Links (suc k) (suc j) prev pa top m fuel c e f hi =
    let d : IsPage pa = omega arith in
    let next : ℕ = first (run j (pa + page_size)) null in
    let (m₁, zeroed, zeros, same) = zero_page-done pa d m in
    let m₂ = update m₁ pa prev in
    let m₃ = update m₂ (pa + 8) next in
    let (m', ran, links, same') =
      new_loop-Links k j pa (pa + page_size) top m₃ (omega arith) d refl (omega arith) hi in
    (
      m',
      rw
          (
            ltb-true pa top (omega arith),
            sub-eq pa page_size prev m e,
            next_pa-done j pa top m d f,
            zeroed,
            write_free-done pa d m₁ prev next,
            add_page-done pa d m₃,
          )
          ran,
      (
        same' pa (inl (omega arith))
            ∙ update_ne m₂ (pa + 8) pa next (omega arith)
            ∙ update_self m₁ pa prev,
        same' (pa + 8) (inl (omega arith)) ∙ update_self m₂ (pa + 8) next,
        links,
      ),
      λ q h.
          same' q (omega arith)
          ∙ update_ne m₂ (pa + 8) q next (omega arith)
          ∙ update_ne m₁ pa q prev (omega arith)
          ∙ same q (omega arith),
    )

module _ (bottom n : ℕ) (m : Mem) (al : bottom % page_size ≡ 0) (lo : dram_base ≤ bottom) where
  abbrev top : ℕ
  top = bottom + page_size * suc n

  abbrev fresh : Pool
  fresh = record { free = some bottom; bottom = bottom; top = top }

  new_pool-done :
      top ≤ dram_end
      → (m' : Mem) × (new_pool bottom top page_size m ≡ done fresh m')
        × (m' bottom ≡ null)
        × (m' (bottom + 8) ≡ bottom + page_size)
        × Links m' bottom (run n (bottom + page_size)) null
        × SameOutside m m' bottom top
  unfolding new_pool
  new_pool-done hi =
      let d : IsPage bottom = omega arith in
      let pa : ℕ = bottom + page_size in
      let (m₁, zeroed, zeros, same) = zero_page-done bottom d m in
      let m₂ = update m₁ bottom null in
      let m₃ = update m₂ (bottom + 8) pa in
      let (m', ran, links, same') =
        new_loop-Links ((top - bottom) / page_size + 1) n bottom pa top m₃ (omega arith) d refl
          (omega arith) hi in
      (
        m',
        rw
            (
              zeroed,
              add_page-done bottom d m₁,
              write_free-done bottom d m₁ null pa,
              sub-done top page_size m₃ (omega arith),
              ran,
            )
            refl,
        same' bottom (inl (omega arith))
            ∙ update_ne m₂ (bottom + 8) bottom pa (omega arith)
            ∙ update_self m₁ bottom null,
        same' (bottom + 8) (inl (omega arith)) ∙ update_self m₂ (bottom + 8) pa,
        links,
        λ q h.
            same' q (omega arith)
            ∙ update_ne m₂ (bottom + 8) q pa (omega arith)
            ∙ update_ne m₁ bottom q null (omega arith)
            ∙ same q (omega arith),
      )

-- `PagePool::new` on page aligned bounds inside RAM with two or more pages between them builds a
-- pool in which all these pages are free, in order; memory outside the bounds stays as it was.
pub new-run :
    (bottom n : ℕ) (m : Mem)
    → bottom % page_size ≡ 0
    → dram_base ≤ bottom
    → bottom + page_size * n ≤ dram_end
    → 1 < n
    → Ensures
        (λ pool m'.
          IsPool m' pool (run n bottom) × SameOutside m m' bottom (bottom + page_size * n))
        (new bottom (bottom + page_size * n) m)
unfolding new
new-run bottom zero m al lo hi more = absurd (omega arith)
new-run bottom (suc zero) m al lo hi more = absurd (omega arith)
new-run bottom (suc (suc n)) m al lo hi more =
    let (m', ran, prev, next, links, same) = new_pool-done bottom (suc n) m al lo hi in
    rw
      (
        is_multiple_page bottom al,
        is_multiple_page (bottom + page_size * suc (suc n)) (omega arith),
        ran,
      )
      (
        record {
          low = lo;
          high = hi;
          pages = Pages-run (suc (suc n)) bottom al;
          links = (prev, next, links);
          free = refl;
        },
        same,
      )

-- `PagePool::new` on one page of RAM builds a pool with that page free, whose next pointer is the
-- end of the pool and not null.
pub new-one_page :
    (bottom : ℕ) (m : Mem)
    → bottom % page_size ≡ 0
    → dram_base ≤ bottom
    → bottom + page_size ≤ dram_end
    → Ensures
        (λ pool m'. (pool.free ≡ some bottom) × (m' (bottom + 8) ≡ pool.top))
        (new bottom (bottom + page_size) m)
unfolding new
new-one_page bottom m al lo hi =
    let (m', ran, prev, next, links, same) = new_pool-done bottom 0 m al lo hi in
    rw (is_multiple_page bottom al, is_multiple_page (bottom + page_size) (omega arith), ran)
      (refl, next)
