-- ===== src/Palloc/Region.antt =====
-- The loops of src/vm/palloc.rs over the adjacent pages of a region: `free_pages` zeroes them and
-- links them to one another, `alloc_pages` zeroes them.
use reedos.Common.{
  ℕ, zero, suc, ◌+◌, ◌*◌, ◌%◌, ◌≤◌, ◌<◌, ◌≡◌, refl, ◌≢◌, ◌⊎◌, none, some, arith, ltb-true,
  ltb-false, leb-true, leb-false,
}
use reedos.Machine.{Mem, done, update, page_size, dram_base, dram_end}
use reedos.Palloc.{link_region, link_page, zero_region}
use reedos.Palloc.Links.{Links, first, run}
use reedos.Palloc.Steps.{
  IsPage, SameOutside, IsZero, write_prev-done, write_next-done, add_page-done, zero_page-done,
}

-- What the loop leaves when the page `prev` was linked before the `n` pages from `curr` to `stop`.
record Linked (m m' : Mem) (prev curr n stop : ℕ) : Type 0 where
  links : Links m' prev (run n curr) 0
  link : m' (prev + 8) ≡ first (run n curr) (m (prev + 8))
  same : (q : ℕ) → (q < curr) ⊎ (stop ≤ q) → q ≢ prev + 8 → m' q ≡ m q

-- One round: the page `curr` is zeroed in `m₁` and linked behind `prev`, then the rest follows.
Linked-suc :
    (m m₁ m' : Mem) (prev curr n stop : ℕ)
    → prev + page_size ≤ curr
    → curr + page_size * suc n ≡ stop
    → IsZero m₁ curr (curr + page_size)
    → SameOutside m m₁ curr (curr + page_size)
    → curr % page_size ≡ 0
    → Linked (update (update m₁ curr prev) (prev + 8) curr) m' curr (curr + page_size) n stop
    → Linked m m' prev curr (suc n) stop
unfolding update
Linked-suc m m₁ m' prev curr n stop le e zeros same₁ al rest = record {
  links = (ground (arith, rest.same curr), ground (arith, rest.link, zeros (curr + 8)), rest.links);
  link = ground (arith, rest.same (prev + 8));
  same = λ q h ne. ground (arith, rest.same q, same₁ q);
}

link_region-Linked :
    (k n prev curr stop : ℕ) (m : Mem)
    → n < k
    → IsPage prev
    → prev + page_size ≤ curr
    → curr % page_size ≡ 0
    → curr + page_size * n ≡ stop
    → stop ≤ dram_end
    → (m' : Mem) × (link_region k stop (some prev) curr m ≡ done tt m')
      × Linked m m' prev curr n stop
unfolding link_region link_page
link_region-Linked zero n prev curr stop m fuel p le al e hi = absurd (omega arith)
link_region-Linked (suc k) zero prev curr stop m fuel p le al e hi = (
  m,
  rw (ltb-false curr stop (omega arith)) refl,
  record { links = tt; link = refl; same = λ q h ne. refl },
)
link_region-Linked (suc k) (suc n) prev curr stop m fuel p le al e hi =
    let c : IsPage curr = omega arith in
    let (m₁, zeroed, zeros, same₁) = zero_page-done curr c m in
    let m₂ = update m₁ curr prev in
    let m₃ = update m₂ (prev + 8) curr in
    let (m', ran, rest) =
      link_region-Linked k n curr (curr + page_size) stop m₃ (omega arith) c (omega arith)
        (omega arith) (omega arith) hi in
    (
      m',
      rw
          (
            ltb-true curr stop (omega arith),
            zeroed,
            add_page-done curr c m₁,
            write_prev-done curr c m₁ prev,
            write_next-done prev p m₂ curr,
          )
          ran,
      Linked-suc m m₁ m' prev curr n stop le e zeros same₁ al rest,
    )

-- The region linked from its first page on; the pointer behind its last page is left open.
pub record LinkedRegion (m m' : Mem) (page n stop : ℕ) : Type 0 where
  pub end : ℕ
  pub links : Links m' 0 (run n page) end
  pub same : SameOutside m m' page stop

Linked-first :
    (m m₁ m' : Mem) (page n stop : ℕ)
    → page + page_size * suc n ≡ stop
    → IsZero m₁ page (page + page_size)
    → SameOutside m m₁ page (page + page_size)
    → IsPage page
    → Linked (update m₁ (page + 8) (page + page_size)) m' page (page + page_size) n stop
    → LinkedRegion m m' page (suc n) stop
unfolding update
Linked-first m m₁ m' page n stop e zeros same₁ c rest = record {
  end = end n;
  links = (ground (arith, rest.same page, zeros page), link n rest, segment n rest);
  same = λ q h. ground (arith, rest.same q, same₁ q);
}
  where
    end : ℕ → ℕ
    end zero = page + page_size
    end (suc _) = 0

    m₂ : Mem
    m₂ = update m₁ (page + 8) (page + page_size)

    link :
        (k : ℕ)
        → Linked m₂ m' page (page + page_size) k stop
        → m' (page + 8) ≡ first (run k (page + page_size)) (end k)
    link zero r = ground (arith, r.link)
    link (suc k) r = r.link

    segment :
        (k : ℕ)
        → Linked m₂ m' page (page + page_size) k stop
        → Links m' page (run k (page + page_size)) (end k)
    segment zero r = tt
    segment (suc k) r = r.links

pub link_region_lem :
    (k n page stop : ℕ) (m : Mem)
    → suc n < k
    → IsPage page
    → page + page_size * suc n ≡ stop
    → stop ≤ dram_end
    → (m' : Mem) × (link_region k stop none page m ≡ done tt m')
      × LinkedRegion m m' page (suc n) stop
unfolding link_region link_page update
link_region_lem zero n page stop m fuel c e hi = absurd (omega arith)
link_region_lem (suc k) n page stop m fuel c e hi =
    let (m₁, zeroed, zeros, same₁) = zero_page-done page c m in
    let m₂ = update m₁ (page + 8) (page + page_size) in
    let (m', ran, rest) =
      link_region-Linked k n page (page + page_size) stop m₂ (omega arith) c (omega arith)
        (omega arith) (omega arith) hi in
    (
      m',
      rw
          (
            ltb-true page stop (omega arith),
            zeroed,
            add_page-done page c m₁,
            write_next-done page c m₁ (page + page_size),
          )
          ran,
      Linked-first m m₁ m' page n stop e zeros same₁ c rest,
    )

-- Every page from `cur` to the last one, `page`, is zeroed.
pub zero_region-done :
    (k n cur page stop : ℕ) (m : Mem)
    → n < k
    → dram_base ≤ cur
    → cur % page_size ≡ 0
    → cur + page_size * n ≡ stop
    → page + page_size ≡ stop
    → stop ≤ dram_end
    → (m' : Mem) × (zero_region k cur page m ≡ done tt m')
      × IsZero m' cur stop
      × SameOutside m m' cur stop
unfolding zero_region
zero_region-done zero n cur page stop m fuel lo al e f hi = absurd (omega arith)
zero_region-done (suc k) zero cur page stop m fuel lo al e f hi =
    (m, rw (leb-false cur page (omega arith)), λ q a b c. absurd (omega arith), λ q h. refl)
zero_region-done (suc k) (suc n) cur page stop m fuel lo al e f hi =
    let c : IsPage cur = omega arith in
    let (m₁, zeroed, zeros, same₁) = zero_page-done cur c m in
    let (m', ran, zeros', same') =
      zero_region-done k n (cur + page_size) page stop m₁ (omega arith) (omega arith) (omega arith)
        (omega arith) f hi in
    (
      m',
      rw (leb-true cur page (omega arith), zeroed, add_page-done cur c m₁) ran,
      (λ q a b d. ground (arith, zeros q, zeros' q, same' q)),
      λ q h. ground (arith, same' q, same₁ q),
    )
