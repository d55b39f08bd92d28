-- ===== src/Palloc/FreePages.antt =====
-- `free_pages` of src/vm/palloc.rs against the list of free pages.
use reedos.Common.{
  ℕ, suc, ◌+◌, ◌*◌, ◌%◌, ◌≤◌, ◌≡◌, refl, inl, inr, ◌∙◌, List, ◌++◌, arith, ap, ==_gt,
}
use reedos.Machine.{Mem, done, page_size, null}
use native.Mathlib.Nat.{mul_comm}
use reedos.Machine.Laws.{add-done, sub-done, mul-done}
use reedos.Palloc.{Pool, free_pages, insert_region}
use reedos.Palloc.Links.{
  Links, Pages, first, last, run, Links-append, Links-split, Links-frame, Pages-append, Pages-run,
}
use reedos.Palloc.Steps.{IsPage}
use reedos.Palloc.Region.{LinkedRegion, link_region_lem}
use reedos.Palloc.FreeList.{
  IsPool, Apart, Keeps, before, behind, insert, head, before-append-behind, Pages-before,
  Pages-behind, Apart-before, Apart-behind, pool_fuel-lt, ne-last, ne-first, suc-sub-one,
}
use reedos.Palloc.Splice.{Parts, Seams, Joined_lem}
use reedos.Palloc.Free.{insert_region-Spliced}

-- A region that can come back to the pool: `n` pages inside its bounds, none of them free.
pub record IsRegion (pool : Pool) (xs : List ℕ) (page n : ℕ) : Type 0 where
  pub aligned : page % page_size ≡ 0
  pub low : pool.bottom ≤ page
  pub high : page + page_size * n ≤ pool.top
  pub apart : Apart page (page + page_size * n) xs

module _ {m : Mem} {pool : Pool} {xs : List ℕ} (p : IsPool m pool xs) (page n : ℕ)
    (r : IsRegion pool xs page (suc n)) where
  abbrev pub stop : ℕ
  stop = page + page_size * suc n

  Pages-before_page : Pages pool.bottom page (before page xs)
  Pages-before_page =
      Pages-before pool.bottom pool.top page stop xs r.low (omega arith) p.pages r.apart

  Pages-behind_page : Pages stop pool.top (behind page xs)
  Pages-behind_page =
      Pages-behind pool.bottom pool.top page stop xs r.high (omega arith) p.pages r.apart

  -- Once the region is linked to itself, it and the free pages on its two sides are three segments.
  Parts_lem :
      (m₁ : Mem)
      → LinkedRegion m m₁ page (suc n) stop
      → Parts m₁ pool.bottom pool.top page n stop (before page xs) (behind page xs)
  Parts_lem m₁ l =
      let (front, back) =
        Links-split m null (before page xs) (behind page xs) null
          (rw (before-append-behind page xs) p.links) in
      record {
        end = l.end;
        aligned = r.aligned;
        size = refl;
        pre_pages = Pages-before_page;
        post_pages = Pages-behind_page;
        pre_links =
            Links-frame m m₁ pool.bottom page null (before page xs) (first (behind page xs) null)
              Pages-before_page (λ q a b. l.same q (inl b)) front;
        region_links = l.links;
        post_links =
            Links-frame m m₁ stop pool.top (last null (before page xs)) (behind page xs) null
              Pages-behind_page (λ q a b. l.same q (inr a)) back;
      }

  Links-kept : (m₁ : Mem) → LinkedRegion m m₁ page (suc n) stop → Links m₁ null xs null
  Links-kept m₁ l =
      let parts = Parts_lem m₁ l in
      rw before-append-behind at (
        Links-append m₁ null (before page xs) (behind page xs) null parts.pre_links
          parts.post_links)

  abbrev pub inserted : Pool
  inserted = record pool { free = head (insert page (suc n) xs) }

  inserted-IsPool :
      (m₁ m₂ : Mem)
      → LinkedRegion m m₁ page (suc n) stop
      → Seams m₁ m₂ page n (before page xs) (behind page xs)
      → IsPool m₂ inserted (insert page (suc n) xs)
  inserted-IsPool m₁ m₂ l s = record {
    low = p.low;
    high = p.high;
    pages =
        Pages-append pool.bottom page pool.top (before page xs) (run (suc n) page ++ behind page xs)
          Pages-before_page
          (Pages-append page stop pool.top (run (suc n) page) (behind page xs)
            (Pages-run (suc n) page r.aligned) Pages-behind_page);
    links =
        Joined_lem m₁ m₂ pool.bottom pool.top page n stop (before page xs) (behind page xs) p.low
          (Parts_lem m₁ l) s;
    free = refl;
  }

  inserted-Keeps :
      (m₁ m₂ : Mem)
      → LinkedRegion m m₁ page (suc n) stop
      → Seams m₁ m₂ page n (before page xs) (behind page xs)
      → Keeps m m₂ xs page stop
  inserted-Keeps m₁ m₂ l s q ram out ap =
      s.same q (omega arith) (omega arith)
        (ne-last q (before page xs) ram (Apart-before page q (q + 1) xs ap))
        (ne-first q (behind page xs) ram (Apart-behind page q (q + 1) xs ap))
      ∙ l.same q out

  pub free_pages-done :
      (m' : Mem) × (free_pages pool page (suc n) m ≡ done inserted m')
      × IsPool m' inserted (insert page (suc n) xs)
      × Keeps m m' xs page stop
  unfolding free_pages
  free_pages-done =
      let pl = p.low in
      let ph = p.high in
      let c : IsPage page = omega (arith, r.low, r.high, r.aligned) in
      let e : page + 0x1000 * n + 0x1000 ≡ stop = omega arith in
      let (m₁, ran, l) =
        link_region_lem (suc n + 1) n page stop m (omega arith) c refl (omega (arith, r.high)) in
      let (m₂, ran₂, s) =
        insert_region-Spliced pool m₁ pool.bottom pool.top page n stop p.low p.high xs p.free
          p.pages (Links-kept m₁ l) r.apart (pool_fuel-lt p) (Parts_lem m₁ l) in
      (
        m₂,
        rw
            (
              ==_gt (suc n) 0 (omega arith),
              sub-done (suc n) 1 m (omega arith),
              suc-sub-one n,
              mul-done n 0x1000 m (omega (arith, r.high)),
              mul_comm n 0x1000,
              add-done page (0x1000 * n) m (omega (arith, r.high)),
              add-done (page + 0x1000 * n) 0x1000 m (omega (arith, r.high)),
              e,
              ran,
            )
            (ap (λ free. insert_region free pool page (page + page_size * n) m₁) p.free ∙ ran₂),
        inserted-IsPool m₁ m₂ l s,
        inserted-Keeps m₁ m₂ l s,
      )
