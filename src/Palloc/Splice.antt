-- ===== src/Palloc/Splice.antt =====
-- `free_pages` of src/vm/palloc.rs links a region in between the free pages below and above it.
use reedos.Common.{
  ℕ, suc, ◌+◌, ◌*◌, ◌%◌, ◌≤◌, ◌≡◌, ◌≢◌, refl, ◌⊎◌, inl, inr, ◌∙◌, List, [], ◌∷◌, ◌++◌, arith,
}
use reedos.Machine.{Mem, page_size, dram_base, null}
use reedos.Palloc.Links.{
  Links, Pages, first, last, run, Links-append, Links-last, Links-retarget, Pages-run, Pages-le,
  first-InRange, last-InRange,
}
use reedos.Palloc.FreeList.{last-run}

-- A linked region of `n + 1` pages from `page` to `stop`, and the free pages on its two sides.
pub record Parts (m : Mem) (lo hi page n stop : ℕ) (pre post : List ℕ) : Type 0 where
  pub end : ℕ
  pub aligned : page % page_size ≡ 0
  pub size : page + page_size * suc n ≡ stop
  pub pre_pages : Pages lo page pre
  pub post_pages : Pages stop hi post
  pub pre_links : Links m null pre (first post null)
  pub region_links : Links m null (run (suc n) page) end
  pub post_links : Links m (last null pre) post null

abbrev pub Joined : Mem → ℕ → ℕ → List ℕ → List ℕ → Type 0
Joined m page n pre post = Links m null (pre ++ (run (suc n) page ++ post)) null

-- The pointers at the two seams, and no other word, have changed from `m` to `m'`.
pub record Seams (m m' : Mem) (page n : ℕ) (pre post : List ℕ) : Type 0 where
  pub before_start : m' page ≡ last null pre
  pub behind_end : m' (page + page_size * n + 8) ≡ first post null
  pub pre_next : pre ≢ [] → m' (last null pre + 8) ≡ page
  pub post_prev : post ≢ [] → m' (first post null) ≡ page + page_size * n
  pub same :
      (q : ℕ)
      → q ≢ page
      → q ≢ page + page_size * n + 8
      → q ≢ last null pre + 8
      → q ≢ first post null
      → m' q ≡ m q

-- Where the neighbours of the region are.
pub last-le :
    (lo hi : ℕ) (pre : List ℕ)
    → Pages lo hi pre
    → (last null pre ≡ null) ⊎ ((lo ≤ last null pre) × (last null pre + page_size ≤ hi))
last-le lo hi [] ps = inl refl
last-le lo hi (x ∷ pre) ps = let r = last-InRange lo hi x pre ps in inr (r.low, r.high)

pub first-le :
    (lo hi : ℕ) (post : List ℕ)
    → Pages lo hi post
    → (first post null ≡ null) ⊎ ((lo ≤ first post null) × (first post null + page_size ≤ hi))
first-le lo hi [] ps = inl refl
first-le lo hi (x ∷ post) ps = let r = first-InRange lo hi x post ps in inr (r.low, r.high)

module _ (m m' : Mem) (lo hi page n stop : ℕ) (pre post : List ℕ) (ram : dram_base ≤ lo)
    (p : Parts m lo hi page n stop pre post) (s : Seams m m' page n pre post) where
  region_linked : Links m' (last null pre) (run (suc n) page) (first post null)
  region_linked =
      Links-retarget m m' page (page + page_size * suc n) null (last null pre) page
        (run n (page + page_size)) p.end (first post null) (Pages-run (suc n) page p.aligned)
        p.region_links s.before_start (rw (last-run n page) s.behind_end)
        λ q a b c d.
          s.same q c (omega (arith, last-run n page))
            (omega (arith, last-le lo page pre p.pre_pages, Pages-le lo page pre p.pre_pages))
            (omega (arith, first-le stop hi post p.post_pages, Pages-le lo page pre p.pre_pages))

pre_linked :
    (m m' : Mem) (lo hi page n stop : ℕ) (pre post : List ℕ)
    → dram_base ≤ lo
    → Parts m lo hi page n stop pre post
    → Seams m m' page n pre post
    → Links m' null pre page
pre_linked m m' lo hi page n stop [] post ram p s = tt
pre_linked m m' lo hi page n stop (x ∷ pre) post ram p s =
    let r = first-InRange lo page x pre p.pre_pages in
    let r' = last-InRange lo page x pre p.pre_pages in
    let f = first-le stop hi post p.post_pages in
    let le : page + page_size * n ≤ stop = omega arith in
    Links-retarget m m' lo page null null x pre (first post null) page p.pre_pages p.pre_links
      (s.same x (omega arith) (omega arith) (omega arith) (omega arith) ∙ p.pre_links.0)
      (s.pre_next (cc)) λ q a b c d. s.same q (omega arith) (omega arith) d (omega arith)

post_linked :
    (m m' : Mem) (lo hi page n stop : ℕ) (pre post : List ℕ)
    → dram_base ≤ lo
    → Parts m lo hi page n stop pre post
    → Seams m m' page n pre post
    → Links m' (page + page_size * n) post null
post_linked m m' lo hi page n stop pre [] ram p s = tt
post_linked m m' lo hi page n stop pre (x ∷ post) ram p s =
    let r = first-InRange stop hi x post p.post_pages in
    let r' = last-InRange stop hi x post p.post_pages in
    let f = last-le lo page pre p.pre_pages in
    let lp = Pages-le lo page pre p.pre_pages in
    Links-retarget m m' stop hi (last null pre) (page + page_size * n) x post null null p.post_pages
      p.post_links (s.post_prev (cc))
      (s.same (last x post + 8) (omega arith) (omega arith) (omega arith) (omega arith)
        ∙ Links-last m (last null pre) x post null p.post_links)
      λ q a b c d. s.same q (omega arith) (omega arith) (omega arith) c

-- With its pointers joined, the region stands in the list between its neighbours.
pub Joined_lem :
    (m m' : Mem) (lo hi page n stop : ℕ) (pre post : List ℕ)
    → dram_base ≤ lo
    → Parts m lo hi page n stop pre post
    → Seams m m' page n pre post
    → Joined m' page n pre post
Joined_lem m m' lo hi page n stop pre post ram p s =
    Links-append m' null pre (run (suc n) page ++ post) null
      (pre_linked m m' lo hi page n stop pre post ram p s)
      (Links-append m' (last null pre) (run (suc n) page) post null
        (region_linked m m' lo hi page n stop pre post ram p s)
        (rw (last-run n page) (post_linked m m' lo hi page n stop pre post ram p s)))
