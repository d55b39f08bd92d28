-- ===== src/Palloc/Free.antt =====
-- `free_pages` of src/vm/palloc.rs puts a region into its place among the free pages.
use reedos.Common.{
  ℕ, zero, suc, ◌+◌, ◌*◌, ◌≤◌, ◌<◌, ◌≡◌, refl, inl, inr, ◌∙◌, List, [], ◌∷◌, ◌++◌, arith, length,
  ltb, Bool-cases, ltb-true, ltb-false, ==_gt, some, none, Option,
}
use reedos.Machine.{Mem, done, update, page_size, dram_base, dram_end, null}
use reedos.Machine.Laws.{update_self, update_ne}
use reedos.Palloc.{Pool, pool_fuel, find_location, insert_region}
use reedos.Palloc.Links.{Links, Pages, first, last, run, Pages-le, first-InRange, last-InRange}
use reedos.Palloc.Steps.{IsPage, read_free-done, write_prev-done, write_next-done}
use reedos.Palloc.FreeList.{Apart, before, behind, head}
use reedos.Palloc.Splice.{Parts, Seams}

-- The walk stops at the last free page below the region.
find_location-done :
    (k lo hi page region_end stop h : ℕ) (t : List ℕ) (m : Mem)
    → dram_base ≤ lo
    → hi ≤ dram_end
    → page ≤ region_end
    → region_end < stop
    → Pages lo hi t
    → Links m h t null
    → Apart page stop t
    → length t < k
    → find_location k region_end h (first t null) m
      ≡ done (last h (before page t), first (behind page t) null) m
unfolding find_location
find_location-done zero lo hi page e stop h t m ram top a b ps l ap fuel = absurd (omega arith)
find_location-done (suc k) lo hi page e stop h [] m ram top a b ps l ap fuel = refl
find_location-done (suc k) lo hi page e stop h (x ∷ t) m ram top a b (p, al, ps) (lp, ln, l)
      (ax, ap) fuel =
    elim (Bool-cases (ltb x page)) [
      | inl below ↦
          let le = Pages-le (x + page_size) hi t ps in
          let r : IsPage x = omega arith in
          rw
            (
              ==_gt x null (omega arith),
              ltb-true x e (ground arith),
              below,
              read_free-done x r m,
              ln,
            )
            (find_location-done k (x + page_size) hi page e stop x t m (omega arith) top a b ps l ap
              (omega arith))
      | inr above ↦ rw (==_gt x null (omega arith), ltb-false x e (ground arith), above) refl
    ]

-- What `insert_region` leaves of a pool whose region stands between `pre` and `post`.
abbrev pub Spliced : Option ℕ → Pool → Mem → (page n : ℕ) → List ℕ → List ℕ → Type 0
Spliced free pool m page n pre post =
    (m' : Mem) × (insert_region free pool page (page + page_size * n) m
      ≡ done (record pool { free = head (pre ++ (run (suc n) page ++ post)) }) m')
    × Seams m m' page n pre post

module _ (pool : Pool) (m : Mem) (lo hi page n stop : ℕ) (ram : dram_base ≤ lo)
    (top : hi ≤ dram_end) where
  insert_alone : Parts m lo hi page n stop [] [] → Spliced none pool m page n [] []
  unfolding insert_region update
  insert_alone p =
      let a : IsPage page = omega arith in
      let e : IsPage (page + page_size * n) = omega arith in
      let m₁ = update m page null in
      (
        update m₁ (page + page_size * n + 8) null,
        rw (write_prev-done page a m null, write_next-done (page + page_size * n) e m₁ null) refl,
        record {
          before_start = ground arith;
          behind_end = ground arith;
          pre_next = λ ne. absurd (ne refl);
          post_prev = λ ne. absurd (ne refl);
          same = λ q b c d f. ground arith;
        },
      )

  insert_front :
      (x : ℕ) (post : List ℕ)
      → Parts m lo hi page n stop [] (x ∷ post)
      → Spliced (some x) pool m page n [] (x ∷ post)
  unfolding insert_region update
  insert_front x post p =
      let r = first-InRange stop hi x post p.post_pages in
      let h : IsPage x = omega arith in
      let a : IsPage page = omega arith in
      let e : IsPage (page + page_size * n) = omega arith in
      let m₁ = update m x (page + page_size * n) in
      let m₂ = update m₁ (page + page_size * n + 8) x in
      (
        update m₂ page null,
        rw
            (
              ltb-true (page + page_size * n) x (omega arith),
              write_prev-done x h m (page + page_size * n),
              write_next-done (page + page_size * n) e m₁ x,
              write_prev-done page a m₂ null,
            )
            refl,
        record {
          before_start = ground arith;
          behind_end = ground arith;
          pre_next = λ ne. absurd (ne refl);
          post_prev = λ ne. ground arith;
          same = λ q b c d f. ground arith;
        },
      )

  module _ (h : ℕ) (pre : List ℕ) (free : pool.free ≡ some h) where
    -- The walk from the head of the list ended between `pre` and `post`.
    abbrev Located : List ℕ → Type 0
    Located post =
        find_location (pool_fuel pool) (page + page_size * n) h (m (h + 8)) m
        ≡ done (last h pre, first post null) m

    insert_end :
        Parts m lo hi page n stop (h ∷ pre) []
        → Located []
        → Spliced (some h) pool m page n (h ∷ pre) []
    unfolding insert_region update
    insert_end p found =
        let r = first-InRange lo page h pre p.pre_pages in
        let r' = last-InRange lo page h pre p.pre_pages in
        let c : IsPage h = omega arith in
        let l : IsPage (last h pre) = omega arith in
        let a : IsPage page = omega arith in
        let e : IsPage (page + page_size * n) = omega arith in
        let m₁ = update m (page + page_size * n + 8) null in
        let m₂ = update m₁ page (last h pre) in
        let m₃ = update m₂ (last h pre + 8) page in
        (
          m₃,
          rw
              (
                ltb-false (page + page_size * n) h (omega arith),
                read_free-done h c m,
                found,
                write_next-done (page + page_size * n) e m null,
                write_prev-done page a m₁ (last h pre),
                write_next-done (last h pre) l m₂ page,
              )
              (λ i. done (record pool { free = free i }) m₃),
          record {
            before_start =
                update_ne m₂ (last h pre + 8) page page (omega arith)
                ∙ update_self m₁ page (last h pre);
            behind_end =
                update_ne m₂ (last h pre + 8) (page + page_size * n + 8) page (omega arith)
                ∙ update_ne m₁ page (page + page_size * n + 8) (last h pre) (omega arith)
                ∙ update_self m (page + page_size * n + 8) null;
            pre_next = λ ne. update_self m₂ (last h pre + 8) page;
            post_prev = λ ne. absurd (ne refl);
            same = λ q b c d f.
                update_ne m₂ (last h pre + 8) q page d
                ∙ update_ne m₁ page q (last h pre) b
                ∙ update_ne m (page + page_size * n + 8) q null c;
          },
        )

    insert_between :
        (x : ℕ) (post : List ℕ)
        → Parts m lo hi page n stop (h ∷ pre) (x ∷ post)
        → Located (x ∷ post)
        → Spliced (some h) pool m page n (h ∷ pre) (x ∷ post)
    unfolding insert_region
    insert_between x post p found =
        let r = first-InRange lo page h pre p.pre_pages in
        let r' = last-InRange lo page h pre p.pre_pages in
        let s = first-InRange stop hi x post p.post_pages in
        let c : IsPage h = omega arith in
        let l : IsPage (last h pre) = omega arith in
        let a : IsPage page = omega arith in
        let b : IsPage x = omega arith in
        let e : IsPage (page + page_size * n) = omega arith in
        let m₁ = update m (last h pre + 8) page in
        let m₂ = update m₁ page (last h pre) in
        let m₃ = update m₂ (page + page_size * n + 8) x in
        let m₄ = update m₃ x (page + page_size * n) in
        (
          m₄,
          rw
              (
                ltb-false (page + page_size * n) h (omega arith),
                read_free-done h c m,
                found,
                ==_gt x null (omega arith),
                write_next-done (last h pre) l m page,
                write_prev-done page a m₁ (last h pre),
                write_next-done (page + page_size * n) e m₂ x,
                write_prev-done x b m₃ (page + page_size * n),
              )
              (λ i. done (record pool { free = free i }) m₄),
          record {
            before_start =
                update_ne m₃ x page (page + page_size * n) (omega arith)
                ∙ update_ne m₂ (page + page_size * n + 8) page x (omega arith)
                ∙ update_self m₁ page (last h pre);
            behind_end =
                update_ne m₃ x (page + page_size * n + 8) (page + page_size * n) (omega arith)
                ∙ update_self m₂ (page + page_size * n + 8) x;
            pre_next = λ ne.
                update_ne m₃ x (last h pre + 8) (page + page_size * n) (omega arith)
                ∙ update_ne m₂ (page + page_size * n + 8) (last h pre + 8) x (omega arith)
                ∙ update_ne m₁ page (last h pre + 8) (last h pre) (omega arith)
                ∙ update_self m (last h pre + 8) page;
            post_prev = λ ne. update_self m₃ x (page + page_size * n);
            same = λ q b c d f.
                update_ne m₃ x q (page + page_size * n) f
                ∙ update_ne m₂ (page + page_size * n + 8) q x c
                ∙ update_ne m₁ page q (last h pre) b
                ∙ update_ne m (last h pre + 8) q page d;
          },
        )

    insert_after :
        (post : List ℕ)
        → Parts m lo hi page n stop (h ∷ pre) post
        → Located post
        → Spliced (some h) pool m page n (h ∷ pre) post
    insert_after [] p found = insert_end p found
    insert_after (x ∷ post) p found = insert_between x post p found

  pub insert_region-Spliced :
      (xs : List ℕ)
      → pool.free ≡ head xs
      → Pages lo hi xs
      → Links m null xs null
      → Apart page stop xs
      → length xs < pool_fuel pool
      → Parts m lo hi page n stop (before page xs) (behind page xs)
      → Spliced (head xs) pool m page n (before page xs) (behind page xs)
  insert_region-Spliced [] free ps l ap fuel p = insert_alone p
  insert_region-Spliced (h ∷ t) free (lh, al, ps) (lp, ln, l) (ah, ap) fuel p =
      elim (Bool-cases (ltb h page)) [
        | inl below ↦ rw below (
            insert_after h (before page t) free (behind page t) (rw below at p) (
              rw ln (
                find_location-done (pool_fuel pool) (h + page_size) hi page (page + page_size * n)
                  stop h t m (omega arith) top (omega arith) (omega (arith, p.size)) ps l ap
                  (omega arith))))
        | inr above ↦ rw above (insert_front h t (rw above at p))
      ]
