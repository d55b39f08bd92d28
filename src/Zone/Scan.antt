-- ===== src/Zone/Scan.antt =====
-- `Zone::scan` of src/vm/vmalloc.rs is first fit over the chunks of the zone.
use reedos.Common.{
  ℕ, zero, suc, ◌+◌, ◌%◌, ◌≤◌, ◌<◌, ◌≡◌, ◌≢◌, true, ◌∙◌, ap, ◌⊎◌, inl, inr, List, [], ◌∷◌, arith,
  Bool-cases, Option, length,
}
use reedos.Machine.{Mem, page_size, usize_top}
use reedos.Palloc.Steps.{IsPage}
use reedos.Header.{header_size}
use reedos.Zone.{Zone}
use reedos.Zone.Chunks.{Chunk, fits, both_free, joined, behind, first_fit}
use reedos.Zone.Owned.{SameBlocks, join-Owned}
use reedos.Zone.Rounds.{
  counted, Scanned, Guarded, guarded, At, Ends, found, exhausted, joins, skips,
}

module _ (size : ℕ) (z : Zone) (page : IsPage z.base) (sal : size % 8 ≡ 0) (pos : 0 < size)
    (few : z.next % page_size < 510) (small : z.next < usize_top) where
  abbrev end : ℕ
  end = z.base + page_size

  join-Scanned :
      (m m₁ m₂ : Mem) (z' : Zone) (at : ℕ) (c d : Chunk) (ds : List Chunk)
      (fit : Option ℕ × List Chunk)
      → ((q : ℕ) → (q < at) ⊎ (end ≤ q) → m₁ q ≡ m q)
      → SameBlocks m m₁ at (c ∷ d ∷ ds)
      → both_free c d ≡ true
      → z.base < at
      → Scanned m₁ m₂ z z' at end (joined c d ∷ ds) fit
      → Scanned m m₂ z z' at end (c ∷ d ∷ ds) fit
  join-Scanned m m₁ m₂ z' at c d ds fit kept blocks f low s = record {
    chunks = s.chunks;
    zone = s.zone;
    refs = s.refs ∙ ap (counted fit.0) (kept z.base (inl low));
    same = λ q x y. s.same q x y ∙ kept q y;
    blocks = λ ptr old q o l h.
        s.blocks ptr old q (join-Owned at c d ds ptr old f o) l h ∙ blocks ptr old q o l h;
  }

  skip-SameBlocks :
      (m m' : Mem) (at : ℕ) (c : Chunk) (rest : List Chunk)
      → z.base < at
      → ((q : ℕ) → q ≢ z.base → (q < at + header_size + c.size) ⊎ (end ≤ q) → m' q ≡ m q)
      → SameBlocks m m' (at + header_size + c.size) rest
      → SameBlocks m m' at (c ∷ rest)
  skip-SameBlocks m m' at c rest low same blocks ptr old q (inl (p, s, u)) l h =
      same q (omega arith) (inl (omega arith))
  skip-SameBlocks m m' at c rest low same blocks ptr old q (inr o) l h = blocks ptr old q o l h

  skip-Scanned :
      (m m' : Mem) (z' : Zone) (at : ℕ) (c : Chunk) (rest : List Chunk)
      (fit : Option ℕ × List Chunk)
      → At size z page sal pos few small m at c rest
      → Scanned m m' z z' (at + header_size + c.size) end rest fit
      → Scanned m m' z z' at end (c ∷ rest) (behind c fit)
  skip-Scanned m m' z' at c rest (found_at, cs) a s = record {
    chunks = (s.same at (omega (arith, a.low)) (inl (omega arith)) ∙ a.here, a.sized, s.chunks);
    zone = s.zone;
    refs = s.refs;
    same = λ q x y. s.same q x (omega arith);
    blocks = skip-SameBlocks m m' at c rest (omega (arith, a.low)) s.same s.blocks;
  }

  -- From the chunk `c` on, the loop is first fit.
  pub first_fit-Ends :
      (k : ℕ) (m : Mem) (at : ℕ) (c : Chunk) (rest : List Chunk)
      → At size z page sal pos few small m at c rest
      → length rest + 2 ≤ k
      → Guarded m end (first_fit size at c rest).0
      → Ends size z page sal pos few small k m at c rest (first_fit size at c rest)
  unfolding first_fit
  first_fit-Ends zero m at c rest a l g = absurd (omega arith)
  first_fit-Ends (suc zero) m at c rest a l g = absurd (omega arith)
  first_fit-Ends (suc (suc k)) m at c [] a l g = elim (Bool-cases (fits size c)) [
    | inl e ↦ rw e (found size z page sal pos few small (suc k) m at c.size c.used [] a e)
    | inr e ↦ rw e (exhausted size z page sal pos few small k m at c a e (rw e at g))
  ]
  first_fit-Ends (suc k) m at c (d ∷ ds) a l g = elim (Bool-cases (fits size c)) [
    | inl e ↦ rw e (found size z page sal pos few small k m at c.size c.used (d ∷ ds) a e)
    | inr e ↦
        let g' = rw e at g in
        elim (Bool-cases (both_free c d)) [
          | inl f ↦
              let (m₁, ran, a', kept, blocks) =
                joins size z page sal pos few small k m at c.size d.size c.used d.used ds a e f in
              let g₁ =
                guarded m m₁ end (first_fit size at (joined c d) ds).0
                  (kept end (inr (omega arith))) (rw f at g') in
              let (z', m₂, ran', s) = first_fit-Ends k m₁ at (joined c d) ds a' (omega arith) g₁ in
              rw (e, f)
                (
                  z',
                  m₂,
                  ran ∙ ran',
                  join-Scanned m m₁ m₂ z' at c d ds (first_fit size at (joined c d) ds) kept blocks
                      f (omega (arith, a.low)) s,
                )
          | inr f ↦
              let (ran, a') = skips size z page sal pos few small k m at c d ds a e f in
              let (z', m₂, ran', s) =
                first_fit-Ends k m (at + header_size + c.size) d ds a' (omega arith) (rw f at g') in
              rw (e, f)
                (
                  z',
                  m₂,
                  ran ∙ ran',
                  skip-Scanned m m₂ z' at c (d ∷ ds)
                      (first_fit size (at + header_size + c.size) d ds) a s,
                )
        ]
  ]
