-- ===== src/Zone/Apart.antt =====
-- The block that `Zone::scan` of src/vm/vmalloc.rs hands out and the blocks of before.
use reedos.Common.{
  ℕ, ◌+◌, ◌≤◌, ◌≡◌, ◌⊎◌, inl, inr, true, List, [], ◌∷◌, arith, Bool-cases, Option, some, subst,
}
use reedos.Header.{header_size}
use reedos.Zone.Chunks.{Chunk, fits, both_free, joined, behind, first_fit}
use reedos.Zone.Owned.{Owned, Owned-lower, join-Owned, first_fit-gives, some_inj, none≢some}

-- Two blocks that have no byte in common.
abbrev pub Apart : (ptr size ptr' size' : ℕ) → Type 0
Apart ptr size ptr' size' = (ptr + size ≤ ptr') ⊎ (ptr' + size' ≤ ptr)

fits-Apart :
    (size at : ℕ) (c : Chunk) (cs : List Chunk) (ptr old : ℕ)
    → fits size c ≡ true
    → Owned at (c ∷ cs) ptr old
    → Apart ptr old (at + header_size) size
fits-Apart size at c cs ptr old e (inl (p, s, u)) = absurd (ground arith)
fits-Apart size at c cs ptr old e (inr o) =
    let lower = Owned-lower (at + header_size + c.size) cs ptr old o in
    let room : size ≤ c.size = ground arith in inr (omega arith)

behind-Apart :
    (size at out : ℕ) (c : Chunk) (fit : Option ℕ × List Chunk) (ds : List Chunk) (ptr old : ℕ)
    → (fit.0 ≡ some out → Owned (at + header_size + c.size) fit.1 out size)
    → (fit.0 ≡ some out → Owned (at + header_size + c.size) ds ptr old → Apart ptr old out size)
    → (behind c fit).0 ≡ some out
    → Owned at (c ∷ ds) ptr old
    → Apart ptr old out size
behind-Apart size at out c (o, cs) ds ptr old gives rest e (inl (p, s, u)) =
    inl (omega (arith, Owned-lower (at + header_size + c.size) cs out size (gives e)))
behind-Apart size at out c (o, cs) ds ptr old gives rest e (inr o') = rest e o'

-- First fit hands out no byte of a block that was handed out before.
pub first_fit-Apart :
    (size at : ℕ) (c : Chunk) (cs : List Chunk) (out ptr old : ℕ)
    → (first_fit size at c cs).0 ≡ some out
    → Owned at (c ∷ cs) ptr old
    → Apart ptr old out size
unfolding first_fit
first_fit-Apart size at c [] out ptr old found o = elim (Bool-cases (fits size c)) [
  | inl e ↦
      let p : at + header_size ≡ out = some_inj (rw e at found) in
      subst (λ q. Apart ptr old q size) p (fits-Apart size at c [] ptr old e o)
  | inr e ↦ absurd (none≢some (rw e at found))
]
first_fit-Apart size at c (d ∷ ds) out ptr old found o =
    let at' = at + header_size + c.size in
    elim (Bool-cases (fits size c)) [
      | inl e ↦
          let p : at + header_size ≡ out = some_inj (rw e at found) in
          subst (λ q. Apart ptr old q size) p (fits-Apart size at c (d ∷ ds) ptr old e o)
      | inr e ↦
          let found' = rw e at found in
          elim (Bool-cases (both_free c d)) [
            | inl f ↦
                first_fit-Apart size at (joined c d) ds out ptr old (rw f at found')
                  (join-Owned at c d ds ptr old f o)
            | inr f ↦
                behind-Apart size at out c (first_fit size at' d ds) (d ∷ ds) ptr old
                  (first_fit-gives size at' d ds out) (first_fit-Apart size at' d ds out ptr old)
                  (rw f at found') o
          ]
    ]
