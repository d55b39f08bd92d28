-- ===== src/Zone/Owned.antt =====
-- The blocks that a zone of src/vm/vmalloc.rs has handed out, under first fit.
use reedos.Common.{
  ℕ, ◌+◌, ◌-◌, ◌%◌, ◌<◌, ◌≤◌, false, ◌≡◌, ◌≢◌, refl, subst, ◌⊎◌, inl, inr, true, List, [], ◌∷◌,
  arith, ◌==◌, Bool-cases, Option, none, some,
}
use reedos.Machine.{Mem}
use reedos.Header.{header_size}
use reedos.Zone.Chunks.{Chunk, fits, both_free, joined, carve, behind, first_fit}

-- A chunk in use of `size` bytes has its data at `ptr`, in the chunks from `at` on.
abbrev pub Owned : ℕ → List Chunk → ℕ → ℕ → Type 0
Owned at [] ptr size = ⊥
Owned at (c ∷ cs) ptr size =
    ((ptr ≡ at + header_size) × (size ≡ c.size) × (c.used ≡ true))
    ⊎ Owned (at + header_size + c.size) cs ptr size

pub Owned-lower : (at : ℕ) (cs : List Chunk) (ptr size : ℕ) → Owned at cs ptr size → at + 8 ≤ ptr
Owned-lower at [] ptr size o = absurd o
Owned-lower at (c ∷ cs) ptr size (inl (p, s, u)) = omega arith
Owned-lower at (c ∷ cs) ptr size (inr o) =
    omega (arith, Owned-lower (at + header_size + c.size) cs ptr size o)

pub Owned-behind :
    (at total : ℕ) (cs : List Chunk) (ptr size : ℕ)
    → Owned at (record { size = total; used = false } ∷ cs) ptr size
    → Owned (at + header_size + total) cs ptr size
Owned-behind at total cs ptr size (inl (p, s, u)) = absurd cc
Owned-behind at total cs ptr size (inr o) = o

-- The blocks in use have the data that they had.
abbrev pub SameBlocks : Mem → Mem → ℕ → List Chunk → Type 0
SameBlocks m m' at cs =
    (ptr size q : ℕ) → Owned at cs ptr size → ptr ≤ q → q < ptr + size → m' q ≡ m q

abbrev pub Aligned : List Chunk → Type 0
Aligned [] = Unit
Aligned (c ∷ cs) = (c.size % 8 ≡ 0) × Aligned cs

pub some_inj : {a b : ℕ} → some a ≡ some b → a ≡ b
some_inj e = cc

pub none≢some : {a : ℕ} → none ≢ some a
none≢some e = cc

room :
    (at total size : ℕ)
    → size % 8 ≡ 0
    → total % 8 ≡ 0
    → size ≤ total
    → total ≢ size
    → at + header_size + total
      ≡ at + header_size + size + header_size + (total - size - header_size)
room at total size a b le ne = omega arith

carve-keeps :
    (size at : ℕ) (c : Chunk) (cs : List Chunk) (ptr old : ℕ)
    → size % 8 ≡ 0
    → c.size % 8 ≡ 0
    → fits size c ≡ true
    → Owned at (c ∷ cs) ptr old
    → Owned at (carve size c cs) ptr old
carve-keeps size at c cs ptr old al ac e (inl (p, s, u)) = absurd (ground arith)
carve-keeps size at c cs ptr old al ac e (inr o) = elim (Bool-cases (c.size == size)) [
  | inl w ↦ rw w (inr (subst (λ n. Owned (at + header_size + n) cs ptr old) (ground arith) o))
  | inr w ↦
      let q : at + header_size + c.size
          ≡ at + header_size + size + header_size + (c.size - size - header_size) =
        room at c.size size al ac (ground arith) (ground arith) in
      rw w (inr (inr (subst (λ n. Owned n cs ptr old) q o)))
]

pub join-Owned :
    (at : ℕ) (c d : Chunk) (ds : List Chunk) (ptr old : ℕ)
    → both_free c d ≡ true
    → Owned at (c ∷ d ∷ ds) ptr old
    → Owned at (joined c d ∷ ds) ptr old
join-Owned at c d ds ptr old f (inl (p, s, u)) = absurd (ground arith)
join-Owned at c d ds ptr old f (inr (inl (p, s, u))) = absurd (ground arith)
join-Owned at c d ds ptr old f (inr (inr o)) = inr (subst (λ n. Owned n ds ptr old) (omega arith) o)

behind-Owned :
    (at : ℕ) (c : Chunk) (fit : Option ℕ × List Chunk) (ds : List Chunk) (ptr old : ℕ)
    → (Owned (at + header_size + c.size) ds ptr old
        → Owned (at + header_size + c.size) fit.1 ptr old)
    → Owned at (c ∷ ds) ptr old
    → Owned at (behind c fit).1 ptr old
behind-Owned at c (o, cs) ds ptr old keeps (inl x) = inl x
behind-Owned at c (o, cs) ds ptr old keeps (inr x) = inr (keeps x)

-- First fit for a multiple of 8, on chunks with such sizes, keeps every block that was handed out
-- before: a chunk in use stays where it is, with its size and in use.
pub first_fit-keeps :
    (size at : ℕ) (c : Chunk) (cs : List Chunk) (ptr old : ℕ)
    → size % 8 ≡ 0
    → Aligned (c ∷ cs)
    → Owned at (c ∷ cs) ptr old
    → Owned at (first_fit size at c cs).1 ptr old
unfolding first_fit
first_fit-keeps size at c [] ptr old al (ac, acs) o = elim (Bool-cases (fits size c)) [
  | inl e ↦ rw e (carve-keeps size at c [] ptr old al ac e o)
  | inr e ↦ rw e o
]
first_fit-keeps size at c (d ∷ ds) ptr old al (ac, (ad, acs)) o =
    let at' = at + header_size + c.size in
    elim (Bool-cases (fits size c)) [
      | inl e ↦ rw e (carve-keeps size at c (d ∷ ds) ptr old al ac e o)
      | inr e ↦ elim (Bool-cases (both_free c d)) [
        | inl f ↦
            rw (e, f)
              (first_fit-keeps size at (joined c d) ds ptr old al (omega arith, acs)
                (join-Owned at c d ds ptr old f o))
        | inr f ↦
            rw (e, f)
              (behind-Owned at c (first_fit size at' d ds) (d ∷ ds) ptr old
                (first_fit-keeps size at' d ds ptr old al (ad, acs)) o)
      ]
    ]

carve-Owned :
    (size at : ℕ) (c : Chunk) (cs : List Chunk) → Owned at (carve size c cs) (at + header_size) size
carve-Owned size at c cs = elim (Bool-cases (c.size == size)) [
  | inl w ↦ rw w (inl (refl, refl, refl))
  | inr w ↦ rw w (inl (refl, refl, refl))
]

behind_found :
    (size at ptr : ℕ) (c : Chunk) (fit : Option ℕ × List Chunk)
    → (fit.0 ≡ some ptr → Owned (at + header_size + c.size) fit.1 ptr size)
    → (behind c fit).0 ≡ some ptr
    → Owned at (behind c fit).1 ptr size
behind_found size at ptr c (o, cs) gives e = inr (gives e)

-- The address that first fit returns is the data of a chunk in use of the size asked for, in the
-- list that it leaves.
pub first_fit-gives :
    (size at : ℕ) (c : Chunk) (cs : List Chunk) (ptr : ℕ)
    → (first_fit size at c cs).0 ≡ some ptr
    → Owned at (first_fit size at c cs).1 ptr size
unfolding first_fit
first_fit-gives size at c [] ptr found = elim (Bool-cases (fits size c)) [
  | inl e ↦
      let p : at + header_size ≡ ptr = some_inj (rw e at found) in
      rw e (subst (λ q. Owned at (carve size c []) q size) p (carve-Owned size at c []))
  | inr e ↦ absurd (none≢some (rw e at found))
]
first_fit-gives size at c (d ∷ ds) ptr found =
    let at' = at + header_size + c.size in
    elim (Bool-cases (fits size c)) [
      | inl e ↦
          let p : at + header_size ≡ ptr = some_inj (rw e at found) in
          rw e (
            subst (λ q. Owned at (carve size c (d ∷ ds)) q size) p (carve-Owned size at c (d ∷ ds)))
      | inr e ↦
          let found' = rw e at found in
          elim (Bool-cases (both_free c d)) [
            | inl f ↦ rw (e, f) (first_fit-gives size at (joined c d) ds ptr (rw f at found'))
            | inr f ↦
                rw (e, f)
                  (behind_found size at ptr c (first_fit size at' d ds)
                    (first_fit-gives size at' d ds ptr) (rw f at found'))
          ]
    ]
