-- ===== src/Galloc/Bytes.antt =====
-- The bytes of memory, for the blocks that src/vm/global.rs clears and copies.
use native.Mathlib.Nat.{div-div-eq-div-mul, div-add-mod', one-le-pow, zero-mod}
use native.Mathlib.Numerals.{towards_suc}
use native.Mathlib.Decide.{ℕ_discrete}
use reedos.Common.{
  ℕ, zero, suc, ◌+◌, ◌*◌, ◌/◌, ◌%◌, ◌^◌, ◌<◌, ◌≤◌, ◌≡◌, refl, sym, ap, ◌∙◌, Bool, true, false, ◌&&◌,
  ltb, leb, ◌==◌, arith, Bool-cases, inl, inr, ◌⊎◌, if◌then◌else◌, ltb-true, ltb-false, ==_true,
  ==_ne,
}
use reedos.Machine.{Mem, update}
use reedos.Galloc.{low_bytes, high_bytes}

-- The byte `i` of a word, the lowest first.
pub byte_of : ℕ → ℕ → ℕ
byte_of zero word = word % 256
byte_of (suc i) word = byte_of i (word / 256)

-- The byte of memory at any address.
unfoldable pub byte : Mem → ℕ → ℕ
unfolding byte_of
byte m q = byte_of (q % 8) (m (q / 8 * 8))

pub byte_of-zero : (i : ℕ) → byte_of i 0 ≡ 0
unfolding byte_of
byte_of-zero zero = refl
byte_of-zero (suc i) = byte_of-zero i

abbrev pub mixed : (n to from : ℕ) → ℕ
mixed n to from = high_bytes n to + low_bytes n from

mixed-suc :
    (p to from : ℕ)
    → 0 < p
    → to / (256 * p) * (256 * p) + from % (256 * p)
      ≡ 256 * (to / 256 / p * p + from / 256 % p) + from % 256
mixed-suc p to from pos = rw (div-div-eq-div-mul to 256 p) (
    omega (
      arith,
      div-add-mod' from (256 * p),
      div-add-mod' (from / 256) p,
      ap (λ t. t * p) (div-div-eq-div-mul from 256 p),
    ))

pow-bytes : (n : ℕ) → 2 ^ (8 * suc n) ≡ 256 * 2 ^ (8 * n)
pow-bytes n = let e : 8 * suc n ≡ 8 * n + 8 = omega arith in rw e (simp towards_suc (omega arith))

mixed-step :
    (n to from : ℕ) → mixed (suc n) to from ≡ 256 * mixed n (to / 256) (from / 256) + from % 256
mixed-step n to from =
    rw (pow-bytes n) (mixed-suc (2 ^ (8 * n)) to from (one-le-pow (8 * n) 2 (omega arith)))

mixed-zero : (to from : ℕ) → mixed 0 to from ≡ to
mixed-zero to from = omega arith

pub mixed-zero_bytes : (n to : ℕ) → mixed n to 0 ≡ high_bytes n to
mixed-zero_bytes n to =
    let none_left : 0 % 2 ^ (8 * n) ≡ 0 = zero-mod (2 ^ (8 * n)) in rw none_left (omega arith)

ltb-suc : (i n : ℕ) → ltb (suc i) (suc n) ≡ ltb i n
ltb-suc i n = ground arith

-- Below `n` the bytes are those of `from`, and the others those of `to`.
byte_of-mixed :
    (n i to from : ℕ)
    → byte_of i (mixed n to from) ≡ (if ltb i n then byte_of i from else byte_of i to)
unfolding byte_of
byte_of-mixed zero i to from = rw (mixed-zero to from, ltb-false i 0 (omega arith)) refl
byte_of-mixed (suc n) zero to from =
    rw (ltb-true 0 (suc n) (omega arith), mixed-step n to from) (omega arith)
byte_of-mixed (suc n) (suc i) to from =
    let rest : (256 * mixed n (to / 256) (from / 256) + from % 256) / 256
        ≡ mixed n (to / 256) (from / 256) =
      omega arith in
    rw (mixed-step n to from, rest, ltb-suc i n) (byte_of-mixed n i (to / 256) (from / 256))

-- The bytes of memory after one word is written.
pub byte-update :
    (m : Mem) (p v q : ℕ)
    → p % 8 ≡ 0
    → byte (update m p v) q ≡ (if q / 8 * 8 == p then byte_of (q % 8) v else byte m q)
unfolding byte update
byte-update m p v q al = elim (Bool-cases (q / 8 * 8 == p)) [
  | inl e ↦ rw e refl
  | inr e ↦ rw e refl
]

abbrev pub within : (p n q : ℕ) → Bool
within p n q = leb p q && ltb q (p + n)

pub within-true : (p n q : ℕ) → p ≤ q → q < p + n → within p n q ≡ true
within-true p n q l h = ground arith

within-false : (p n q : ℕ) → (q < p) ⊎ (p + n ≤ q) → within p n q ≡ false
within-false p n q h = ground arith

-- The `n` bytes from `p` on are those of `f`, and no others have changed.
abbrev pub Writes : Mem → Mem → (p n : ℕ) → (ℕ → ℕ) → Type 0
Writes m m' p n f = (q : ℕ) → byte m' q ≡ (if within p n q then f q else byte m q)

places :
    (p n q : ℕ)
    → ((q < p) ⊎ (p + (8 + n) ≤ q)) ⊎ (((p ≤ q) × (q < p + 8)) ⊎ ((p + 8 ≤ q) × (q < p + (8 + n))))
places p n q = omega arith

-- One word, and the bytes behind it.
pub Writes-word :
    (m m' : Mem) (p n v : ℕ) (f g : ℕ → ℕ)
    → p % 8 ≡ 0
    → ((q : ℕ) → q / 8 * 8 ≡ p → byte_of (q % 8) v ≡ f q)
    → ((q : ℕ) → p + 8 ≤ q → q < p + (8 + n) → g q ≡ f q)
    → Writes (update m p v) m' (p + 8) n g
    → Writes m m' p (8 + n) f
Writes-word m m' p n v f g al word behind writes q = elim (places p n q) [
  | inl out ↦
      writes q
      ∙ rw (within-false (p + 8) n q (omega arith), within-false p (8 + n) q out)
          (byte-update m p v q al ∙ rw (==_ne (q / 8 * 8) p (omega arith)) refl)
  | inr (inl (l, h)) ↦
      writes q
      ∙ rw (within-false (p + 8) n q (omega arith), within-true p (8 + n) q l (omega arith))
          (byte-update m p v q al ∙ rw (==_true (q / 8 * 8) p (omega arith)) (word q (omega arith)))
  | inr (inr (l, h)) ↦
      writes q
      ∙ rw (within-true (p + 8) n q l (omega arith), within-true p (8 + n) q (omega arith) h)
          (behind q l h)
]

pub byte-own : (m : Mem) (p q : ℕ) → q / 8 * 8 ≡ p → byte_of (q % 8) (m p) ≡ byte m q
unfolding byte
byte-own m p q e = ap (λ x. byte_of (q % 8) (m x)) (sym e)

-- The first `n` bytes of a word.
pub Writes-last :
    (m : Mem) (p n from : ℕ) (f : ℕ → ℕ)
    → p % 8 ≡ 0
    → n < 8
    → ((q : ℕ) → p ≤ q → q < p + n → byte_of (q % 8) from ≡ f q)
    → Writes m (update m p (mixed n (m p) from)) p n f
Writes-last m p n from f al small word q =
    byte-update m p (mixed n (m p) from) q al ∙ elim (ℕ_discrete (q / 8 * 8) p) [
      | no e ↦ rw (==_ne (q / 8 * 8) p e, within-false p n q (omega arith)) refl
      | yes e ↦
          rw (==_true (q / 8 * 8) p e, byte_of-mixed n (q % 8) (m p) from)
            (elim (Bool-cases (ltb (q % 8) n)) [
              | inl h ↦
                  rw (h, within-true p n q (omega arith) (ground arith))
                    (word q (omega arith) (ground arith))
              | inr h ↦ rw (h, within-false p n q (ground arith)) (byte-own m p q e)
            ])
    ]

pub Writes-none : (m : Mem) (p : ℕ) (f : ℕ → ℕ) → Writes m m p 0 f
Writes-none m p f q = rw (within-false p 0 q (omega arith)) refl
