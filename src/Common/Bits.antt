-- ===== src/Common/Bits.antt =====
-- `&` and `|` on words, field by field: what the masks of the kernel do to a word, as arithmetic.
use Prim.Native.Nat.{
  ℕ, zero, suc, ◌+◌, ◌-◌, ◌*◌, ◌/◌, ◌%◌, ◌^◌, ◌≤◌, ◌<◌, min, max, digits, bit_and, bit_or,
  bit_and-bitwise, bit_or-bitwise,
}
use mathlib.Core.Path.{◌≡◌, refl, ap, ◌∙◌}
use native.Mathlib.Nat.{pow-suc, one-le-pow, mod-lt, div-add-mod'}
use native.Mathlib.Omega.{arith}

-- Both operations consume their first argument digit by digit; more rounds than it has change
-- nothing.
module _ (rest : ℕ → ℕ) (digit : ℕ → ℕ → ℕ) where
  rounds-eq : (n k a b : ℕ) → a ≤ n → a ≤ k → digits rest digit n a b ≡ digits rest digit k a b
  rounds-eq zero zero a b p q = refl
  rounds-eq zero (suc k) zero b p q = refl
  rounds-eq (suc n) zero zero b p q = refl
  rounds-eq (suc n) (suc k) zero b p q = refl
  rounds-eq zero (suc k) (suc a) b p q = absurd (omega arith)
  rounds-eq (suc n) zero (suc a) b p q = absurd (omega arith)
  rounds-eq (suc n) (suc k) (suc a) b p q =
      ap (λ (t : ℕ). t * 2 + digit (suc a % 2) (b % 2))
        (rounds-eq n k (suc a / 2) (b / 2) (omega arith) (omega arith))

pub bit_and_digit : (a b : ℕ) → bit_and a b ≡ bit_and (a / 2) (b / 2) * 2 + min (a % 2) (b % 2)
bit_and_digit zero b = omega (arith, bit_and-bitwise 0 b, bit_and-bitwise 0 (b / 2))
bit_and_digit (suc a) b = omega (
  arith,
  bit_and-bitwise (suc a) b,
  bit_and-bitwise (suc a / 2) (b / 2),
  rounds-eq (λ _. 0) min a (suc a / 2) (suc a / 2) (b / 2) (omega arith) (omega arith),
)

pub bit_or_digit : (a b : ℕ) → bit_or a b ≡ bit_or (a / 2) (b / 2) * 2 + max (a % 2) (b % 2)
bit_or_digit zero b = omega (arith, bit_or-bitwise 0 b, bit_or-bitwise 0 (b / 2))
bit_or_digit (suc a) b = omega (
  arith,
  bit_or-bitwise (suc a) b,
  bit_or-bitwise (suc a / 2) (b / 2),
  rounds-eq (λ y. y) max a (suc a / 2) (suc a / 2) (b / 2) (omega arith) (omega arith),
)

-- Dropping the lowest bit leaves the field above where it is.
double : (q k : ℕ) → q * 2 ^ suc k ≡ 2 * (q * 2 ^ k)
double q k = omega (arith, ap (λ (t : ℕ). q * t) (pow-suc 2 k))

half-fields : (k q r : ℕ) → (q * 2 ^ suc k + r) / 2 ≡ q * 2 ^ k + r / 2
half-fields k q r = omega (arith, double q k)

parity-fields : (k q r : ℕ) → (q * 2 ^ suc k + r) % 2 ≡ r % 2
parity-fields k q r = omega (arith, double q k)

half-lt : (k r : ℕ) → r < 2 ^ suc k → r / 2 < 2 ^ k
half-lt k r h = omega (arith, pow-suc 2 k)

-- A field of `k` low bits and what stands above it are combined apart from one another.
pub bit_and_fields :
    (k q r q' r' : ℕ)
    → r < 2 ^ k
    → r' < 2 ^ k
    → bit_and (q * 2 ^ k + r) (q' * 2 ^ k + r') ≡ bit_and q q' * 2 ^ k + bit_and r r'
bit_and_fields zero q r q' r' h h' =
    let e : r ≡ 0 = omega arith in
    let e' : r' ≡ 0 = omega arith in
    let f : (q'' : ℕ) → q'' * 1 + 0 ≡ q'' = λ q''. omega arith in
    rw (e, e', f q, f q') (omega arith)
bit_and_fields (suc k) q r q' r' h h' =
    let ih = bit_and_fields k q (r / 2) q' (r' / 2) (half-lt k r h) (half-lt k r' h') in
    bit_and_digit (q * 2 ^ suc k + r) (q' * 2 ^ suc k + r')
    ∙ rw (half-fields k q r, half-fields k q' r', parity-fields k q r, parity-fields k q' r', ih)
        (omega (arith, double (bit_and q q') k, bit_and_digit r r'))

pub bit_or_fields :
    (k q r q' r' : ℕ)
    → r < 2 ^ k
    → r' < 2 ^ k
    → bit_or (q * 2 ^ k + r) (q' * 2 ^ k + r') ≡ bit_or q q' * 2 ^ k + bit_or r r'
bit_or_fields zero q r q' r' h h' =
    let e : r ≡ 0 = omega arith in
    let e' : r' ≡ 0 = omega arith in
    let f : (q'' : ℕ) → q'' * 1 + 0 ≡ q'' = λ q''. omega arith in
    rw (e, e', f q, f q') (omega arith)
bit_or_fields (suc k) q r q' r' h h' =
    let ih = bit_or_fields k q (r / 2) q' (r' / 2) (half-lt k r h) (half-lt k r' h') in
    bit_or_digit (q * 2 ^ suc k + r) (q' * 2 ^ suc k + r')
    ∙ rw (half-fields k q r, half-fields k q' r', parity-fields k q r, parity-fields k q' r', ih)
        (omega (arith, double (bit_or q q') k, bit_or_digit r r'))

zero-bit_and : (b : ℕ) → bit_and 0 b ≡ 0
zero-bit_and b = bit_and-bitwise 0 b

zero-bit_or : (b : ℕ) → bit_or 0 b ≡ b
zero-bit_or b = bit_or-bitwise 0 b

-- The laws of the masks, for a word below `2 ^ k`, by its lowest digit.
bit_and-zero_below : (k a : ℕ) → a < 2 ^ k → bit_and a 0 ≡ 0
bit_and-zero_below zero a h = let e : a ≡ 0 = omega arith in rw e (zero-bit_and 0)
bit_and-zero_below (suc k) a h =
    omega (arith, bit_and_digit a 0, bit_and-zero_below k (a / 2) (half-lt k a h))

bit_or-zero_below : (k a : ℕ) → a < 2 ^ k → bit_or a 0 ≡ a
bit_or-zero_below zero a h = let e : a ≡ 0 = omega arith in rw e (zero-bit_or 0)
bit_or-zero_below (suc k) a h =
    omega (arith, bit_or_digit a 0, bit_or-zero_below k (a / 2) (half-lt k a h))

bit_and_ones_below : (k a : ℕ) → a < 2 ^ k → bit_and a (2 ^ k - 1) ≡ a
bit_and_ones_below zero a h = let e : a ≡ 0 = omega arith in rw e (zero-bit_and (2 ^ 0 - 1))
bit_and_ones_below (suc k) a h =
    let p = one-le-pow k 2 (omega arith) in
    let half : (2 ^ suc k - 1) / 2 ≡ 2 ^ k - 1 = omega (arith, pow-suc 2 k) in
    let odd : (2 ^ suc k - 1) % 2 ≡ 1 = omega (arith, pow-suc 2 k) in
    bit_and_digit a (2 ^ suc k - 1)
    ∙ rw (half, odd, bit_and_ones_below k (a / 2) (half-lt k a h)) (omega arith)

lt-two_pow : (a : ℕ) → a < 2 ^ a
lt-two_pow zero = omega arith
lt-two_pow (suc a) = omega (arith, pow-suc 2 a, lt-two_pow a)

pub bit_and-zero : (a : ℕ) → bit_and a 0 ≡ 0
bit_and-zero a = bit_and-zero_below a a (lt-two_pow a)

pub bit_or-zero : (a : ℕ) → bit_or a 0 ≡ a
bit_or-zero a = bit_or-zero_below a a (lt-two_pow a)

bit_and-one : (a : ℕ) → bit_and a 1 ≡ a % 2
bit_and-one a = omega (arith, bit_and_digit a 1, bit_and-zero (a / 2))

bit_or-one : (a : ℕ) → bit_or a 1 ≡ a / 2 * 2 + 1
bit_or-one a = omega (arith, bit_or_digit a 1, bit_or-zero (a / 2))

module _ (k : ℕ) where
  split : (a : ℕ) → a / 2 ^ k * 2 ^ k + a % 2 ^ k ≡ a
  split a = div-add-mod' a (2 ^ k)

  mod-lt-pow : (a : ℕ) → a % 2 ^ k < 2 ^ k
  mod-lt-pow a = mod-lt a (one-le-pow k 2 (omega arith))

  ones-lt : 2 ^ k - 1 < 2 ^ k
  ones-lt = omega (arith, one-le-pow k 2 (omega arith))

  -- `a & (2 ^ k - 1)`
  pub bit_and_low : (a : ℕ) → bit_and a (2 ^ k - 1) ≡ a % 2 ^ k
  bit_and_low a =
      let f = bit_and_fields k (a / 2 ^ k) (a % 2 ^ k) 0 (2 ^ k - 1) (mod-lt-pow a) ones-lt in
      let z : 0 * 2 ^ k + (2 ^ k - 1) ≡ 2 ^ k - 1 = omega arith in
      rw (split a, z, bit_and-zero, bit_and_ones_below k (a % 2 ^ k) (mod-lt-pow a)) at f
      ∙ omega arith

  -- `a & !(2 ^ k - 1)`, in a word of `k + j` bits
  pub bit_and_high :
      (j a : ℕ) → a / 2 ^ k < 2 ^ j → bit_and a ((2 ^ j - 1) * 2 ^ k) ≡ a / 2 ^ k * 2 ^ k
  bit_and_high j a h =
      let f =
        bit_and_fields k (a / 2 ^ k) (a % 2 ^ k) (2 ^ j - 1) 0 (mod-lt-pow a)
          (one-le-pow k 2 (omega arith)) in
      let z : (2 ^ j - 1) * 2 ^ k + 0 ≡ (2 ^ j - 1) * 2 ^ k = omega arith in
      rw (split a, z, bit_and-zero, bit_and_ones_below j (a / 2 ^ k) h) at f ∙ omega arith

  -- `a & (1 << k)`
  pub bit_and_bit : (a : ℕ) → bit_and a (2 ^ k) ≡ a / 2 ^ k % 2 * 2 ^ k
  bit_and_bit a =
      let f =
        bit_and_fields k (a / 2 ^ k) (a % 2 ^ k) 1 0 (mod-lt-pow a)
          (one-le-pow k 2 (omega arith)) in
      let z : 1 * 2 ^ k + 0 ≡ 2 ^ k = omega arith in
      rw (split a, z, bit_and-zero, bit_and-one) at f ∙ omega arith

  -- `a | (1 << k)`
  pub bit_or_bit : (a : ℕ) → bit_or a (2 ^ k) ≡ (a / 2 ^ k / 2 * 2 + 1) * 2 ^ k + a % 2 ^ k
  bit_or_bit a =
      let f =
        bit_or_fields k (a / 2 ^ k) (a % 2 ^ k) 1 0 (mod-lt-pow a) (one-le-pow k 2 (omega arith)) in
      let z : 1 * 2 ^ k + 0 ≡ 2 ^ k = omega arith in rw (split a, z, bit_or-zero, bit_or-one) at f

  -- `a | r`, where `a` has no bit below `k` and `r` none from `k` on
  pub bit_or_low : (q r : ℕ) → r < 2 ^ k → bit_or (q * 2 ^ k) r ≡ q * 2 ^ k + r
  bit_or_low q r h =
      let f = bit_or_fields k q 0 0 r (one-le-pow k 2 (omega arith)) h in
      let z : q * 2 ^ k + 0 ≡ q * 2 ^ k = omega arith in
      let z' : 0 * 2 ^ k + r ≡ r = omega arith in rw (z, z', bit_or-zero q, zero-bit_or r) at f

-- `a & !(1 << k)`, in a word of `k + 1 + j` bits
pub bit_and_clear :
    (k j a : ℕ)
    → a / 2 ^ k / 2 < 2 ^ j
    → bit_and a ((2 ^ j - 1) * 2 * 2 ^ k + (2 ^ k - 1)) ≡ a / 2 ^ k / 2 * 2 * 2 ^ k + a % 2 ^ k
bit_and_clear k j a h =
    let f =
      bit_and_fields k (a / 2 ^ k) (a % 2 ^ k) ((2 ^ j - 1) * 2) (2 ^ k - 1) (mod-lt-pow k a)
        (ones-lt k) in
    rw
      (split k a, bit_and_high 1 j (a / 2 ^ k) h, bit_and_ones_below k (a % 2 ^ k) (mod-lt-pow k a))
      at f
