-- ===== src/Machine.antt =====
-- Physical memory as the kernel sees it through raw pointers (src/hw/param.rs, kernel.ld), and runs
-- of kernel code over it. A pointer is its address. An access that is not to an aligned word of the
-- RAM that kernel.ld declares is a fault; `panic!`, a failed `assert!` and an overflow of `usize`
-- arithmetic, which the dev profile checks, are a panic.
pub mod Laws
pub mod Ends
use reedos.Common.{
  ℕ, zero, suc, ◌+◌, ◌-◌, ◌*◌, ◌%◌, ◌^◌, Bool, true, false, ◌&&◌, ltb, leb, ◌==◌, if◌then◌else◌,
}

-- ORIGIN and LENGTH of RAM in kernel.ld; the former is also `DRAM_BASE`.
abbrev pub dram_base : ℕ
dram_base = 0x80000000

abbrev pub dram_end : ℕ
dram_end = 0x88000000

abbrev pub page_size : ℕ
page_size = 4096

abbrev pub usize_top : ℕ
usize_top = 2 ^ 64

abbrev pub null : ℕ
null = 0

-- The word at each word address.
abbrev pub Mem : Type 0
Mem = ℕ → ℕ

pub data Run (A : Type 0) : Type 0 where
  done : A → Mem → Run A
  panic : Run A
  fault : Run A
  out_of_fuel : Run A

abbrev pub Cmd : Type 0 → Type 0
Cmd A = Mem → Run A

abbrev pub pure : {A : Type 0} → A → Cmd A
pure = done

abbrev pub panics : {A : Type 0} → Cmd A
panics _ = panic

abbrev pub spins : {A : Type 0} → Cmd A
spins _ = out_of_fuel

module _ {A B : Type 0} where
  abbrev pub and_then : Run A → (A → Cmd B) → Run B
  and_then (done a m) k = k a m
  and_then panic k = panic
  and_then fault k = fault
  and_then out_of_fuel k = out_of_fuel

  infixl 5 ◌>>=◌
  abbrev pub ◌>>=◌ : Cmd A → (A → Cmd B) → Cmd B
  c >>= k = λ m. and_then (c m) k

infixl 5 ◌>>◌
abbrev pub ◌>>◌ : {B : Type 0} → Cmd (Unit {0}) → Cmd B → Cmd B
c >> d = c >>= λ _. d

-- `assert!`
abbrev pub assert : Bool → Cmd (Unit {0})
assert true = pure tt
assert false = panics

-- Checked `usize` arithmetic.
unfoldable pub add : ℕ → ℕ → Cmd ℕ
add a b = if ltb (a + b) usize_top then pure (a + b) else panics

unfoldable pub sub : ℕ → ℕ → Cmd ℕ
sub a b = if leb b a then pure (a - b) else panics

unfoldable pub mul : ℕ → ℕ → Cmd ℕ
mul a b = if ltb (a * b) usize_top then pure (a * b) else panics

abbrev pub is_word : ℕ → Bool
is_word p = leb dram_base p && (leb (p + 8) dram_end && (p % 8 == 0))

-- The word at `p` becomes `v`.
unfoldable pub update : Mem → ℕ → ℕ → Mem
update m p v q = if q == p then v else m q

-- `ptr.read()` and `ptr.write(v)` at `*mut usize`, volatile or not.
unfoldable pub read : ℕ → Cmd ℕ
read p m = if is_word p then done (m p) m else fault

unfoldable pub write : ℕ → ℕ → Cmd (Unit {0})
write p v m = if is_word p then done tt (update m p v) else fault

-- `ptr.write_bytes(0, n)` at `*mut usize`: `n` words of zero from `p` on.
unfoldable pub write_zeros : ℕ → ℕ → Cmd (Unit {0})
write_zeros zero p = pure tt
write_zeros (suc n) p = do write p 0; write_zeros n (p + 8)

-- Total correctness: the run ends with neither a panic nor a fault, and its result and memory
-- satisfy `P`.
abbrev pub Ensures : {A : Type 0} → (A → Mem → Type 0) → Run A → Type 0
Ensures P (done a m) = P a m
Ensures P panic = ⊥
Ensures P fault = ⊥
Ensures P out_of_fuel = ⊥
