-- ===== src/Machine/Ends.antt =====
-- Runs that do not run out of fuel, whatever memory holds.
use reedos.Common.{
  ℕ, ◌+◌, ◌-◌, ◌%◌, ◌≡◌, refl, Bool, true, false, ltb, leb, Bool-cases, inl, inr, arith,
}
use reedos.Machine.{
  Mem, Run, Cmd, and_then, done, panic, fault, out_of_fuel, assert, add, sub, read, write, is_word,
  usize_top, update,
}

abbrev pub Ends : {A : Type 0} → Run A → Type 0
Ends (done a m) = Unit
Ends panic = Unit
Ends fault = Unit
Ends out_of_fuel = ⊥

pub Ends-and_then :
    {A B : Type 0} (r : Run A) (k : A → Cmd B)
    → Ends r
    → ((a : A) (m : Mem) → r ≡ done a m → Ends (k a m))
    → Ends (and_then r k)
Ends-and_then (done a m) k e next = next a m refl
Ends-and_then panic k e next = tt
Ends-and_then fault k e next = tt
Ends-and_then out_of_fuel k e next = absurd e

-- What a step that ended has shown.
pub Ends-add :
    {B : Type 0} (a b : ℕ) (m : Mem) (k : ℕ → Cmd B)
    → Ends (k (a + b) m)
    → Ends (and_then (add a b m) k)
unfolding add
Ends-add a b m k e = elim (Bool-cases (ltb (a + b) usize_top)) [ inl h ↦ rw h e | inr h ↦ rw h tt ]

pub Ends-sub :
    {B : Type 0} (a b : ℕ) (m : Mem) (k : ℕ → Cmd B)
    → Ends (k (a - b) m)
    → Ends (and_then (sub a b m) k)
unfolding sub
Ends-sub a b m k e = elim (Bool-cases (leb b a)) [ inl h ↦ rw h e | inr h ↦ rw h tt ]

pub Ends-assert :
    {B : Type 0} (b : Bool) (m : Mem) (k : Unit {0} → Cmd B)
    → (b ≡ true → Ends (k tt m))
    → Ends (and_then (assert b m) k)
Ends-assert true m k e = e refl
Ends-assert false m k e = tt

pub Ends-read :
    {B : Type 0} (p : ℕ) (m : Mem) (k : ℕ → Cmd B)
    → (p % 8 ≡ 0 → Ends (k (m p) m))
    → Ends (and_then (read p m) k)
unfolding read
Ends-read p m k e = elim (Bool-cases (is_word p)) [
  | inl h ↦ rw h (e (ground arith))
  | inr h ↦ rw h tt
]

pub Ends-write :
    {B : Type 0} (p v : ℕ) (m : Mem) (k : Unit {0} → Cmd B)
    → Ends (k tt (update m p v))
    → Ends (and_then (write p v m) k)
unfolding write
Ends-write p v m k e = elim (Bool-cases (is_word p)) [ inl h ↦ rw h e | inr h ↦ rw h tt ]
