-- ===== src/Machine/Laws.antt =====
-- What a run of the memory operations does where it neither panics nor faults.
use reedos.Common.{
  ℕ, zero, suc, ◌+◌, ◌-◌, ◌*◌, ◌%◌, ◌≤◌, ◌<◌, ◌≡◌, refl, ◌≢◌, ◌⊎◌, ◌∙◌, ap, arith, true, ltb-true,
  ltb-false, leb-true, leb-false,
}
use reedos.Machine.{
  Mem, Run, Cmd, Ensures, and_then, out_of_fuel, done, panic, fault, add, sub, mul, is_word, update,
  read, write, write_zeros, usize_top, dram_base, dram_end,
}

-- Aligned words of RAM.
pub record IsWord (p : ℕ) : Type 0 where
  pub low : dram_base ≤ p
  pub high : p + 8 ≤ dram_end
  pub aligned : p % 8 ≡ 0

pub add-done : (a b : ℕ) (m : Mem) → a + b < usize_top → add a b m ≡ done (a + b) m
unfolding add
add-done a b m h = rw (ltb-true _ _ h)

pub add-panic : (a b : ℕ) (m : Mem) → usize_top ≤ a + b → add a b m ≡ panic
unfolding add
add-panic a b m h = rw (ltb-false _ _ h)

pub sub-done : (a b : ℕ) (m : Mem) → b ≤ a → sub a b m ≡ done (a - b) m
unfolding sub
sub-done a b m h = rw (leb-true _ _ h)

-- The difference, known by what it is added to.
pub sub-eq : (a b c : ℕ) (m : Mem) → c + b ≡ a → sub a b m ≡ done c m
sub-eq a b c m h = sub-done a b m (omega arith) ∙ ap (λ (d : ℕ). done d m) (omega arith)

pub sub-panic : (a b : ℕ) (m : Mem) → a < b → sub a b m ≡ panic
unfolding sub
sub-panic a b m h = rw (leb-false _ _ h)

pub mul-done : (a b : ℕ) (m : Mem) → a * b < usize_top → mul a b m ≡ done (a * b) m
unfolding mul
mul-done a b m h = rw (ltb-true _ _ h)

is_word-true : {p : ℕ} → IsWord p → is_word p ≡ true
is_word-true w = ground arith

module _ {p : ℕ} (w : IsWord p) (m : Mem) where
  pub read-done : read p m ≡ done (m p) m
  unfolding read
  read-done = rw (is_word-true w)

  pub write-done : (v : ℕ) → write p v m ≡ done tt (update m p v)
  unfolding write
  write-done v = rw (is_word-true w)

pub read-null : (m : Mem) → read 0 m ≡ fault
unfolding read
read-null m = refl

pub update_self : (m : Mem) (p v : ℕ) → update m p v p ≡ v
unfolding update
update_self m p v = ground arith

pub update_ne : (m : Mem) (p q v : ℕ) → q ≢ p → update m p v q ≡ m q
unfolding update
update_ne m p q v h = ground arith

pub record Zeroed (m m' : Mem) (p n : ℕ) : Type 0 where
  pub zeros : (i : ℕ) → i < n → m' (p + 8 * i) ≡ 0
  pub same : (q : ℕ) → (q < p) ⊎ (p + 8 * n ≤ q) → m' q ≡ m q

-- One more word in front.
Zeroed-suc : (m m' : Mem) (p n : ℕ) → Zeroed (update m p 0) m' (p + 8) n → Zeroed m m' p (suc n)
Zeroed-suc m m' p n z = record {
  zeros = zeros;
  same = λ q h. ground (arith, z.same q, update_ne m p q 0);
}
  where
    zeros : (i : ℕ) → i < suc n → m' (p + 8 * i) ≡ 0
    zeros zero h = ground (arith, z.same p, update_self m p 0)
    zeros (suc i) h = ground (arith, z.zeros i)

-- `n` words of RAM become zero, and no word outside them changes.
pub write_zeros-done :
    (n p : ℕ) (m : Mem)
    → dram_base ≤ p
    → p + 8 * n ≤ dram_end
    → p % 8 ≡ 0
    → (m' : Mem) × (write_zeros n p m ≡ done tt m') × Zeroed m m' p n
unfolding write_zeros
write_zeros-done zero p m lo hi al =
    (m, refl, record { zeros = λ i h. absurd (omega arith); same = λ q h. refl })
write_zeros-done (suc n) p m lo hi al =
    let w : IsWord p = record { low = lo; high = omega arith; aligned = al } in
    let (m', run, z) =
      write_zeros-done n (p + 8) (update m p 0) (omega arith) (omega arith) (omega arith) in
    (m', rw (write-done w m 0) run, Zeroed-suc m m' p n z)

-- A run that ensures `P` may go on with any command that needs no more.
pub Ensures-and_then :
    {A B : Type 0} (P : A → Mem → Type 0) (Q : B → Mem → Type 0) (r : Run A) (k : A → Cmd B)
    → Ensures P r
    → ((a : A) (m : Mem) → P a m → Ensures Q (k a m))
    → Ensures Q (and_then r k)
Ensures-and_then P Q (done a m) k p next = next a m p
Ensures-and_then P Q panic k p next = absurd p
Ensures-and_then P Q fault k p next = absurd p
Ensures-and_then P Q out_of_fuel k p next = absurd p

pub Ensures-mono :
    {A : Type 0} (P Q : A → Mem → Type 0) (r : Run A)
    → Ensures P r
    → ((a : A) (m : Mem) → P a m → Q a m)
    → Ensures Q r
Ensures-mono P Q (done a m) p weaken = weaken a m p
Ensures-mono P Q panic p weaken = absurd p
Ensures-mono P Q fault p weaken = absurd p
Ensures-mono P Q out_of_fuel p weaken = absurd p
