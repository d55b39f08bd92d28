-- ===== src/Galloc/Copies.antt =====
-- `write_bytes` and `copy_nonoverlapping` as `alloc_zeroed` and `realloc` of src/vm/global.rs use
-- them, byte by byte.

use reedos.Common.{
  ℕ, zero, suc, ◌+◌, ◌-◌, ◌*◌, ◌/◌, ◌%◌, ◌<◌, ◌≤◌, ◌≡◌, refl, sym, ap, ◌∙◌, arith, ◌⊎◌, ==_ne,
  ==_gt, subst,
}
use reedos.Machine.{Mem, done, update, dram_base, dram_end}
use reedos.Machine.Laws.{IsWord, read-done, write-done, update_ne}
use reedos.Palloc.Steps.{SameOutside}
use reedos.Galloc.{high_bytes, zero_bytes, copy_bytes}
use reedos.Galloc.Bytes.{
  byte_of, byte, mixed, mixed-zero_bytes, byte_of-zero, Writes, Writes-word, Writes-last,
  Writes-none, byte-own, byte-update,
}

same-word :
    (m m' : Mem) (p n v : ℕ)
    → SameOutside (update m p v) m' (p + 8) (p + 8 + n)
    → SameOutside m m' p (p + (8 + n))
same-word m m' p n v same q out = same q (omega arith) ∙ update_ne m p q v (omega arith)

same-last : (m : Mem) (p n v : ℕ) → 0 < n → SameOutside m (update m p v) p (p + n)
same-last m p n v pos q out = update_ne m p q v (omega arith)

-- `write_bytes(0, n)`, which writes word by word, makes the `n` bytes from `p` on zero and changes no
-- other byte, without a fault. The bytes are in RAM and `p` is aligned.
pub zero_bytes-Writes :
    (words rest p : ℕ) (m : Mem)
    → dram_base ≤ p
    → p + (8 * words + rest) ≤ dram_end
    → p % 8 ≡ 0
    → rest < 8
    → (m' : Mem) × (zero_bytes words rest p m ≡ done tt m')
      × Writes m m' p (8 * words + rest) (λ q. 0)
      × SameOutside m m' p (p + (8 * words + rest))
unfolding zero_bytes
zero_bytes-Writes zero zero p m lo hi al small = (m, refl, Writes-none m p (λ q. 0), λ q out. refl)
zero_bytes-Writes zero (suc rest) p m lo hi al small =
    let w : IsWord p = record { low = lo; high = omega arith; aligned = al } in
    let n : 8 * 0 + suc rest ≡ suc rest = omega arith in
    let word : mixed (suc rest) (m p) 0 ≡ high_bytes (suc rest) (m p) =
      mixed-zero_bytes (suc rest) (m p) in
    (
      update m p (mixed (suc rest) (m p) 0),
      rw
          (
            ==_gt (suc rest) 0 (omega arith),
            read-done w m,
            write-done w m (high_bytes (suc rest) (m p)),
          )
          (ap (λ v. done tt (update m p v)) (sym word)),
      subst (λ k. Writes m (update m p (mixed (suc rest) (m p) 0)) p k (λ q. 0)) (sym n)
          (Writes-last m p (suc rest) 0 (λ q. 0) al small (λ q l h. byte_of-zero (q % 8))),
      same-last m p (8 * 0 + suc rest) (mixed (suc rest) (m p) 0) (omega arith),
    )
zero_bytes-Writes (suc words) rest p m lo hi al small =
    let w : IsWord p = record { low = lo; high = omega arith; aligned = al } in
    let (m', ran, writes, same) =
      zero_bytes-Writes words rest (p + 8) (update m p 0) (omega arith) (omega arith) (omega arith)
        small in
    let n : 8 * suc words + rest ≡ 8 + (8 * words + rest) = omega arith in
    (
      m',
      rw (write-done w m 0) ran,
      subst (λ k. Writes m m' p k (λ q. 0)) (sym n)
          (Writes-word m m' p (8 * words + rest) 0 (λ q. 0) (λ q. 0) al
            (λ q e. byte_of-zero (q % 8)) (λ q l h. refl) writes),
      subst (λ k. SameOutside m m' p (p + k)) (sym n) (same-word m m' p (8 * words + rest) 0 same),
    )

byte-at :
    (m : Mem) (src dst q : ℕ)
    → src % 8 ≡ 0
    → dst % 8 ≡ 0
    → q / 8 * 8 ≡ dst
    → byte_of (q % 8) (m src) ≡ byte m (src + (q - dst))
byte-at m src dst q al bl e =
    let digit : q % 8 ≡ (src + (q - dst)) % 8 = omega arith in
    rw digit (byte-own m src (src + (q - dst)) (omega arith))

-- A byte outside a word that is written.
byte-apart :
    (m : Mem) (p v q : ℕ) → p % 8 ≡ 0 → (q < p) ⊎ (p + 8 ≤ q) → byte (update m p v) q ≡ byte m q
byte-apart m p v q al apart = byte-update m p v q al ∙ rw (==_ne (q / 8 * 8) p (omega arith)) refl

byte-behind :
    (m : Mem) (src dst n v q : ℕ)
    → dst % 8 ≡ 0
    → (src + (8 + n) ≤ dst) ⊎ (dst + (8 + n) ≤ src)
    → dst + 8 ≤ q
    → q < dst + (8 + n)
    → byte (update m dst v) (src + 8 + (q - (dst + 8))) ≡ byte m (src + (q - dst))
byte-behind m src dst n v q al apart l h =
    let same : src + 8 + (q - (dst + 8)) ≡ src + (q - dst) = omega arith in
    rw same (byte-apart m dst v (src + (q - dst)) al (omega arith))

-- `copy_nonoverlapping`, which copies word by word, gives the `n` bytes from `dst` on the values that
-- the `n` bytes from `src` on have, and changes no other byte, without a fault. Both ranges are in
-- RAM and aligned and do not overlap.
pub copy_bytes-Writes :
    (words rest src dst : ℕ) (m : Mem)
    → dram_base ≤ src
    → src + (8 * words + rest) ≤ dram_end
    → src % 8 ≡ 0
    → dram_base ≤ dst
    → dst + (8 * words + rest) ≤ dram_end
    → dst % 8 ≡ 0
    → (src + (8 * words + rest) ≤ dst) ⊎ (dst + (8 * words + rest) ≤ src)
    → rest < 8
    → (m' : Mem) × (copy_bytes words rest src dst m ≡ done tt m')
      × Writes m m' dst (8 * words + rest) (λ q. byte m (src + (q - dst)))
      × SameOutside m m' dst (dst + (8 * words + rest))
unfolding copy_bytes
copy_bytes-Writes zero zero src dst m slo shi sal lo hi al apart small =
    (m, refl, Writes-none m dst (λ q. byte m (src + (q - dst))), λ q out. refl)
copy_bytes-Writes zero (suc rest) src dst m slo shi sal lo hi al apart small =
    let s : IsWord src = record { low = slo; high = omega arith; aligned = sal } in
    let d : IsWord dst = record { low = lo; high = omega arith; aligned = al } in
    let n : 8 * 0 + suc rest ≡ suc rest = omega arith in
    let m' = update m dst (mixed (suc rest) (m dst) (m src)) in
    let f : ℕ → ℕ = λ q. byte m (src + (q - dst)) in
    (
      m',
      rw
          (
            ==_gt (suc rest) 0 (omega arith),
            read-done s m,
            read-done d m,
            write-done d m (mixed (suc rest) (m dst) (m src)),
          )
          refl,
      subst (λ k. Writes m m' dst k f) (sym n)
          (Writes-last m dst (suc rest) (m src) f al small
            (λ q l h. byte-at m src dst q sal al (omega arith))),
      same-last m dst (8 * 0 + suc rest) (mixed (suc rest) (m dst) (m src)) (omega arith),
    )
copy_bytes-Writes (suc words) rest src dst m slo shi sal lo hi al apart small =
    let s : IsWord src = record { low = slo; high = omega arith; aligned = sal } in
    let d : IsWord dst = record { low = lo; high = omega arith; aligned = al } in
    let n : 8 * suc words + rest ≡ 8 + (8 * words + rest) = omega arith in
    let m1 = update m dst (m src) in
    let (m', ran, writes, same) =
      copy_bytes-Writes words rest (src + 8) (dst + 8) m1 (omega arith) (omega arith) (omega arith)
        (omega arith) (omega arith) (omega arith) (omega arith) small in
    let f : ℕ → ℕ = λ q. byte m (src + (q - dst)) in
    (
      m',
      rw (read-done s m, write-done d m (m src)) ran,
      subst (λ k. Writes m m' dst k f) (sym n)
          (Writes-word m m' dst (8 * words + rest) (m src) f
            (λ q. byte m1 (src + 8 + (q - (dst + 8)))) al (λ q e. byte-at m src dst q sal al e)
            (λ q l h. byte-behind m src dst (8 * words + rest) (m src) q al (rw n at apart) l h)
            writes),
      subst (λ k. SameOutside m m' dst (dst + k)) (sym n)
          (same-word m m' dst (8 * words + rest) (m src) same),
    )
