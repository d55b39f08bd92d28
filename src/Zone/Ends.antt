-- ===== src/Zone/Ends.antt =====
-- The loop of `Zone::scan` in src/vm/vmalloc.rs ends on every memory.
use Prim.Native.Nat.{bit_and}
use reedos.Common.{
  ℕ, zero, suc, ◌+◌, ◌-◌, ◌*◌, ◌/◌, ◌%◌, ◌^◌, ◌<◌, ◌≤◌, ◌≡◌, refl, ◌∙◌, true, not, ◌&&◌, ◌||◌, ltb,
  ◌==◌, arith, Bool-cases, inl, inr, if◌then◌else◌, Result, ok, err,
}
use reedos.Common.Bits.{bit_and_fields, bit_and_bit, bit_or_low}
use reedos.Machine.{Mem, Cmd, and_then, add, write, usize_top, page_size, update, is_word}
use reedos.Machine.Ends.{Ends, Ends-and_then, Ends-add, Ends-sub, Ends-read, Ends-write}
use reedos.Header.{chunk_size, is_free, set_size, set_used, split, not_mask}
use reedos.Header
use reedos.Header.Fields.{chunk_size-mod, is_free-bit}
use reedos.Zone.{
  Zone, KallocError, scan, scan_loop, scan_fuel, alloc_chunk, increment_refs, write_refs,
  expect_refs, get_refs,
}

free-bit : (f : ℕ) → is_free f ≡ true → f / 4096 % 2 ≡ 0
free-bit f h = ground (arith, is_free-bit f)

-- `set_size` on a free header, of a size that may reach into the flag
set_size-free : (f s : ℕ) → is_free f ≡ true → s < 8192 → (x : ℕ) × (set_size f s ≡ x * 8192 + s)
unfolding set_size
set_size-free f s free small =
    let low : f % 2 ^ 13 < 2 ^ 12 = omega (arith, free-bit f free) in
    let split_f : f / 2 ^ 13 * 2 ^ 13 + f % 2 ^ 13 ≡ f = omega arith in
    let masked =
      bit_and_fields 13 (f / 2 ^ 13) (f % 2 ^ 13) (2 ^ 51 - 1) (2 ^ 12) (omega arith)
        (omega arith) in
    let clear : bit_and f (not_mask (0x1000 - 1)) ≡ bit_and (f / 2 ^ 13) (2 ^ 51 - 1) * 2 ^ 13 =
      rw (split_f, bit_and_bit 12 (f % 2 ^ 13)) at masked ∙ omega arith in
    (
      bit_and (f / 2 ^ 13) (2 ^ 51 - 1),
      rw (clear, bit_or_low 13 (bit_and (f / 2 ^ 13) (2 ^ 51 - 1)) s small) refl,
    )

-- How many merges may follow at a chunk: a merge makes it longer, or turns the flag.
abbrev rank : ℕ → ℕ
rank head = if is_free head then (4095 - chunk_size head) / 8 + 1 else 0

rank-le : (head : ℕ) → rank head ≤ 512
rank-le head = ground arith

rank-merged :
    (f g : ℕ)
    → is_free f ≡ true
    → chunk_size f % 8 ≡ 0
    → rank (set_size f (chunk_size f + 8 + chunk_size g)) < rank f
rank-merged f g free al =
    let size : ℕ = chunk_size f + 8 + chunk_size g in
    let small : size < 8192 = omega (arith, chunk_size-mod f, chunk_size-mod g) in
    let (x, e) = set_size-free f size free small in
    rw (e, free)
      (elim (Bool-cases (is_free (x * 8192 + size))) [
        | inl h ↦ rw h (
            omega (
              arith,
              free-bit (x * 8192 + size) h,
              chunk_size-mod (x * 8192 + size),
              chunk_size-mod f,
            ))
        | inr h ↦ rw h (omega arith)
      ])

Ends-expect_refs : (result : Result KallocError (Unit {0})) (m : Mem) → Ends (expect_refs result m)
unfolding expect_refs
Ends-expect_refs (ok _) m = tt
Ends-expect_refs (err _) m = tt

Ends-split : (fields new_size cur_addr : ℕ) (m : Mem) → Ends (split fields new_size cur_addr m)
unfolding split
Ends-split fields new_size cur_addr m = Ends-sub (chunk_size fields) new_size m _ (
    Ends-write cur_addr _ m _ (
      Ends-add cur_addr 8 _ _ (
        Ends-add (cur_addr + 8) new_size _ _
          (Ends-sub (chunk_size fields - new_size) 8 _ _ (Ends-write _ _ _ _ tt)))))

Ends-alloc_chunk :
    (size ptr : ℕ) (zone : Zone) (head : ℕ) (m : Mem) → Ends (alloc_chunk size ptr zone head m)
unfolding alloc_chunk increment_refs write_refs
Ends-alloc_chunk size ptr zone head m =
    Ends-and_then _ _
      (Ends-add (get_refs zone) 1 m _ (elim (Bool-cases (ltb 510 (get_refs zone + 1))) [
        | inl h ↦ rw h tt
        | inr h ↦ rw h (Ends-and_then _ _ (Ends-write zone.base _ m _ tt) (λ zone' m' ran. tt))
      ]))
      λ (result, zone') m₁ ran.
        Ends-and_then (expect_refs result m₁) _ (Ends-expect_refs result m₁) λ u m₂ ran₂.
          Ends-write ptr (set_used head) m₂ _
            (elim (Bool-cases (size == chunk_size (set_used head))) [
              | inl h ↦ rw h tt
              | inr h ↦ rw h (
                  Ends-and_then (split (set_used head) size ptr _) _
                    (Ends-split (set_used head) size ptr _) (λ a m₃ ran₃. tt))
            ])

-- A merge that succeeds joins two free chunks.
Ends-merge :
    {B : Type 0} (f next p : ℕ) (m : Mem) (k : ℕ → Cmd B)
    → (is_free f ≡ true → Ends (k (set_size f (chunk_size f + 8 + chunk_size next)) (update m p 0)))
    → Ends (and_then (Header.merge f next p m) k)
unfolding Header.merge add write
Ends-merge f next p m k e = elim (Bool-cases (is_free next)) [
  | inr h ↦ rw h tt
  | inl h ↦ (elim (Bool-cases (is_free f)) [
    | inr h' ↦ rw (h, h') tt
    | inl h' ↦ (elim (Bool-cases (ltb (chunk_size f + 8) usize_top)) [
      | inr a ↦ rw (h, h', a) tt
      | inl a ↦ (elim (Bool-cases (ltb (chunk_size f + 8 + chunk_size next) usize_top)) [
        | inr b ↦ rw (h, h', a, b) tt
        | inl b ↦ (elim (Bool-cases (is_word p)) [
          | inr w ↦ rw (h, h', a, b, w) tt
          | inl w ↦ rw (h, h', a, b, w) (e h')
        ])
      ])
    ])
  ])
]

-- At most this many rounds are left at the chunk `curr` with the header `head`.
abbrev rounds : (end curr head : ℕ) → ℕ
rounds end curr head = (end - curr + 7) / 8 * 513 + rank head

module _ (size end : ℕ) where
  -- A step to a chunk behind leaves fewer rounds, whatever stands there.
  advance :
      (curr skip head next k : ℕ)
      → curr < end
      → rounds end curr head < suc k
      → rounds end (curr + 8 + skip) next < k
  advance curr skip head next k lt fuel = omega (arith, rank-le next)

  pub Ends-scan_loop :
      (k curr head : ℕ) (zone : Zone) (m : Mem)
      → curr % 8 ≡ 0
      → rounds end curr head < k
      → Ends (scan_loop k size end curr head zone m)
  unfolding scan_loop
  Ends-scan_loop zero curr head zone m al fuel = absurd (omega arith)
  Ends-scan_loop (suc k) curr head zone m al fuel = elim (Bool-cases (ltb curr end)) [
    | inr h ↦ rw h tt
    | inl h ↦ (elim (Bool-cases (ltb (chunk_size head) size || not (is_free head))) [
      | inr h' ↦
          rw (h, h')
            (Ends-and_then (alloc_chunk size curr zone head m) _
              (Ends-alloc_chunk size curr zone head m) λ zone' m' ran. Ends-add curr 8 m' _ tt)
      | inl h' ↦
          rw (h, h')
            (Ends-add curr 8 m _ (
              Ends-add (curr + 8) (chunk_size head) m _ (
                Ends-read (curr + 8 + chunk_size head) m _ λ al'.
                  (let next : ℕ = m (curr + 8 + chunk_size head) in
                    elim (Bool-cases (is_free head && is_free next)) [
                      | inl both ↦ rw both (
                          Ends-merge head next (curr + 8 + chunk_size head) m _ λ free.
                            Ends-write curr _ _ _ (
                              Ends-scan_loop k curr _ zone _ al
                                (omega (arith, rank-merged head next free (omega arith)))))
                      | inr one ↦ rw one (
                          Ends-scan_loop k (curr + 8 + chunk_size head) next zone m al'
                            (advance curr (chunk_size head) head next k (ground arith) fuel))
                    ]))))
    ])
  ]

-- `scan` ends on every memory and for every zone and size: it does not run out of fuel, whatever
-- stands in the headers.
pub scan-Ends : (zone : Zone) (size : ℕ) (m : Mem) → Ends (scan zone size m)
unfolding scan
scan-Ends zone size m =
    let first : ℕ = zone.base + 8 in
    let end : ℕ = zone.base + 8 * (page_size / 8) in
    Ends-read first m _ λ al.
      Ends-scan_loop size end scan_fuel first (m first) zone m al (omega (arith, rank-le (m first)))
