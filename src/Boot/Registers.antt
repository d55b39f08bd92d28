-- ===== src/Boot/Registers.antt =====
-- The registers that `timerinit` of src/hw.rs and `_start` of src/main.rs write, one by one.
use Prim.Native.Nat.{bit_and, bit_or}
use reedos.Common.{
  ℕ, ◌+◌, ◌-◌, ◌*◌, ◌/◌, ◌%◌, ◌^◌, ◌<◌, ◌≡◌, refl, ap, ◌∙◌, arith, Bool, true, not, ◌&&◌, List, [],
  ◌∷◌, Bool-cases, inl, inr,
}
use reedos.Common.Bits.{bit_and_high, bit_or_bit, bit_and_low, bit_and_fields}
use reedos.Header.{not_mask}
use reedos.Riscv.{
  Csr, Hart, Hardware, IsRiscv, shares, mepc, satp, pmpaddr0, pmpcfg0, mtvec, mhartid, write_mtvec,
  write_mstatus, write_mie, write_mepc, write_satp, write_medeleg, write_mideleg, write_sie,
  write_pmpaddr0, write_pmpcfg0, write_tp, read_mstatus, read_mhartid, medeleg, mideleg, sie, mie,
  mstatus, mpp, bit,
}
use reedos.Trap.{Vectors}
use reedos.Boot.{enable_timer, configure}

mpp_low : (q r : ℕ) → r < 2 ^ 11 → mpp (q * 2 ^ 11 + r) ≡ q % 4
mpp_low q r h = omega arith

-- `mstatus & !MSTATUS_MPP_MASK`
clear_mpp :
    (a : ℕ)
    → a < 2 ^ 64
    → bit_and a (not_mask (3 * 2 ^ 11)) ≡ a / 2 ^ 11 / 2 ^ 2 * 2 ^ 2 * 2 ^ 11 + a % 2 ^ 11
clear_mpp a h =
    let split : a / 2 ^ 11 * 2 ^ 11 + a % 2 ^ 11 ≡ a = omega arith in
    let low : a % 2 ^ 11 < 2 ^ 11 = omega arith in
    let masked =
      bit_and_fields 11 (a / 2 ^ 11) (a % 2 ^ 11) ((2 ^ 51 - 1) * 2 ^ 2) (2 ^ 11 - 1) low
        (omega arith) in
    rw (split, bit_and_high 2 51 (a / 2 ^ 11) (omega arith), bit_and_low 11 (a % 2 ^ 11)) at masked
    ∙ omega arith

mpp_s : (a : ℕ) → a < 2 ^ 64 → mpp (bit_or (bit_and a (not_mask (3 * 2 ^ 11))) (2 ^ 11)) ≡ 1
mpp_s a h =
    rw (clear_mpp a h)
      (omega (arith, bit_or_bit 11 (a / 2 ^ 11 / 2 ^ 2 * 2 ^ 2 * 2 ^ 11 + a % 2 ^ 11)))

mpp_or_mie : (a : ℕ) → mpp (bit_or a (2 ^ 3)) ≡ mpp a
mpp_or_mie a = omega (arith, bit_or_bit 3 a)

mtie_or : (a : ℕ) → bit 7 (bit_or a (2 ^ 7)) ≡ 1
mtie_or a = omega (arith, bit_or_bit 7 a)

module _ (hw : Hardware) (law : IsRiscv hw) where
  -- Writes in order, the first one first.
  abbrev csrw_all : List (Csr × ℕ) → Hart → Hart
  csrw_all [] hart = hart
  csrw_all ((r, v) ∷ writes) hart = csrw_all writes (hw.csrw r v hart)

  abbrev pub apart : Csr → List (Csr × ℕ) → Bool
  apart q [] = true
  apart q ((r, v) ∷ writes) = not (shares r q) && apart q writes

  kept :
      (q : Csr) (writes : List (Csr × ℕ)) (hart : Hart)
      → apart q writes ≡ true
      → (csrw_all writes hart).csr q ≡ hart.csr q
  kept q [] hart h = refl
  kept q ((r, v) ∷ writes) hart h = elim (Bool-cases (shares r q)) [
    | inl e ↦ cc
    | inr e ↦ kept q writes (hw.csrw r v hart) (rw e at h) ∙ law.other r q v hart e
  ]

  kept_tp : (writes : List (Csr × ℕ)) (hart : Hart) → (csrw_all writes hart).tp ≡ hart.tp
  kept_tp [] hart = refl
  kept_tp ((r, v) ∷ writes) hart = kept_tp writes (hw.csrw r v hart) ∙ law.tp r v hart

  module _ (vectors : Vectors) (hart : Hart) where
    -- What `timerinit` leaves as it is.
    pub enable_timer-kept :
        (q : Csr)
        → apart q ((mtvec, 0) ∷ (mstatus, 0) ∷ (mie, 0) ∷ []) ≡ true
        → (enable_timer hw vectors hart).csr q ≡ hart.csr q
    unfolding enable_timer write_mtvec write_mstatus write_mie
    enable_timer-kept q h = kept q ((mtvec, _) ∷ (mstatus, _) ∷ (mie, _) ∷ []) hart h

    pub enable_timer-mtvec :
        vectors.mtrapvec % 4 ≡ 0 → (enable_timer hw vectors hart).csr mtvec ≡ vectors.mtrapvec
    unfolding enable_timer write_mtvec write_mstatus write_mie
    enable_timer-mtvec h =
        kept mtvec ((mstatus, _) ∷ (mie, _) ∷ []) _ refl
        ∙ law.own mtvec vectors.mtrapvec hart (ground arith)

    pub enable_timer-mtie : bit 7 ((enable_timer hw vectors hart).csr mie) ≡ 1
    unfolding enable_timer write_mtvec write_mstatus write_mie
    enable_timer-mtie = law.mtie_written _ _ ∙ mtie_or _

    pub enable_timer-mpp :
        mpp (hart.csr mstatus) ≡ 1 → mpp ((enable_timer hw vectors hart).csr mstatus) ≡ 1
    unfolding enable_timer write_mtvec write_mstatus write_mie read_mstatus
    enable_timer-mpp h =
        ap mpp (law.other mie mstatus _ _ refl)
        ∙ law.mpp_written _ _ (
            mpp_or_mie (read_mstatus (write_mtvec hw vectors.mtrapvec hart))
            ∙ (ap mpp (law.other mtvec mstatus _ _ refl) ∙ h))

    pub enable_timer-tp : (enable_timer hw vectors hart).tp ≡ hart.tp
    unfolding enable_timer write_mtvec write_mstatus write_mie
    enable_timer-tp = kept_tp ((mtvec, _) ∷ (mstatus, _) ∷ (mie, _) ∷ []) hart

  module _ (fn_main : ℕ) (hart : Hart) where
    -- What `_start` sets before the call of `timerinit`.
    pub configure-kept :
        (q : Csr)
        → apart q (
            (mstatus, 0)
            ∷ (mepc, 0)
            ∷ (satp, 0)
            ∷ (medeleg, 0)
            ∷ (mideleg, 0)
            ∷ (sie, 0)
            ∷ (pmpaddr0, 0)
            ∷ (pmpcfg0, 0)
            ∷ [])
          ≡ true
        → (configure hw fn_main hart).csr q ≡ hart.csr q
    unfolding configure write_mstatus write_mepc write_satp write_medeleg write_mideleg write_sie
        write_pmpaddr0 write_pmpcfg0 write_tp
    configure-kept q h =
        kept q
          ((mstatus, _)
            ∷ (mepc, _)
            ∷ (satp, _)
            ∷ (medeleg, _)
            ∷ (mideleg, _)
            ∷ (sie, _)
            ∷ (pmpaddr0, _)
            ∷ (pmpcfg0, _)
            ∷ [])
          hart h

    pub configure-mepc : fn_main % 4 ≡ 0 → (configure hw fn_main hart).csr mepc ≡ fn_main
    unfolding configure write_mstatus write_mepc write_satp write_medeleg write_mideleg write_sie
        write_pmpaddr0 write_pmpcfg0 write_tp
    configure-mepc h =
        kept mepc
          ((satp, _) ∷ (medeleg, _) ∷ (mideleg, _) ∷ (sie, _) ∷ (pmpaddr0, _) ∷ (pmpcfg0, _) ∷ []) _
          refl
        ∙ law.own mepc fn_main _ (ground arith)

    pub configure-satp : (configure hw fn_main hart).csr satp ≡ 0
    unfolding configure write_mstatus write_mepc write_satp write_medeleg write_mideleg write_sie
        write_pmpaddr0 write_pmpcfg0 write_tp
    configure-satp =
        kept satp ((medeleg, _) ∷ (mideleg, _) ∷ (sie, _) ∷ (pmpaddr0, _) ∷ (pmpcfg0, _) ∷ []) _
          refl
        ∙ law.own satp 0 _ refl

    pub configure-pmpaddr0 : (configure hw fn_main hart).csr pmpaddr0 ≡ 2 ^ 54 - 1
    unfolding configure write_mstatus write_mepc write_satp write_medeleg write_mideleg write_sie
        write_pmpaddr0 write_pmpcfg0 write_tp
    configure-pmpaddr0 = law.other pmpcfg0 pmpaddr0 _ _ refl ∙ law.own pmpaddr0 (2 ^ 54 - 1) _ refl

    pub configure-pmpcfg0 : (configure hw fn_main hart).csr pmpcfg0 ≡ 15
    unfolding configure write_mstatus write_mepc write_satp write_medeleg write_mideleg write_sie
        write_pmpaddr0 write_pmpcfg0 write_tp
    configure-pmpcfg0 = law.own pmpcfg0 15 _ refl

    pub configure-mpp :
        hart.csr mstatus < 2 ^ 64 → mpp ((configure hw fn_main hart).csr mstatus) ≡ 1
    unfolding configure write_mstatus write_mepc write_satp write_medeleg write_mideleg write_sie
        write_pmpaddr0 write_pmpcfg0 write_tp read_mstatus
    configure-mpp h =
        ap mpp (
          kept mstatus
            ((mepc, _)
              ∷ (satp, _)
              ∷ (medeleg, _)
              ∷ (mideleg, _)
              ∷ (sie, _)
              ∷ (pmpaddr0, _)
              ∷ (pmpcfg0, _)
              ∷ [])
            _ refl)
        ∙ law.mpp_written _ _ (mpp_s (hart.csr mstatus) h)

    pub configure-tp : (configure hw fn_main hart).tp ≡ hart.csr mhartid
    unfolding configure write_mstatus write_mepc write_satp write_medeleg write_mideleg write_sie
        write_pmpaddr0 write_pmpcfg0 write_tp read_mhartid
    configure-tp =
        kept mhartid
          ((mstatus, _)
            ∷ (mepc, _)
            ∷ (satp, _)
            ∷ (medeleg, _)
            ∷ (mideleg, _)
            ∷ (sie, _)
            ∷ (pmpaddr0, _)
            ∷ (pmpcfg0, _)
            ∷ [])
          hart refl
