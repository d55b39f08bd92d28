-- ===== src/Riscv.antt =====
-- Control and status registers, src/hw/riscv.rs. What a hart does at the instructions of the inline
-- assembly is a parameter, `Hardware`; `IsRiscv` says what the kernel's code relies on in it, by the
-- privileged architecture's manual.
pub mod Plain
use reedos.Common.{
  ℕ, ◌+◌, ◌*◌, ◌/◌, ◌%◌, ◌^◌, ◌≡◌, Bool, true, false, List, [], ◌∷◌, ltb, ◌==◌, if◌then◌else◌,
}

abbrev pub mstatus_mpp_mask : ℕ
mstatus_mpp_mask = 3 * 2 ^ 11

abbrev pub mstatus_mpp_m : ℕ
mstatus_mpp_m = 3 * 2 ^ 11

abbrev pub mstatus_mpp_s : ℕ
mstatus_mpp_s = 2 ^ 11

abbrev pub mstatus_mpp_u : ℕ
mstatus_mpp_u = 0

abbrev pub mstatus_mie : ℕ
mstatus_mie = 2 ^ 3

-- `mcause` of a timer interrupt in machine mode
abbrev pub mstatus_timer : ℕ
mstatus_timer = 2 ^ 63 + 7

abbrev pub sstatus_spp : ℕ
sstatus_spp = 2 ^ 8

abbrev pub sstatus_spie : ℕ
sstatus_spie = 2 ^ 5

abbrev pub sstatus_upie : ℕ
sstatus_upie = 2 ^ 4

abbrev pub sstatus_sie : ℕ
sstatus_sie = 2 ^ 1

abbrev pub sstatus_uie : ℕ
sstatus_uie = 1

abbrev pub mie_meie : ℕ
mie_meie = 2 ^ 11

abbrev pub mie_mtie : ℕ
mie_mtie = 2 ^ 7

abbrev pub mie_msie : ℕ
mie_msie = 2 ^ 3

abbrev pub sie_seie : ℕ
sie_seie = 2 ^ 9

abbrev pub sie_stie : ℕ
sie_stie = 2 ^ 5

abbrev pub sie_ssie : ℕ
sie_ssie = 2 ^ 1

pub data Csr : Type 0 where
  mhartid mstatus mcause scause mepc sstatus sip sie mie satp medeleg mideleg pmpaddr0 pmpcfg0
        mscratch mtvec stvec :
      Csr

pub data Mode : Type 0 where
  user supervisor machine : Mode

pub record Hart : Type 0 where
  pub csr : Csr → ℕ
  pub tp : ℕ
  pub mode : Mode
  pub pc : ℕ

-- `csrw`, `mret` and `sfence.vma zero, zero`; `csrr` reads the register.
pub record Hardware : Type 0 where
  pub csrw : Csr → ℕ → Hart → Hart
  pub mret : Hart → Hart
  pub sfence_vma : Hart → Hart

unfoldable pub read_mhartid : Hart → ℕ
read_mhartid hart = hart.csr mhartid

unfoldable pub read_mstatus : Hart → ℕ
read_mstatus hart = hart.csr mstatus

unfoldable pub read_mcause : Hart → ℕ
read_mcause hart = hart.csr mcause

unfoldable pub read_scause : Hart → ℕ
read_scause hart = hart.csr scause

unfoldable pub read_mepc : Hart → ℕ
read_mepc hart = hart.csr mepc

unfoldable pub read_sstatus : Hart → ℕ
read_sstatus hart = hart.csr sstatus

unfoldable pub read_sip : Hart → ℕ
read_sip hart = hart.csr sip

unfoldable pub read_sie : Hart → ℕ
read_sie hart = hart.csr sie

unfoldable pub read_mie : Hart → ℕ
read_mie hart = hart.csr mie

unfoldable pub read_satp : Hart → ℕ
read_satp hart = hart.csr satp

unfoldable pub read_medeleg : Hart → ℕ
read_medeleg hart = hart.csr medeleg

unfoldable pub read_mideleg : Hart → ℕ
read_mideleg hart = hart.csr mideleg

unfoldable pub read_pmpaddr0 : Hart → ℕ
read_pmpaddr0 hart = hart.csr pmpaddr0

unfoldable pub read_pmpcfg0 : Hart → ℕ
read_pmpcfg0 hart = hart.csr pmpcfg0

unfoldable pub read_mtvec : Hart → ℕ
read_mtvec hart = hart.csr mtvec

unfoldable pub read_stvec : Hart → ℕ
read_stvec hart = hart.csr stvec

unfoldable pub read_tp : Hart → ℕ
read_tp hart = hart.tp

unfoldable pub write_tp : ℕ → Hart → Hart
write_tp id hart = record hart { tp = id }

module _ (hw : Hardware) where
  unfoldable pub write_mstatus : ℕ → Hart → Hart
  write_mstatus v hart = hw.csrw mstatus v hart

  unfoldable pub write_mepc : ℕ → Hart → Hart
  write_mepc v hart = hw.csrw mepc v hart

  unfoldable pub write_status : ℕ → Hart → Hart
  write_status v hart = hw.csrw sstatus v hart

  unfoldable pub write_sip : ℕ → Hart → Hart
  write_sip v hart = hw.csrw sip v hart

  unfoldable pub write_sie : ℕ → Hart → Hart
  write_sie v hart = hw.csrw sie v hart

  unfoldable pub write_mie : ℕ → Hart → Hart
  write_mie v hart = hw.csrw mie v hart

  unfoldable pub write_satp : ℕ → Hart → Hart
  write_satp v hart = hw.csrw satp v hart

  unfoldable pub write_medeleg : ℕ → Hart → Hart
  write_medeleg v hart = hw.csrw medeleg v hart

  unfoldable pub write_mideleg : ℕ → Hart → Hart
  write_mideleg v hart = hw.csrw mideleg v hart

  unfoldable pub write_pmpaddr0 : ℕ → Hart → Hart
  write_pmpaddr0 v hart = hw.csrw pmpaddr0 v hart

  unfoldable pub write_pmpcfg0 : ℕ → Hart → Hart
  write_pmpcfg0 v hart = hw.csrw pmpcfg0 v hart

  unfoldable pub write_mscratch : ℕ → Hart → Hart
  write_mscratch v hart = hw.csrw mscratch v hart

  unfoldable pub write_mtvec : ℕ → Hart → Hart
  write_mtvec v hart = hw.csrw mtvec v hart

  unfoldable pub write_stvec : ℕ → Hart → Hart
  write_stvec v hart = hw.csrw stvec v hart

  unfoldable pub call_mret : Hart → Hart
  call_mret hart = hw.mret hart

  unfoldable pub flush_tlb : Hart → Hart
  flush_tlb hart = hw.sfence_vma hart

-- Registers that show bits of one another: a write to one may change the other.
abbrev pub shares : Csr → Csr → Bool
shares mstatus mstatus = true
shares mstatus sstatus = true
shares sstatus mstatus = true
shares sstatus sstatus = true
shares mie mie = true
shares mie sie = true
shares sie sie = true
shares sie mie = true
shares mideleg mideleg = true
shares mideleg sie = true
shares mideleg sip = true
shares mhartid mhartid = true
shares mcause mcause = true
shares scause scause = true
shares mepc mepc = true
shares sip sip = true
shares satp satp = true
shares medeleg medeleg = true
shares pmpaddr0 pmpaddr0 = true
shares pmpcfg0 pmpcfg0 = true
shares mscratch mscratch = true
shares mtvec mtvec = true
shares stvec stvec = true
shares _ _ = false

-- Values that a register holds as they are written: instruction addresses and trap vectors in direct
-- mode, no translation, addresses of 54 bits and the flags of the first region of memory protection.
abbrev pub holds : Csr → ℕ → Bool
holds mepc v = v % 4 == 0
holds mtvec v = v % 4 == 0
holds stvec v = v % 4 == 0
holds mscratch v = ltb v (2 ^ 64)
holds satp v = v == 0
holds pmpaddr0 v = ltb v (2 ^ 54)
holds pmpcfg0 v = v == 15
holds _ _ = false

-- The field MPP of `mstatus`, and the mode that it names.
abbrev pub mpp : ℕ → ℕ
mpp status = status / 2 ^ 11 % 4

abbrev pub bit : ℕ → ℕ → ℕ
bit k word = word / 2 ^ k % 2

pub record IsRiscv (hw : Hardware) : Type 0 where
  pub own : (r : Csr) (v : ℕ) (hart : Hart) → holds r v ≡ true → (hw.csrw r v hart).csr r ≡ v
  pub other :
      (r q : Csr) (v : ℕ) (hart : Hart) → shares r q ≡ false → (hw.csrw r v hart).csr q ≡ hart.csr q
  pub tp : (r : Csr) (v : ℕ) (hart : Hart) → (hw.csrw r v hart).tp ≡ hart.tp
  -- A value that names a mode stands in MPP as it is written.
  pub mpp_written :
      (v : ℕ) (hart : Hart) → mpp v ≡ 1 → mpp ((hw.csrw mstatus v hart).csr mstatus) ≡ 1
  pub mtie_written : (v : ℕ) (hart : Hart) → bit 7 ((hw.csrw mie v hart).csr mie) ≡ bit 7 v
  -- `mret` goes to `mepc` in the mode that MPP names, and changes no register but the status.
  pub mret_pc : (hart : Hart) → (hw.mret hart).pc ≡ hart.csr mepc
  pub mret_mode : (hart : Hart) → mpp (hart.csr mstatus) ≡ 1 → (hw.mret hart).mode ≡ supervisor
  pub mret_csr :
      (q : Csr) (hart : Hart) → shares mstatus q ≡ false → (hw.mret hart).csr q ≡ hart.csr q
  pub mret_tp : (hart : Hart) → (hw.mret hart).tp ≡ hart.tp
