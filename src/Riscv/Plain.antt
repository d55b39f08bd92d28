-- ===== src/Riscv/Plain.antt =====
-- A hart that keeps every value written to a register, which is `IsRiscv` of src/hw/riscv.rs.
use reedos.Common.{ℕ, ◌≡◌, refl, true, ◌==◌, if◌then◌else◌, ==_true}
use reedos.Riscv.{
  Csr, Hart, Hardware, IsRiscv, shares, mpp, supervisor, machine, mhartid, mstatus, mcause, scause,
  mepc, sstatus, sip, sie, mie, satp, medeleg, mideleg, pmpaddr0, pmpcfg0, mscratch, mtvec, stvec,
}

abbrev keep : Csr → ℕ → Hart → Hart
keep r v hart = record hart { csr = λ q. if shares r q then v else hart.csr q }

abbrev back : Hart → Hart
back hart = record hart {
  mode = if mpp (hart.csr mstatus) == 1 then supervisor else machine;
  pc = hart.csr mepc;
}

abbrev pub plain : Hardware
plain = record { csrw = keep; mret = back; sfence_vma = λ hart. hart }

shares_self : (r : Csr) → shares r r ≡ true
shares_self mhartid = refl
shares_self mstatus = refl
shares_self mcause = refl
shares_self scause = refl
shares_self mepc = refl
shares_self sstatus = refl
shares_self sip = refl
shares_self sie = refl
shares_self mie = refl
shares_self satp = refl
shares_self medeleg = refl
shares_self mideleg = refl
shares_self pmpaddr0 = refl
shares_self pmpcfg0 = refl
shares_self mscratch = refl
shares_self mtvec = refl
shares_self stvec = refl

pub plain-IsRiscv : IsRiscv plain
plain-IsRiscv = record {
  own = λ r v hart h. rw (shares_self r) refl;
  other = λ r q v hart h. rw h refl;
  tp = λ r v hart. refl;
  mpp_written = λ v hart h. h;
  mtie_written = λ v hart. refl;
  mret_pc = λ hart. refl;
  mret_mode = λ hart h. rw (==_true (mpp (hart.csr mstatus)) 1 h) refl;
  mret_csr = λ q hart h. refl;
  mret_tp = λ hart. refl;
}
