-- ===== src/Boot/Start.antt =====
-- The hart behind `_start` of src/main.rs, and what `_start` writes to memory.
use reedos.Common.{ℕ, ◌+◌, ◌-◌, ◌%◌, ◌^◌, ◌<◌, ◌≡◌, refl, ap, ◌∙◌, arith}
use reedos.Machine.{Mem, done, update, usize_top}
use reedos.Riscv.{
  Hart, Hardware, IsRiscv, supervisor, mepc, satp, pmpaddr0, pmpcfg0, mtvec, mhartid, mie, mstatus,
  bit, call_mret,
}
use reedos.Clint.Deadline.{mtime_at, mtimecmp_at, set_mtimecmp-done}
use reedos.Trap.{Vectors}
use reedos.Boot.{enable_timer, timerinit, configure, start}
use reedos.Boot.Registers.{
  enable_timer-kept, enable_timer-mtvec, enable_timer-mtie, enable_timer-mpp, enable_timer-tp,
  configure-kept, configure-mepc, configure-satp, configure-pmpaddr0, configure-pmpcfg0,
  configure-mpp, configure-tp,
}

-- In `main` in supervisor mode, without paging, with all of memory open to that mode, the timer
-- interrupt enabled and the hart's number in `tp`.
pub record Started (vectors : Vectors) (fn_main hartid : ℕ) (hart : Hart) : Type 0 where
  pub mode : hart.mode ≡ supervisor
  pub pc : hart.pc ≡ fn_main
  pub paging : hart.csr satp ≡ 0
  pub region : hart.csr pmpaddr0 ≡ 2 ^ 54 - 1
  pub access : hart.csr pmpcfg0 ≡ 15
  pub vector : hart.csr mtvec ≡ vectors.mtrapvec
  pub timer : bit 7 (hart.csr mie) ≡ 1
  pub number : hart.tp ≡ hartid
  pub kept : hart.csr mhartid ≡ hartid

module _ (hw : Hardware) (law : IsRiscv hw) (vectors : Vectors) (fn_main : ℕ) (hart : Hart) where
  Started-mret :
      fn_main % 4 ≡ 0
      → vectors.mtrapvec % 4 ≡ 0
      → hart.csr mstatus < 2 ^ 64
      → Started vectors fn_main
          (hart.csr mhartid)
          (call_mret hw (enable_timer hw vectors (configure hw fn_main hart)))
  unfolding call_mret
  Started-mret main_aligned vector_aligned word =
      let hart' : Hart = configure hw fn_main hart in
      let timer : Hart = enable_timer hw vectors hart' in
      record {
        mode =
            law.mret_mode timer
              (enable_timer-mpp hw law vectors hart' (configure-mpp hw law fn_main hart word));
        pc =
            law.mret_pc timer
            ∙ (enable_timer-kept hw law vectors hart' mepc refl
                ∙ configure-mepc hw law fn_main hart main_aligned);
        paging =
            law.mret_csr satp timer refl
            ∙ (enable_timer-kept hw law vectors hart' satp refl
                ∙ configure-satp hw law fn_main hart);
        region =
            law.mret_csr pmpaddr0 timer refl
            ∙ (enable_timer-kept hw law vectors hart' pmpaddr0 refl
                ∙ configure-pmpaddr0 hw law fn_main hart);
        access =
            law.mret_csr pmpcfg0 timer refl
            ∙ (enable_timer-kept hw law vectors hart' pmpcfg0 refl
                ∙ configure-pmpcfg0 hw law fn_main hart);
        vector =
            law.mret_csr mtvec timer refl ∙ enable_timer-mtvec hw law vectors hart' vector_aligned;
        timer = ap (bit 7) (law.mret_csr mie timer refl) ∙ enable_timer-mtie hw law vectors hart';
        number =
            law.mret_tp timer
            ∙ (enable_timer-tp hw law vectors hart' ∙ configure-tp hw law fn_main hart);
        kept =
            law.mret_csr mhartid timer refl
            ∙ (enable_timer-kept hw law vectors hart' mhartid refl
                ∙ configure-kept hw law fn_main hart mhartid refl);
      }

  -- `_start` ends in `main` in supervisor mode: paging is off, all of memory is open to that mode,
  -- the machine's trap vector and timer interrupt are set, `tp` has the hart's number, and in memory
  -- only the hart's own deadline is written, 10^7 ticks from the present time. The hart's number is
  -- below 4095, the addresses of `main` and of the trap vector are aligned, `mstatus` is a word and
  -- the deadline does not overflow.
  pub start-Started :
      (m : Mem)
      → fn_main % 4 ≡ 0
      → vectors.mtrapvec % 4 ≡ 0
      → hart.csr mstatus < 2 ^ 64
      → hart.csr mhartid < 4095
      → m mtime_at + 10_000_000 < usize_top
      → (hart' : Hart) × (start hw vectors fn_main hart m
          ≡ done hart' (update m (mtimecmp_at (hart.csr mhartid)) (m mtime_at + 10_000_000)))
        × Started vectors fn_main (hart.csr mhartid) hart'
  unfolding start timerinit
  start-Started m main_aligned vector_aligned word number room =
      let hart' : Hart = configure hw fn_main hart in
      let e : hart'.csr mhartid ≡ hart.csr mhartid =
        configure-kept hw law fn_main hart mhartid refl in
      (
        call_mret hw (enable_timer hw vectors hart'),
        rw (set_mtimecmp-done hart' 10_000_000 m (omega arith) room, e) refl,
        Started-mret main_aligned vector_aligned word,
      )
