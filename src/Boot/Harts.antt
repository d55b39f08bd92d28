-- ===== src/Boot/Harts.antt =====
-- The harts other than hart 0, from `_start` to the last loop of `main` in src/main.rs.
use reedos.Common.{ℕ, ◌+◌, ◌%◌, ◌^◌, ◌<◌, ◌≡◌, ◌≢◌, refl, ◌∙◌, arith, ==_gt}
use reedos.Machine.{Mem, Cmd, done, update, usize_top, ◌>>=◌}
use reedos.Riscv.{
  Hart, Hardware, IsRiscv, satp, mhartid, mstatus, stvec, mtvec, write_stvec, read_tp,
}
use reedos.Clint.Deadline.{mtime_at, mtimecmp_at}
use reedos.Trap.{Vectors}
use reedos.Trap
use reedos.Uart.{Chip}
use reedos.Ptable.{Linker}
use reedos.Galloc.{Globals}
use reedos.Boot.{start, main}
use reedos.Boot.Start.{Started, start-Started}

-- Behind its set-up a hart has the trap vectors of both modes and no paging.
pub record Waiting (vectors : Vectors) (number : ℕ) (hart : Hart) : Type 0 where
  pub supervisor_vector : hart.csr stvec ≡ vectors.strapvec
  pub machine_vector : hart.csr mtvec ≡ vectors.mtrapvec
  pub paging : hart.csr satp ≡ 0
  pub number_kept : hart.tp ≡ number

module _ {D : Type 0} (chip : Chip D) (hw : Hardware) (law : IsRiscv hw) (vectors : Vectors)
    (linker : Linker) (test_galloc : Globals → Cmd Globals) (fn_main : ℕ) where
  main-other :
      (hart : Hart) (globals : Globals) (device : D) (number : ℕ) (m : Mem)
      → Started vectors fn_main number hart
      → number ≢ 0
      → main chip hw vectors linker test_galloc hart globals device m
        ≡ done (Trap.init hw vectors hart, globals, device) m
  unfolding main read_tp
  main-other hart globals device number m started other =
      rw (started.number, ==_gt number 0 (omega arith)) refl

  init-Waiting :
      (hart : Hart) (number : ℕ)
      → vectors.strapvec % 4 ≡ 0
      → Started vectors fn_main number hart
      → Waiting vectors number (Trap.init hw vectors hart)
  unfolding Trap.init write_stvec
  init-Waiting hart number aligned started = record {
    supervisor_vector = law.own stvec vectors.strapvec hart (ground arith);
    machine_vector = law.other stvec mtvec vectors.strapvec hart refl ∙ started.vector;
    paging = law.other stvec satp vectors.strapvec hart refl ∙ started.paging;
    number_kept = law.tp stvec vectors.strapvec hart ∙ started.number;
  }

  -- A hart other than hart 0, by the conditions under which `_start` ends, goes through `_start` and
  -- `main` without a panic: it has both trap vectors and no paging, and the statics, the serial port
  -- and memory are as they were, but for its own deadline.
  pub start-main-other :
      (hart : Hart) (globals : Globals) (device : D) (m : Mem)
      → fn_main % 4 ≡ 0
      → vectors.mtrapvec % 4 ≡ 0
      → vectors.strapvec % 4 ≡ 0
      → hart.csr mstatus < 2 ^ 64
      → hart.csr mhartid < 4095
      → hart.csr mhartid ≢ 0
      → m mtime_at + 10_000_000 < usize_top
      → (hart' : Hart) × ((start hw vectors fn_main hart >>= λ started.
              main chip hw vectors linker test_galloc started globals device)
            m
          ≡ done
              (hart', globals, device)
              (update m (mtimecmp_at (hart.csr mhartid)) (m mtime_at + 10_000_000)))
        × Waiting vectors (hart.csr mhartid) hart'
  start-main-other hart globals device m main_aligned m_aligned s_aligned word number other room =
      let (hart', run, started) =
        start-Started hw law vectors fn_main hart m main_aligned m_aligned word number room in
      (
        Trap.init hw vectors hart',
        rw run (main-other hart' globals device (hart.csr mhartid) _ started other),
        init-Waiting hart' (hart.csr mhartid) s_aligned started,
      )
