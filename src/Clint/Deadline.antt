-- ===== src/Clint/Deadline.antt =====
-- What `set_mtimecmp` of src/device/clint.rs does to the registers of the interruptor.
use reedos.Common.{ℕ, ◌+◌, ◌*◌, ◌<◌, ◌≤◌, ◌≡◌, refl, arith, true}
use reedos.Machine.{Mem, done, panic, update, usize_top}
use reedos.Machine.Laws.{add-done, add-panic, mul-done}
use reedos.Riscv.{Hart, mhartid, read_mhartid}
use reedos.Clint.{clint_base, read_volatile, write_volatile, set_mtimecmp, is_register}

abbrev pub mtime_at : ℕ
mtime_at = clint_base + 0xBFF8

abbrev pub mtimecmp_at : ℕ → ℕ
mtimecmp_at h = clint_base + (0x4000 + 8 * h)

mtimecmp_at-is_register : (h : ℕ) → h < 4095 → is_register (mtimecmp_at h) ≡ true
mtimecmp_at-is_register h lt = ground arith

-- The time of a hart's next interrupt becomes the present time and the interval, and nothing else
-- changes.
pub set_mtimecmp-done :
    (hart : Hart) (interval : ℕ) (m : Mem)
    → hart.csr mhartid < 4095
    → m mtime_at + interval < usize_top
    → set_mtimecmp hart interval m
      ≡ done tt (update m (mtimecmp_at (hart.csr mhartid)) (m mtime_at + interval))
unfolding set_mtimecmp read_volatile write_volatile read_mhartid
set_mtimecmp-done hart interval m lt room =
    rw
      (
        mul-done 8 (hart.csr mhartid) m (omega arith),
        add-done 0x4000 (8 * hart.csr mhartid) m (omega arith),
        add-done (m mtime_at) interval m room,
        mtimecmp_at-is_register (hart.csr mhartid) lt,
      )
      refl

-- Where the deadline overflows, the hart panics.
pub set_mtimecmp-late :
    (hart : Hart) (interval : ℕ) (m : Mem)
    → hart.csr mhartid < 4095
    → usize_top ≤ m mtime_at + interval
    → set_mtimecmp hart interval m ≡ panic
unfolding set_mtimecmp read_volatile read_mhartid
set_mtimecmp-late hart interval m lt late =
    rw
      (
        mul-done 8 (hart.csr mhartid) m (omega arith),
        add-done 0x4000 (8 * hart.csr mhartid) m (omega arith),
        add-panic (m mtime_at) interval m late,
      )
      refl
