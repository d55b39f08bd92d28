-- ===== src/Clint.antt =====
-- The core local interruptor, src/device/clint.rs. Its registers are words outside RAM, in the same
-- memory: one time for all harts, which the hardware advances, and a deadline for each hart.
pub mod Deadline
use reedos.Common.{ℕ, ◌+◌, ◌*◌, ◌%◌, Bool, ◌&&◌, ltb, leb, ◌==◌, if◌then◌else◌}
use reedos.Machine.{Cmd, fault, done, ◌>>=◌, add, mul, update}
use reedos.Riscv.{Hart, read_mhartid}

abbrev pub clint_base : ℕ
clint_base = 0x2000000

-- Aligned words of the region of the device, which is 0x10000 bytes long.
abbrev pub is_register : ℕ → Bool
is_register p = leb clint_base p && (leb (p + 8) (clint_base + 0x10000) && (p % 8 == 0))

unfoldable pub read_volatile : ℕ → Cmd ℕ
read_volatile p m = if is_register p then done (m p) m else fault

unfoldable pub write_volatile : ℕ → ℕ → Cmd (Unit {0})
write_volatile p v m = if is_register p then done tt (update m p v) else fault

unfoldable pub read_mtime : Cmd ℕ
read_mtime = read_volatile (clint_base + 0xBFF8)

unfoldable pub set_mtimecmp : Hart → (interval : ℕ) → Cmd (Unit {0})
set_mtimecmp hart interval = do
  mtime ← read_volatile (clint_base + 0xBFF8)
  offset ← mul 8 (read_mhartid hart)
  register ← add 0x4000 offset
  deadline ← add mtime interval
  write_volatile (clint_base + register) deadline
