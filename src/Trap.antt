-- ===== src/Trap.antt =====
-- The trap handlers, src/trap.rs. The entries in src/asm/trap.s are the addresses of `Vectors`.
pub mod Timer
mod Tests
use reedos.Common.{ℕ, ◌==◌, if◌then◌else◌}
use reedos.Machine.{Cmd, panics}
use reedos.Riscv.{Hart, Hardware, read_mcause, mstatus_timer, write_stvec}
use reedos.Clint.{set_mtimecmp}

pub record Vectors : Type 0 where
  pub mtrapvec : ℕ
  pub strapvec : ℕ

unfoldable pub init : Hardware → Vectors → Hart → Hart
init hw vectors hart = write_stvec hw vectors.strapvec hart

unfoldable pub m_handler : Hart → Cmd (Unit {0})
m_handler hart = if read_mcause hart == mstatus_timer then set_mtimecmp hart 10_000_000 else panics

unfoldable pub s_handler : Hart → Cmd (Unit {0})
s_handler hart = panics
