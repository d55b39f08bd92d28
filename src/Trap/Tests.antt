-- ===== src/Trap/Tests.antt =====
-- The theorems on the timer of src/trap.rs, with two harts.
use reedos.Common.{ℕ, ◌+◌, ◌<◌, ◌≤◌, ◌≡◌, refl, arith, suc}
use reedos.Machine.{Mem, done, update}
use reedos.Riscv.{Csr, Hart, machine, mhartid, mcause, mstatus_timer}
use reedos.Clint.Deadline.{mtime_at, mtimecmp_at}
use reedos.Trap.{m_handler}
use reedos.Trap.Timer.{
  interval, m_handler-timer, Timers, start, next, tick, interrupt, InTime, Timers-InTime, ticks,
  timer_again,
}

-- Hart 1 in its handler.
abbrev registers : Csr → ℕ
registers mhartid = 1
registers mcause = mstatus_timer
registers _ = 0

abbrev hart : Hart
hart = record { csr = registers; tp = 1; mode = machine; pc = 0x80000100 }

abbrev first : Mem
first = update (λ q. 0) mtime_at 55

first-InTime : InTime first
unfolding update
first-InTime = record { bound = λ h lt. ground arith }

abbrev later : Mem
later = update first mtime_at (suc (first mtime_at))

abbrev handled : Mem
handled = update later (mtimecmp_at 1) (later mtime_at + interval)

-- A tick, and the interrupt of hart 1.
handled-Timers : Timers first handled
unfolding update
handled-Timers = next (next start tick) (
    interrupt hart refl (omega arith) (omega arith)
      (m_handler-timer hart later refl (omega arith) (omega arith)))

Timers-InTime_example : InTime handled
Timers-InTime_example = Timers-InTime first handled first-InTime handled-Timers

timer_again_example :
    (ticks interval handled (mtimecmp_at 1) ≤ ticks interval handled mtime_at)
    × (m' : Mem) × (m_handler hart (ticks interval handled) ≡ done tt m')
    × (m' mtime_at < m' (mtimecmp_at 1))
unfolding update
timer_again_example =
    timer_again first handled hart first-InTime handled-Timers refl (omega arith) (omega arith)
