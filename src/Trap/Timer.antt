-- ===== src/Trap/Timer.antt =====
-- The machine trap handler of src/trap.rs, and the timers of the harts as steps of the time and of
-- the handler.
use reedos.Common.{
  ℕ, zero, suc, ◌+◌, ◌*◌, ◌<◌, ◌≤◌, ◌≡◌, ◌≢◌, refl, sym, ap, ◌∙◌, subst, arith, Bool-cases, inl,
  inr, ltb,
}
use reedos.Machine.{Mem, Run, done, panic, fault, out_of_fuel, update, usize_top}
use reedos.Machine.Laws.{update_self, update_ne}
use reedos.Riscv.{Hart, mhartid, mcause, read_mcause, mstatus_timer}
use reedos.Clint.Deadline.{mtime_at, mtimecmp_at, set_mtimecmp-done, set_mtimecmp-late}
use reedos.Trap.{m_handler}

abbrev pub interval : ℕ
interval = 10_000_000

module _ (hart : Hart) (m : Mem) where
  -- A timer interrupt moves the deadline of the hart to 10^7 ticks from the present time and changes
  -- no other word, where the hart's number is below 4095 and the deadline does not overflow.
  pub m_handler-timer :
      hart.csr mcause ≡ mstatus_timer
      → hart.csr mhartid < 4095
      → m mtime_at + interval < usize_top
      → m_handler hart m
        ≡ done tt (update m (mtimecmp_at (hart.csr mhartid)) (m mtime_at + interval))
  unfolding m_handler read_mcause
  m_handler-timer cause number room = rw cause (set_mtimecmp-done hart interval m number room)

  -- Every other cause is a panic.
  pub m_handler-panic : hart.csr mcause ≢ mstatus_timer → m_handler hart m ≡ panic
  unfolding m_handler read_mcause
  m_handler-panic cause = ground arith

  pub m_handler-late :
      hart.csr mcause ≡ mstatus_timer
      → hart.csr mhartid < 4095
      → usize_top ≤ m mtime_at + interval
      → m_handler hart m ≡ panic
  unfolding m_handler read_mcause
  m_handler-late cause number late = rw cause (set_mtimecmp-late hart interval m number late)

-- The time advances, or a hart whose deadline has come takes its interrupt.
pub data TimerStep : Mem → Mem → Type 0 where
  tick : {m : Mem} → TimerStep m (update m mtime_at (suc (m mtime_at)))
  interrupt :
      {m m' : Mem} (hart : Hart)
      → hart.csr mcause ≡ mstatus_timer
      → hart.csr mhartid < 4095
      → m (mtimecmp_at (hart.csr mhartid)) ≤ m mtime_at
      → m_handler hart m ≡ done tt m'
      → TimerStep m m'

pub data Timers (first : Mem) : Mem → Type 0 where
  start : Timers first first
  next : {m m' : Mem} → Timers first m → TimerStep m m' → Timers first m'

-- No hart's next interrupt is further away than the interval.
pub record InTime (m : Mem) : Type 0 where
  pub bound : (h : ℕ) → h < 4095 → m (mtimecmp_at h) ≤ m mtime_at + interval

memory_of : Mem → Run (Unit {0}) → Mem
memory_of m (done _ m') = m'
memory_of m panic = m
memory_of m fault = m
memory_of m out_of_fuel = m

handler_memory :
    (hart : Hart) (m m' : Mem)
    → hart.csr mcause ≡ mstatus_timer
    → hart.csr mhartid < 4095
    → m_handler hart m ≡ done tt m'
    → update m (mtimecmp_at (hart.csr mhartid)) (m mtime_at + interval) ≡ m'
unfolding memory_of
handler_memory hart m m' cause number run =
    elim (Bool-cases (ltb (m mtime_at + interval) usize_top)) [
      | inl e ↦ ap (memory_of m) (sym (m_handler-timer hart m cause number (ground arith)) ∙ run)
      | inr e ↦ cc (m_handler-late hart m cause number (ground arith), run)
    ]

InTime-tick : (m : Mem) → InTime m → InTime (update m mtime_at (suc (m mtime_at)))
unfolding update
InTime-tick m i = record { bound = λ h lt. ground (arith, i.bound h) }

InTime-deadline :
    (m : Mem) (k : ℕ)
    → k < 4095
    → InTime m
    → InTime (update m (mtimecmp_at k) (m mtime_at + interval))
unfolding update
InTime-deadline m k lt i = record { bound = λ h lt'. ground (arith, i.bound h) }

-- From a memory in which no hart's next interrupt is further away than 10^7 ticks, the time and the
-- interrupts of the harts, in any order, never lead to one in which it is.
pub Timers-InTime : (first m : Mem) → InTime first → Timers first m → InTime m
Timers-InTime first _ i start = i
Timers-InTime first _ i (next {m = m} run tick) = InTime-tick m (Timers-InTime first m i run)
Timers-InTime first _ i (next {m = m} {m' = m'} run (interrupt hart cause number come handled)) =
    subst InTime (handler_memory hart m m' cause number handled)
      (InTime-deadline m (hart.csr mhartid) number (Timers-InTime first m i run))

-- The memory after some ticks.
pub ticks : ℕ → Mem → Mem
ticks zero m = m
ticks (suc n) m = ticks n (update m mtime_at (suc (m mtime_at)))

ticks-mtime : (n : ℕ) (m : Mem) → ticks n m mtime_at ≡ m mtime_at + n
unfolding ticks
ticks-mtime zero m = omega arith
ticks-mtime (suc n) m = omega (
  arith,
  ticks-mtime n (update m mtime_at (suc (m mtime_at))),
  update_self m mtime_at (suc (m mtime_at)),
)

ticks-other : (n p : ℕ) (m : Mem) → p ≢ mtime_at → ticks n m p ≡ m p
unfolding ticks
ticks-other zero p m h = refl
ticks-other (suc n) p m h =
    ticks-other n p (update m mtime_at (suc (m mtime_at))) h
    ∙ update_ne m mtime_at p (suc (m mtime_at)) h

-- At any time in such a run, 10^7 ticks on, the deadline of each hart has come, and the handler of
-- the hart, entered for the timer, ends and leaves a deadline that is ahead of the time. The time does
-- not overflow.
pub timer_again :
    (first m : Mem) (hart : Hart)
    → InTime first
    → Timers first m
    → hart.csr mcause ≡ mstatus_timer
    → hart.csr mhartid < 4095
    → m mtime_at + 2 * interval < usize_top
    → (ticks interval m (mtimecmp_at (hart.csr mhartid)) ≤ ticks interval m mtime_at)
      × (m' : Mem) × (m_handler hart (ticks interval m) ≡ done tt m')
      × (m' mtime_at < m' (mtimecmp_at (hart.csr mhartid)))
timer_again first m hart i run cause number room =
    let later : Mem = ticks interval m in
    let deadline : ℕ = mtimecmp_at (hart.csr mhartid) in
    let now = ticks-mtime interval m in
    let old = ticks-other interval deadline m (omega arith) in
    let bound = (Timers-InTime first m i run).bound (hart.csr mhartid) number in
    (
      omega (arith, now, old, bound),
      update later deadline (later mtime_at + interval),
      m_handler-timer hart later cause number (omega (arith, now)),
      omega (
        arith,
        update_self later deadline (later mtime_at + interval),
        update_ne later deadline mtime_at (later mtime_at + interval) (omega arith),
      ),
    )
