-- ===== src/Mutex.antt =====
-- The spinlock of src/lock/mutex.rs. The harts that share one mutex are numbers; an atomic operation
-- is one step, so the acquire and release orders appear as the order of the steps.
pub mod Safety
mod Tests
use reedos.Common.{ℕ, ◌≡◌, Bool, true, false, not, ◌==◌, if◌then◌else◌}

pub record Mutex (T : Type 0) : Type 0 where
  pub lock_state : ℕ
  pub inner : T

-- A hart outside, in the loop of `lock`, or with a `MutexGuard`.
pub data Place : Type 0 where
  outside : Place
  locking : Place
  guarded : Place

abbrev pub Places : Type 0
Places = ℕ → Place

abbrev pub move : Places → ℕ → Place → Places
move places hart place h = if h == hart then place else places h

module _ {T : Type 0} where
  unfoldable pub new : T → Mutex T
  new value = record { lock_state = 0; inner = value }

  abbrev pub swap : Mutex T → ℕ → ℕ × Mutex T
  swap mutex v = (mutex.lock_state, record mutex { lock_state = v })

  abbrev pub store : Mutex T → ℕ → Mutex T
  store mutex v = record mutex { lock_state = v }

  -- One round of the loop of `lock`: whether it ends, and the mutex after it.
  unfoldable pub lock_round : Mutex T → Bool × Mutex T
  lock_round mutex = let (old, mutex') = swap mutex 1 in (not (old == 1), mutex')

  -- `MutexGuard::drop`
  unfoldable pub drop : Mutex T → Mutex T
  drop mutex = store mutex 0

  -- `MutexGuard::deref_mut`, with what its user does to the value.
  unfoldable pub deref_mut : (T → T) → Mutex T → Mutex T
  deref_mut f mutex = record mutex { inner = f mutex.inner }

  pub data Step : Mutex T → Places → Mutex T → Places → Type 0 where
    lock_call :
        {mutex : Mutex T} {places : Places} (hart : ℕ)
        → places hart ≡ outside
        → Step mutex places mutex (move places hart locking)
    spin :
        {mutex : Mutex T} {places : Places} (hart : ℕ)
        → places hart ≡ locking
        → (lock_round mutex).0 ≡ false
        → Step mutex places (lock_round mutex).1 places
    acquire :
        {mutex : Mutex T} {places : Places} (hart : ℕ)
        → places hart ≡ locking
        → (lock_round mutex).0 ≡ true
        → Step mutex places (lock_round mutex).1 (move places hart guarded)
    access :
        {mutex : Mutex T} {places : Places} (hart : ℕ) (f : T → T)
        → places hart ≡ guarded
        → Step mutex places (deref_mut f mutex) places
    release :
        {mutex : Mutex T} {places : Places} (hart : ℕ)
        → places hart ≡ guarded
        → Step mutex places (drop mutex) (move places hart outside)

  pub data Reachable (value : T) : Mutex T → Places → Type 0 where
    start : Reachable value (new value) (λ hart. outside)
    next :
        {mutex mutex' : Mutex T} {places places' : Places}
        → Reachable value mutex places
        → Step mutex places mutex' places'
        → Reachable value mutex' places'
