-- ===== src/Mutex/Tests.antt =====
-- The theorems on src/lock/mutex.rs with two harts.
use reedos.Common.{ℕ, ◌≡◌, ◌⊎◌, refl, true}
use reedos.Mutex.{
  Places, outside, locking, guarded, new, lock_round, drop, move, Reachable, start, next, lock_call,
  acquire,
}
use reedos.Mutex.Safety.{mutual_exclusion, lock-progress}

abbrev value : ℕ
value = 7

abbrev hart : ℕ
hart = 0

abbrev both_locking : Places
both_locking = move (move (λ h. outside) 0 locking) 1 locking

abbrev one_guarded : Places
one_guarded = move both_locking 0 guarded

-- Both harts call `lock`, and hart 0 gets the guard.
one_guarded-Reachable : Reachable value (lock_round (new value)).1 one_guarded
unfolding lock_round new
one_guarded-Reachable =
    next (next (next start (lock_call 0 refl)) (lock_call 1 refl)) (acquire 0 refl refl)

mutual_exclusion_example : hart ≡ hart
mutual_exclusion_example =
    mutual_exclusion value (lock_round (new value)).1 one_guarded hart hart one_guarded-Reachable
      refl refl

lock-progress_example :
    ((lock_round (lock_round (new value)).1).0 ≡ true)
    ⊎ ((k : ℕ) × (one_guarded k ≡ guarded)
        × ((lock_round (drop (lock_round (new value)).1)).0 ≡ true))
lock-progress_example =
    lock-progress value (lock_round (new value)).1 one_guarded one_guarded-Reachable
