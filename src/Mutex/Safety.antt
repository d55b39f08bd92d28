-- ===== src/Mutex/Safety.antt =====
-- At most one hart has a guard of a mutex of src/lock/mutex.rs, and a free mutex is never refused.
use reedos.Common.{
  ℕ, ◌≡◌, ◌≢◌, ◌∙◌, ◌⊎◌, inl, inr, refl, sym, arith, true, false, ◌==◌, ==_true, Bool-cases,
}
use reedos.Mutex.{
  Mutex, Place, Places, outside, locking, guarded, new, lock_round, drop, deref_mut, move, Step,
  lock_call, spin, acquire, access, release, Reachable, start, next,
}

move_other :
    (places : Places) (hart h : ℕ) (place : Place)
    → place ≢ guarded
    → move places hart place h ≡ guarded
    → (h ≢ hart) × (places h ≡ guarded)
move_other places hart h place ne e = elim (Bool-cases (h == hart)) [
  | inl q ↦ absurd (ne (rw q at e))
  | inr q ↦ (ground arith, rw q at e)
]

move_self : (places : Places) (hart : ℕ) (place : Place) → move places hart place hart ≡ place
move_self places hart place = rw (==_true hart hart refl) refl

move_kept :
    (places : Places) (hart h : ℕ) (place : Place) → h ≢ hart → move places hart place h ≡ places h
move_kept places hart h place ne = elim (Bool-cases (h == hart)) [
  | inl q ↦ absurd (ne (ground arith))
  | inr q ↦ rw q refl
]

module _ {T : Type 0} where
  -- The lock is 0 and nobody has a guard, or it is 1 and one hart has it.
  abbrev Exclusive : Mutex T → Places → Type 0
  Exclusive mutex places =
      ((mutex.lock_state ≡ 0) × ((h : ℕ) → places h ≢ guarded))
      ⊎ ((mutex.lock_state ≡ 1)
          × ((k : ℕ) × (places k ≡ guarded) × ((h : ℕ) → places h ≡ guarded → h ≡ k)))

  round_false : (mutex : Mutex T) → (lock_round mutex).0 ≡ false → mutex.lock_state ≡ 1
  unfolding lock_round
  round_false mutex e = ground arith

  round_true : (mutex : Mutex T) → (lock_round mutex).0 ≡ true → mutex.lock_state ≢ 1
  unfolding lock_round
  round_true mutex e = ground arith

  Exclusive-Step :
      {mutex mutex' : Mutex T} {places places' : Places}
      → Exclusive mutex places
      → Step mutex places mutex' places'
      → Exclusive mutex' places'
  unfolding lock_round drop deref_mut
  Exclusive-Step {places} (inl (z, none)) (lock_call hart e) =
      inl (z, λ h g. none h (move_other places hart h locking (λ q. cc) g).1)
  Exclusive-Step {places} (inr (o, (k, g, only))) (lock_call hart e) = inr (
    o,
    (
      k,
      move_kept places hart k locking (λ q. cc) ∙ g,
      λ h g'. only h (move_other places hart h locking (λ q. cc) g').1,
    ),
  )
  Exclusive-Step {mutex} (inl (z, none)) (spin hart e r) =
      absurd (omega (arith, round_false mutex r))
  Exclusive-Step (inr (o, x)) (spin hart e r) = inr (refl, x)
  Exclusive-Step {places} (inl (z, none)) (acquire hart e r) = inr (
    refl,
    (
      hart,
      move_self places hart guarded,
      λ h g. elim (Bool-cases (h == hart)) [
        | inl q ↦ ground arith
        | inr q ↦ absurd (none h (rw q at g))
      ],
    ),
  )
  Exclusive-Step {mutex} (inr (o, x)) (acquire hart e r) = absurd (round_true mutex r o)
  Exclusive-Step (inl x) (access hart f e) = inl x
  Exclusive-Step (inr x) (access hart f e) = inr x
  Exclusive-Step (inl (z, none)) (release hart e) = absurd (none hart e)
  Exclusive-Step {places} (inr (o, (k, g, only))) (release hart e) = inl (
    refl,
    λ h g'.
        let (ne, g'') = move_other places hart h outside (λ q. cc) g' in
        ne (only h g'' ∙ sym (only hart e)),
  )

  Exclusive-Reachable :
      (value : T) (mutex : Mutex T) (places : Places)
      → Reachable value mutex places
      → Exclusive mutex places
  unfolding new
  Exclusive-Reachable value mutex places start = inl (refl, λ h g. cc)
  Exclusive-Reachable value mutex places (next r s) =
      Exclusive-Step (Exclusive-Reachable value _ _ r) s

  -- In every reachable state, two harts that have a guard of the mutex are the same.
  pub mutual_exclusion :
      (value : T) (mutex : Mutex T) (places : Places) (h k : ℕ)
      → Reachable value mutex places
      → places h ≡ guarded
      → places k ≡ guarded
      → h ≡ k
  mutual_exclusion value mutex places h k r a b = elim (Exclusive-Reachable value mutex places r) [
    | inl (z, none) ↦ absurd (none h a)
    | inr (o, (i, g, only)) ↦ only h a ∙ sym (only k b)
  ]

  -- In every reachable state, the next round of the loop of `lock` ends it, or some hart has a
  -- guard and, once it is dropped, the next round ends the loop.
  pub lock-progress :
      (value : T) (mutex : Mutex T) (places : Places)
      → Reachable value mutex places
      → ((lock_round mutex).0 ≡ true)
        ⊎ ((k : ℕ) × (places k ≡ guarded) × ((lock_round (drop mutex)).0 ≡ true))
  unfolding lock_round drop
  lock-progress value mutex places r = elim (Exclusive-Reachable value mutex places r) [
    | inl (z, none) ↦ inl (rw z refl)
    | inr (o, (i, g, only)) ↦ inr (i, g, refl)
  ]
