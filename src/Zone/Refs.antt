-- ===== src/Zone/Refs.antt =====
-- The word at the start of a zone (src/vm/vmalloc.rs): the address of the next zone and the count of
-- chunks in use do not interfere.
use reedos.Common.{
  ℕ, ◌+◌, ◌-◌, ◌*◌, ◌/◌, ◌%◌, ◌^◌, ◌≤◌, ◌<◌, ◌≡◌, refl, Bool-cases, none, Result, ==_true, inl, inr,
  arith, ◌==◌, ok, err, ltb-false, ltb-true, leb-false, if◌then◌else◌,
}
use reedos.Common.Bits.{bit_and_low, bit_and_high, bit_or_low}
use reedos.Machine.{Mem, done, panic, update, usize_top, page_size}
use reedos.Machine.Laws.{IsWord, write-done, add-done, sub-done, sub-panic}
use reedos.Palloc.{Pool, VmError, pfree}
use reedos.Zone.{
  Zone, null_zone, max_refs, get_refs, get_next, unwrap_or, write_refs, write_next, increment_refs,
  decrement_refs, next_zone, free_self, link_past,
}

pub get_refs_lem : (z : Zone) → get_refs z ≡ z.next % page_size
unfolding get_refs
get_refs_lem z = bit_and_low 12 z.next

module _ (z : Zone) (h : z.next < usize_top) where
  next_addr : ℕ
  next_addr = z.next / page_size * page_size

  pub get_next_lem : get_next z ≡ (
      if z.next / page_size * page_size == 0
      then err null_zone
      else ok (z.next / page_size * page_size))
  unfolding get_next
  get_next_lem = rw (bit_and_high 12 52 z.next (omega arith)) refl

  pub next_or_null : unwrap_or 0 (get_next z) ≡ z.next / page_size * page_size
  next_or_null = elim (Bool-cases (z.next / page_size * page_size == 0)) [
    | inl e ↦ rw (get_next_lem, e) (ground arith)
    | inr e ↦ rw (get_next_lem, e) refl
  ]

  pub write_refs-done :
      (w : IsWord z.base) (c : ℕ) (m : Mem)
      → c < page_size
      → write_refs z c m
        ≡ done
            (record z { next = z.next / page_size * page_size + c })
            (update m z.base (z.next / page_size * page_size + c))
  unfolding write_refs
  write_refs-done w c m s =
      rw
        (
          next_or_null,
          bit_or_low 12 (z.next / page_size) c s,
          write-done w m (z.next / page_size * page_size + c),
        )
        refl

  -- One more chunk in use: the count goes up, and the next zone stays.
  pub increment_refs-done :
      (w : IsWord z.base) (m : Mem)
      → z.next % page_size < 510
      → increment_refs z m
        ≡ done (ok tt, record z { next = z.next + 1 }) (update m z.base (z.next + 1))
  unfolding increment_refs
  increment_refs-done w m few =
      let e : z.next / page_size * page_size + (z.next % page_size + 1) ≡ z.next + 1 =
        omega arith in
      rw
        (
          get_refs_lem z,
          add-done (z.next % page_size) 1 m (omega arith),
          ltb-false 510 (z.next % page_size + 1) (omega arith),
          write_refs-done w (z.next % page_size + 1) m (omega arith),
          e,
        )
        refl

  -- At 510 chunks in use the count stays as it is.
  pub increment_refs-full :
      (m : Mem) → 510 ≤ z.next % page_size → increment_refs z m ≡ done (err max_refs, z) m
  unfolding increment_refs
  increment_refs-full m many =
      rw
        (
          get_refs_lem z,
          add-done (z.next % page_size) 1 m (omega arith),
          ltb-true 510 (z.next % page_size + 1) (omega arith),
        )
        refl

  pub decrement_refs-done :
      (w : IsWord z.base) (m : Mem)
      → 0 < z.next % page_size
      → decrement_refs z m
        ≡ done
            (ok (z.next % page_size - 1), record z { next = z.next - 1 })
            (update m z.base (z.next - 1))
  unfolding decrement_refs
  decrement_refs-done w m some_used =
      let e : z.next / page_size * page_size + (z.next % page_size - 1) ≡ z.next - 1 =
        omega arith in
      rw
        (
          get_refs_lem z,
          sub-done (z.next % page_size) 1 m some_used,
          leb-false (2 ^ 63) (z.next % page_size - 1) (omega arith),
          write_refs-done w (z.next % page_size - 1) m (omega arith),
          e,
        )
        refl

  pub write_next-done :
      (w : IsWord z.base) (new_next : ℕ) (m : Mem)
      → new_next % page_size ≡ 0
      → write_next z new_next m ≡ done tt (update m z.base (new_next + z.next % page_size))
  unfolding write_next
  write_next-done w new_next m al =
      let e : new_next / page_size * page_size ≡ new_next = omega arith in
      rw
        (
          get_refs_lem z,
          ← e,
          bit_or_low 12 (new_next / page_size) (z.next % page_size) (omega arith),
          write-done w m (new_next / page_size * page_size + z.next % page_size),
        )
        refl

pub decrement_refs-zero : (z : Zone) (m : Mem) → z.next % page_size ≡ 0 → decrement_refs z m ≡ panic
unfolding decrement_refs
decrement_refs-zero z m h = rw (get_refs_lem z, h, sub-panic 0 1 m (omega arith)) refl

-- The page of a zone without chunks in use and without a next zone goes back to the pool.
pub free_self-last :
    (pool pool' : Pool) (drop prev : Zone) (m m' : Mem) (result : Result VmError (Unit {0}))
    → drop.next % page_size ≡ 0
    → next_zone drop m ≡ done none m
    → IsWord prev.base
    → prev.next < usize_top
    → pfree pool drop.base (update m prev.base (0 + prev.next % page_size))
      ≡ done (result, pool') m'
    → free_self pool drop prev m ≡ done pool' m'
unfolding free_self link_past
free_self-last pool pool' drop prev m m' result e next w h ran =
    rw
      (
        get_refs_lem drop,
        ==_true (drop.next % page_size) 0 e,
        next,
        write_next-done prev h w 0 m refl,
        ran,
      )
      refl
