-- ===== src/Palloc/Steps.antt =====
-- The accesses to one page of RAM in src/vm/palloc.rs, as updates of memory.
use reedos.Common.{ℕ, ◌+◌, ◌-◌, ◌*◌, ◌/◌, ◌%◌, ◌≤◌, ◌<◌, ◌≡◌, ◌⊎◌, arith}
use reedos.Machine.{Mem, done, add, update, page_size, dram_base, dram_end}
use reedos.Machine.Laws.{IsWord, add-done, read-done, write-done, write_zeros-done}
use reedos.Palloc.{zero_page, write_next, write_prev, read_free}
use reedos.Palloc.Links.{InRange}

-- A page of RAM.
abbrev pub IsPage : ℕ → Type 0
IsPage = InRange dram_base dram_end

abbrev pub SameOutside : Mem → Mem → ℕ → ℕ → Type 0
SameOutside m m' lo hi = (q : ℕ) → (q < lo) ⊎ (hi ≤ q) → m' q ≡ m q

-- Every word from `lo` to `hi` is zero.
abbrev pub IsZero : Mem → ℕ → ℕ → Type 0
IsZero m lo hi = (q : ℕ) → lo ≤ q → q < hi → q % 8 ≡ 0 → m q ≡ 0

pub IsPage-of_range :
    (lo hi page : ℕ) → dram_base ≤ lo → hi ≤ dram_end → InRange lo hi page → IsPage page
IsPage-of_range lo hi page l h r = omega arith

module _ (page : ℕ) (r : IsPage page) (m : Mem) where
  pub write_prev-IsWord : IsWord page
  write_prev-IsWord = omega arith

  pub write_next-IsWord : IsWord (page + 8)
  write_next-IsWord = omega arith

  pub read_free-done : read_free page m ≡ done (m page, m (page + 8)) m
  unfolding read_free
  read_free-done = rw (read-done write_prev-IsWord m, read-done write_next-IsWord m)

  pub write_prev-done : (v : ℕ) → write_prev page v m ≡ done tt (update m page v)
  unfolding write_prev
  write_prev-done v = write-done write_prev-IsWord m v

  pub write_next-done : (v : ℕ) → write_next page v m ≡ done tt (update m (page + 8) v)
  unfolding write_next
  write_next-done v = write-done write_next-IsWord m v

  pub add_page-done : add page page_size m ≡ done (page + page_size) m
  add_page-done = add-done page page_size m (omega arith)

  pub zero_page-done :
      (m' : Mem) × (zero_page page m ≡ done tt m')
      × IsZero m' page (page + page_size)
      × SameOutside m m' page (page + page_size)
  unfolding zero_page
  zero_page-done =
      let (m', run, z) = write_zeros-done 512 page m (omega arith) (omega arith) (omega arith) in
      (
        m',
        run,
        (λ q l h al.
            let e : page + 8 * ((q - page) / 8) ≡ q = omega arith in
            rw e at (z.zeros ((q - page) / 8) (omega arith))),
        λ q h. z.same q (omega arith),
      )
