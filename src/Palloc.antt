-- ===== src/Palloc.antt =====
-- src/vm/palloc.rs: the physical page allocator. A `Page` is the address of its first byte. The
-- free pages form a doubly linked list whose pointers stand in the first two words of each free
-- page. Calls through the mutex around the pool are one at a time, so a `PagePool` is its `Pool`;
-- an operation on `&mut self` returns the new pool. Each `while` takes fuel: as many rounds as the
-- pool, or the request, has pages, and one more.
pub mod Alloc
pub mod AllocPages
pub mod Api
pub mod AllocShort
pub mod Free
pub mod FreeList
pub mod FreePages
pub mod Links
pub mod New
pub mod Region
pub mod RoundTrip
pub mod Splice
pub mod Steps
mod Tests
use Prim.Native.Nat.{bit_and}
use reedos.Common.{
  ℕ, zero, suc, ◌+◌, ◌-◌, ◌/◌, Bool, true, false, not, ◌&&◌, Option, none, some, ltb, leb, ◌==◌,
  if◌then◌else◌, Result, ok, err,
}
use reedos.Machine.{
  Cmd, pure, panics, spins, assert, ◌>>=◌, ◌>>◌, add, sub, mul, read, write, write_zeros, null,
  page_size,
}

-- src/vm.rs
pub data VmError : Type 0 where
  out_of_pages : VmError
  partial_palloc : VmError
  palloc_fail : VmError
  pfree_fail : VmError
  g_no_space : VmError
  koom : VmError

pub data PageError : Type 0 where
  no_gap : PageError

pub record Pool : Type 0 where
  pub free : Option ℕ
  pub bottom : ℕ
  pub top : ℕ

unfoldable pub is_multiple : ℕ → ℕ → Bool
is_multiple addr size = bit_and addr (size - 1) == 0

-- `Page::new` and `Page::zero`
unfoldable pub zero_page : ℕ → Cmd (Unit {0})
zero_page page = write_zeros 512 page

unfoldable pub write_next : ℕ → ℕ → Cmd (Unit {0})
write_next page next = write (page + 8) next

unfoldable pub write_prev : ℕ → ℕ → Cmd (Unit {0})
write_prev page prev = write page prev

unfoldable pub write_free : ℕ → ℕ → ℕ → Cmd (Unit {0})
unfolding write_prev write_next
write_free page prev next = do write_prev page prev; write_next page next

unfoldable pub read_free : ℕ → Cmd (ℕ × ℕ)
read_free page = do prev ← read page; next ← read (page + 8); pure (prev, next)

-- The loop of `Pool::new`.
pub new_loop : ℕ → (chunk top last pa : ℕ) → Cmd (Unit {0})
new_loop zero chunk top last pa = spins
new_loop (suc k) chunk top last pa =
    if ltb pa top
    then (do
      prev_pa ← sub pa chunk
      next_pa ← if pa == last then pure null else add pa chunk
      zero_page pa
      write_free pa prev_pa next_pa
      pa' ← add pa chunk
      new_loop k chunk top last pa')
    else pure tt

-- `Pool::new`
unfoldable pub new_pool : (bottom top chunk : ℕ) → Cmd Pool
unfolding new_loop
new_pool bottom top chunk = do
  zero_page bottom
  pa ← add bottom chunk
  write_free bottom null pa
  last ← sub top chunk
  new_loop ((top - bottom) / chunk + 1) chunk top last pa
  pure (record { free = some bottom; bottom = bottom; top = top })

-- `PagePool::new`
unfoldable pub new : (bottom top : ℕ) → Cmd Pool
new bottom top = do
  assert (is_multiple bottom page_size)
  assert (is_multiple top page_size)
  new_pool bottom top page_size

-- The pages of the pool, and one more.
abbrev pub pool_fuel : Pool → ℕ
pool_fuel pool = (pool.top - pool.bottom) / page_size + 1

-- The inner loop of `alloc_pages`: `page` goes on while the next free page is adjacent and the
-- region is too short.
pub extend : ℕ → (want start page next : ℕ) → Cmd (Result PageError (ℕ × ℕ))
extend zero want start page next = spins
extend (suc k) want start page next = do
  after ← add page 0x1000
  if next == after
      then (do
        len ← sub page start
        if ltb (len / 0x1000) want
            then (do
              (_, next') ← read_free next
              if next' == 0 then pure (err no_gap) else extend k want start next next')
            else pure (ok (page, next)))
      else pure (ok (page, next))

-- What the outer loop does after the inner one: a gap starts a new region.
abbrev pub restart : ℕ → ℕ → ℕ → ℕ
restart start next after = if next == after then start else next

-- The outer loop; the result is the start and the last page of a region, and the free page after.
pub find_region : ℕ → ℕ → (want start page next : ℕ) → Cmd (Result PageError (ℕ × ℕ × ℕ))
find_region rounds zero want start page next = spins
find_region rounds (suc k) want start page next = do
  len ← sub page start
  if ltb (len / 0x1000) want
      then (do
        found ← extend rounds want start page next
        elim found [
          | err e ↦ pure (err e)
          | ok (page', next') ↦ (do
            after ← add page' 0x1000
            find_region rounds k want (restart start next' after) page' next')
        ])
      else pure (ok (start, page, next))

-- Takes the region from `start` to the page before `next` out of the list.
pub unlink : Pool → (start next : ℕ) → Cmd Pool
unlink pool start next = do
  (sr_prev, _) ← read_free start
  if sr_prev == null
      then (if next == 0
          then pure (record pool { free = none })
          else (do write_prev next null; pure (record pool { free = some next })))
      else (do write_next sr_prev next; write_prev next sr_prev; pure pool)

-- The last loop of `alloc_pages`.
pub zero_region : ℕ → (cur page : ℕ) → Cmd (Unit {0})
zero_region zero cur page = spins
zero_region (suc k) cur page =
    if leb cur page
    then (do zero_page cur; cur' ← add cur 0x1000; zero_region k cur' page)
    else pure tt

unfoldable pub alloc_pages : Pool → (page num_pages : ℕ) → Cmd (Result PageError ℕ × Pool)
unfolding find_region extend unlink zero_region
alloc_pages pool page num_pages = do
  (prev, next) ← read_free page
  assert (prev == null)
  want ← sub num_pages 1
  found ← find_region (pool_fuel pool) (pool_fuel pool) want page page next
  elim found [
    | err e ↦ pure (err e, pool)
    | ok (start, last, next') ↦ (do
      pool' ← unlink pool start next'
      zero_region (pool_fuel pool) start last
      pure (ok start, pool'))
  ]

abbrev pub as_vm_error : Result PageError ℕ × Pool → Result VmError ℕ × Pool
as_vm_error (ok page, pool) = (ok page, pool)
as_vm_error (err _, pool) = (err out_of_pages, pool)

-- `match pool.free` of `palloc` and `palloc_plural`
pub alloc_from : Option ℕ → Pool → ℕ → Cmd (Result VmError ℕ × Pool)
alloc_from none pool num_pages = pure (err out_of_pages, pool)
alloc_from (some page) pool num_pages = do
  result ← alloc_pages pool page num_pages
  pure (as_vm_error result)

unfoldable pub palloc : Pool → Cmd (Result VmError ℕ × Pool)
unfolding alloc_from
palloc pool = alloc_from pool.free pool 1

unfoldable pub palloc_plural : Pool → ℕ → Cmd (Result VmError ℕ × Pool)
unfolding alloc_from
palloc_plural pool num_pages = do assert (not (num_pages == 0)); alloc_from pool.free pool num_pages

-- The `match prev_page` of `free_pages`
pub link_page : Option ℕ → (curr next : ℕ) → Cmd (Unit {0})
link_page none curr next = write_next curr next
link_page (some prev) curr next = do write_prev curr prev; write_next prev curr

-- The first loop of `free_pages`: zero the pages and link them to one another.
pub link_region : ℕ → ℕ → Option ℕ → ℕ → Cmd (Unit {0})
link_region zero stop prev curr = spins
link_region (suc k) stop prev curr =
    if ltb curr stop
    then (do
      zero_page curr
      next ← add curr 0x1000
      link_page prev curr next
      link_region k stop (some curr) next)
    else pure tt

-- The walk to the last free page below `region_end`, and the one behind it.
pub find_location : ℕ → (region_end head head_next : ℕ) → Cmd (ℕ × ℕ)
find_location zero region_end head head_next = spins
find_location (suc k) region_end head head_next =
    if not (head_next == null) && ltb head_next region_end
    then (do (_, next) ← read_free head_next; find_location k region_end head_next next)
    else pure (head, head_next)

-- The `match self.free` of `free_pages`: puts the linked region from `page` to `region_end` in.
pub insert_region : Option ℕ → Pool → (page region_end : ℕ) → Cmd Pool
insert_region none pool page region_end = do
  write_prev page null
  write_next region_end null
  pure (record pool { free = some page })
insert_region (some head) pool page region_end =
    if ltb region_end head
    then (do
      write_prev head region_end
      write_next region_end head
      write_prev page null
      pure (record pool { free = some page }))
    else (do
      (_, second) ← read_free head
      (location, next) ← find_location (pool_fuel pool) region_end head second
      if next == null
          then (do
            write_next region_end null
            write_prev page location
            write_next location page
            pure pool)
          else (do
            write_next location page
            write_prev page location
            write_next region_end next
            write_prev next region_end
            pure pool))

unfoldable pub free_pages : Pool → (page num_pages : ℕ) → Cmd Pool
unfolding link_region link_page insert_region find_location
free_pages pool page num_pages = do
  assert (not (num_pages == 0))
  before ← sub num_pages 1
  offset ← mul before 0x1000
  region_end ← add page offset
  stop ← add region_end 0x1000
  link_region (num_pages + 1) stop none page
  insert_region pool.free pool page region_end

unfoldable pub pfree : Pool → ℕ → Cmd (Result VmError (Unit {0}) × Pool)
pfree pool page = do
  assert (is_multiple page page_size)
  pool' ← free_pages pool page 1
  pure (ok tt, pool')

unfoldable pub pfree_plural : Pool → ℕ → ℕ → Cmd (Result VmError (Unit {0}) × Pool)
pfree_plural pool page num_pages = do
  assert (not (num_pages == 0))
  assert (is_multiple page page_size)
  pool' ← free_pages pool page num_pages
  pure (ok tt, pool')
