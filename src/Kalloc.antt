-- ===== src/Kalloc.antt =====
-- `struct Kalloc` of src/vm/vmalloc.rs, the allocator of chunks below the size of a page. The global
-- page pool, which `grow_pool` and `free_self` reach through `palloc()` and `pfree()` of src/vm.rs, is
-- passed along.
pub mod Alloc
pub mod AllocGrow
pub mod Free
pub mod Freed
pub mod FreeLast
pub mod Grow
pub mod New
mod Tests
use Prim.Native.Nat.{bit_and}
use reedos.Common.{
  ℕ, zero, suc, ◌+◌, ◌-◌, ◌%◌, Bool, true, false, not, ◌&&◌, Option, none, some, Result, ok, err,
  ltb, leb, ◌==◌, if◌then◌else◌,
}
use reedos.Machine.{Cmd, pure, panics, spins, assert, ◌>>=◌, ◌>>◌, add, sub, read, write, page_size}
use reedos.Palloc.{Pool, VmError, palloc}
use reedos.Header
use reedos.Header.{max_chunk_size, header_size, not_mask, is_free, chunk_size}
use reedos.Zone
use reedos.Zone.{Zone, KallocError, oom, void, alloc_chunk, scan, next_zone, write_zone_header_pair}

pub record Kalloc : Type 0 where
  pub head : ℕ
  pub end : ℕ

-- `Kalloc::new`
unfoldable pub new : ℕ → Cmd Kalloc
new start = do
  assert (bit_and start (page_size - 1) == 0)
  head ← Header.new max_chunk_size
  write_zone_header_pair (Zone.new start) head
  end ← add start 0x1000
  pure (record { head = start; end = end })

-- What `grow_pool` does with the result of `palloc()`.
pub add_zone : Zone → Result VmError ℕ → Cmd (Result VmError (Zone × ℕ))
add_zone tail (err e) = pure (err e)
add_zone tail (ok page) = do
  Zone.write_next tail page
  head ← Header.new max_chunk_size
  write_zone_header_pair (Zone.new page) head
  pure (ok (Zone.new page, head))

unfoldable pub grow_pool : Pool → Zone → Cmd (Result VmError (Zone × ℕ) × Pool)
unfolding add_zone
grow_pool pool tail = do
  (page, pool') ← palloc pool
  grown ← add_zone tail page
  pure (grown, pool')

-- The pages of RAM, and one more: no list of distinct zones is longer.
abbrev pub zone_fuel : ℕ
zone_fuel = 0x8001

-- The loop of `shrink_pool`, at the zone `curr_ptr`.
pub shrink_loop : ℕ → Pool → Zone → (curr_ptr : ℕ) → Cmd Pool
shrink_loop zero pool drop_zone curr_ptr = spins
shrink_loop (suc k) pool drop_zone curr_ptr = do
  curr_zone ← Zone.from curr_ptr
  next ← next_zone curr_zone
  elim next [
    | none ↦ panics
    | some zone ↦ elim (drop_zone.base == zone.base) [
      | true ↦ Zone.free_self pool drop_zone curr_zone
      | false ↦ shrink_loop k pool drop_zone zone.base
    ]
  ]

unfoldable pub shrink_pool : Kalloc → Pool → Zone → Cmd Pool
shrink_pool kalloc pool drop_zone =
    if drop_zone.base == kalloc.head
    then pure pool
    else shrink_loop zone_fuel pool drop_zone kalloc.head

-- What `alloc` does with the result of `grow_pool`.
pub alloc_grown : ℕ → Result VmError (Zone × ℕ) → Cmd (Result KallocError ℕ)
alloc_grown size (err _) = pure (err oom)
alloc_grown size (ok (zone, head)) = do
  head_ptr ← add zone.base 8
  _ ← alloc_chunk size head_ptr zone head
  ptr ← add head_ptr header_size
  pure (ok ptr)

-- The loop of `alloc`, at `zone`.
pub alloc_loop : ℕ → Pool → (size end : ℕ) → (trail zone : Zone) → Cmd (Result KallocError ℕ × Pool)
alloc_loop zero pool size end trail zone = spins
alloc_loop (suc k) pool size end trail zone =
    if leb zone.base end
    then (do
      (found, zone') ← scan zone size
      elim found [
        | some ptr ↦ pure (ok ptr, pool)
        | none ↦ (do
          next ← next_zone zone'
          elim next [
            | some after ↦ alloc_loop k pool size end trail after
            | none ↦ (do
              (grown, pool') ← grow_pool pool trail
              result ← alloc_grown size grown
              pure (result, pool'))
          ])
      ])
    else pure (err oom, pool)

-- Up to a multiple of 8.
unfoldable pub round_up : ℕ → Cmd ℕ
round_up size =
    if not (size % 8 == 0)
    then (do padded ← add size 7; pure (bit_and padded (not_mask 7)))
    else pure size

unfoldable pub alloc : Kalloc → Pool → ℕ → Cmd (Result KallocError ℕ × Pool)
alloc kalloc pool size = if size == 0 then pure (err void, pool) else (do
  rounded ← round_up size
  end ← sub kalloc.end 0x1000
  zone ← Zone.from kalloc.head
  alloc_loop zone_fuel pool rounded end zone zone)

-- `free` where other chunks of the zone are in use: merges the chunk with a free one behind it.
pub merge_behind : (ptr : ℕ) → Zone → (head : ℕ) → Cmd ℕ
merge_behind ptr zone head = do
  next_ptr ← add ptr (chunk_size head)
  next ← read next_ptr
  end ← add zone.base 0x1000
  if is_free next && ltb next_ptr end then Header.merge head next next_ptr else pure head

-- What `free` does with the result of `decrement_refs`: the new header and the new pool.
pub release : Kalloc → Pool → (ptr : ℕ) → Zone → (head : ℕ) → Result KallocError ℕ → Cmd (ℕ × Pool)
release kalloc pool ptr zone head (err _) = panics
release kalloc pool ptr zone head (ok count) =
    if count == 0
    then (do pool' ← shrink_pool kalloc pool zone; pure (head, pool'))
    else (do head' ← merge_behind ptr zone head; pure (head', pool))

unfoldable pub free : Kalloc → Pool → ℕ → Cmd Pool
unfolding merge_behind release
free kalloc pool ptr = do
  zone ← Zone.from (bit_and ptr (not_mask (page_size - 1)))
  head_ptr ← sub ptr header_size
  head ← read head_ptr
  assert (not (is_free head))
  (count, zone') ← Zone.decrement_refs zone
  (head', pool') ← release kalloc pool ptr zone' (Header.set_unused head) count
  write head_ptr head'
  pure pool'
