-- ===== src/Zone.antt =====
-- Allocation zones, `struct Zone` of src/vm/vmalloc.rs: a page whose first word holds the address of
-- the next zone and, in its low 12 bits, the number of chunks in use. `palloc()` and `pfree()` of
-- src/vm.rs are those of the global pool, which is passed along.
pub mod Alloc
pub mod Chunks
pub mod FirstFit
pub mod Apart
pub mod Ends
pub mod Kept
pub mod Blocks
pub mod Overrun
pub mod Owned
pub mod Refs
pub mod Rounds
pub mod Scan
pub mod Span
mod Tests
use Prim.Native.Nat.{bit_and, bit_or}
use reedos.Common.{
  ℕ, zero, suc, ◌+◌, ◌-◌, ◌*◌, ◌/◌, ◌^◌, Bool, not, ◌||◌, ◌&&◌, Option, none, some, Result, ok, err,
  ltb, leb, ◌==◌, if◌then◌else◌,
}
use reedos.Machine.{
  Cmd, pure, panics, spins, assert, ◌>>=◌, ◌>>◌, add, sub, read, write, null, page_size,
}
use reedos.Palloc.{Pool, pfree}
use reedos.Header
use reedos.Header.{not_mask, header_size, is_free, chunk_size}

pub data KallocError : Type 0 where
  max_refs : KallocError
  min_refs : KallocError
  null_zone : KallocError
  oom : KallocError
  void : KallocError

pub record Zone : Type 0 where
  pub base : ℕ
  pub next : ℕ

-- `Zone::from`
unfoldable pub from : ℕ → Cmd Zone
from src = do next ← read src; pure (record { base = src; next = next })

abbrev pub new : ℕ → Zone
new base = record { base = base; next = 0 }

unfoldable pub get_refs : Zone → ℕ
get_refs zone = bit_and zone.next 4095

unfoldable pub get_next : Zone → Result KallocError ℕ
get_next zone =
    let next_addr = bit_and zone.next (not_mask (page_size - 1)) in
    if next_addr == 0 then err null_zone else ok next_addr

abbrev pub unwrap_or : ℕ → Result KallocError ℕ → ℕ
unwrap_or d (ok a) = a
unwrap_or d (err _) = d

unfoldable pub write_refs : Zone → ℕ → Cmd Zone
write_refs zone new_count = do
  let next' = bit_or (unwrap_or 0 (get_next zone)) new_count
  write zone.base next'
  pure (record zone { next = next' })

unfoldable pub write_next : Zone → ℕ → Cmd (Unit {0})
write_next zone new_next = write zone.base (bit_or new_next (get_refs zone))

unfoldable pub increment_refs : Zone → Cmd (Result KallocError (Unit {0}) × Zone)
increment_refs zone = do
  new_count ← add (get_refs zone) 1
  if ltb 510 new_count
      then pure (err max_refs, zone)
      else (do zone' ← write_refs zone new_count; pure (ok tt, zone'))

-- `new_count as isize` is negative from 2 ^ 63 on.
unfoldable pub decrement_refs : Zone → Cmd (Result KallocError ℕ × Zone)
decrement_refs zone = do
  new_count ← sub (get_refs zone) 1
  if leb (2 ^ 63) new_count
      then pure (err min_refs, zone)
      else (do zone' ← write_refs zone new_count; pure (ok new_count, zone'))

pub next_zone_at : Result KallocError ℕ → Cmd (Option Zone)
next_zone_at (err _) = pure none
next_zone_at (ok addr) = do zone ← from addr; pure (some zone)

unfoldable pub next_zone : Zone → Cmd (Option Zone)
unfolding next_zone_at
next_zone zone = next_zone_at (get_next zone)

pub link_past : Zone → Option Zone → Cmd (Unit {0})
link_past prev_zone none = write_next prev_zone null
link_past prev_zone (some next) = write_next prev_zone next.base

unfoldable pub free_self : Pool → Zone → Zone → Cmd Pool
unfolding link_past
free_self pool zone prev_zone = do
  assert (get_refs zone == 0)
  next ← next_zone zone
  link_past prev_zone next
  (_, pool') ← pfree pool zone.base
  pure pool'

pub expect_refs : Result KallocError (Unit {0}) → Cmd (Unit {0})
expect_refs (ok _) = pure tt
expect_refs (err _) = panics

-- The chunk at `ptr` with the free header `head` becomes one in use of `size` bytes.
unfoldable pub alloc_chunk : (size ptr : ℕ) → Zone → (head : ℕ) → Cmd Zone
unfolding expect_refs
alloc_chunk size ptr zone head = do
  (result, zone') ← increment_refs zone
  expect_refs result
  let used = Header.set_used head
  write ptr used
  if size == chunk_size used then pure zone' else (do _ ← Header.split used size ptr; pure zone')

-- The loop of `scan`, at the chunk `curr` with the header `head`.
unfoldable pub scan_loop : ℕ → (size end curr head : ℕ) → Zone → Cmd (Option ℕ × Zone)
scan_loop zero size end curr head zone = spins
scan_loop (suc k) size end curr head zone =
    if ltb curr end
    then (if ltb (chunk_size head) size || not (is_free head)
        then (do
          data_addr ← add curr header_size
          curr' ← add data_addr (chunk_size head)
          head' ← read curr'
          if is_free head && is_free head'
              then (do
                merged ← Header.merge head head' curr'
                write curr merged
                scan_loop k size end curr merged zone)
              else scan_loop k size end curr' head' zone)
        else (do
          zone' ← alloc_chunk size curr zone head
          ptr ← add curr header_size
          pure (some ptr, zone')))
    else pure (none, zone)

-- A round goes on 8 bytes or more, or merges the chunk behind, and at one chunk at most 512 merges
-- follow one another: from each of 511 words of a page on there are no more than 513 rounds, and after
-- the last of them 512 more.
abbrev pub scan_fuel : ℕ
scan_fuel = 262_656

unfoldable pub scan : Zone → ℕ → Cmd (Option ℕ × Zone)
scan zone size = do
  head ← read (zone.base + 8)
  scan_loop scan_fuel size (zone.base + 8 * (page_size / 8)) (zone.base + 8) head zone

unfoldable pub write_zone_header_pair : Zone → ℕ → Cmd (Unit {0})
write_zone_header_pair zone header = do write zone.base zone.next; write (zone.base + 8) header
