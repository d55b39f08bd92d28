-- ===== src/Header.antt =====
-- Chunk headers, `struct Header` of src/vm/vmalloc.rs: a header is its word `fields`, bits 0 to 11 of
-- which are the chunk's size, and bit 12 says that it is in use. A method on `&mut self` returns the
-- new header.
pub mod Fields
use Prim.Native.Nat.{bit_and, bit_or}
use reedos.Common.{ℕ, ◌+◌, ◌-◌, ◌^◌, Bool, leb, ◌==◌, if◌then◌else◌}
use reedos.Machine.{Cmd, pure, assert, ◌>>=◌, ◌>>◌, add, sub, write, usize_top}

abbrev pub max_chunk_size : ℕ
max_chunk_size = 4080

-- `size_of::<Header>()`
abbrev pub header_size : ℕ
header_size = 8

abbrev pub header_used : ℕ
header_used = 2 ^ 12

-- `!mask` in a word of 64 bits
abbrev pub not_mask : ℕ → ℕ
not_mask mask = usize_top - 1 - mask

unfoldable pub new : ℕ → Cmd ℕ
new size = do assert (leb size max_chunk_size); pure size

unfoldable pub chunk_size : ℕ → ℕ
chunk_size fields = bit_and fields 0xFFF

unfoldable pub is_free : ℕ → Bool
is_free fields = bit_and fields header_used == 0

unfoldable pub set_used : ℕ → ℕ
set_used fields = bit_or fields header_used

unfoldable pub set_unused : ℕ → ℕ
set_unused fields = bit_and fields (not_mask header_used)

unfoldable pub set_size : ℕ → ℕ → ℕ
set_size fields size = bit_or (bit_and fields (not_mask (0x1000 - 1))) size

-- A chunk of `new_size`, and a free chunk of what remains behind it. The result is the changed
-- header with the new one and its address.
unfoldable pub split : (fields new_size cur_addr : ℕ) → Cmd (ℕ × ℕ × ℕ)
split fields new_size cur_addr = do
  next_size ← sub (chunk_size fields) new_size
  let fields' = set_size fields new_size
  write cur_addr fields'
  data_addr ← add cur_addr header_size
  next_addr ← add data_addr new_size
  next_fields ← sub next_size header_size
  write next_addr next_fields
  pure (fields', next_fields, next_addr)

unfoldable pub merge : (fields next next_addr : ℕ) → Cmd ℕ
merge fields next next_addr = do
  assert (is_free next)
  assert (is_free fields)
  with_header ← add (chunk_size fields) header_size
  size ← add with_header (chunk_size next)
  let fields' = set_size fields size
  write next_addr 0
  pure fields'
