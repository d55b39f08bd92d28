-- ===== src/Galloc.antt =====
-- The global allocator, src/vm/global.rs, and the start of the memory system, `GlobalWrapper` and
-- `init` of src/vm.rs. `Galloc.pool` points to the page pool that `palloc()` and `pfree()` use, so the
-- pool is passed along. Bytes of a word are its digits to the base 256, the lowest first.
pub mod Pages
pub mod Bytes
pub mod Copies
pub mod Zeroed
pub mod Moved
mod Tests
use Prim.Native.Nat.{bit_and}
use reedos.Common.{
  ℕ, zero, suc, ◌+◌, ◌-◌, ◌*◌, ◌/◌, ◌%◌, ◌^◌, Bool, true, false, not, ◌&&◌, Option, none, some,
  Result, ok, err, ltb, leb, ◌==◌, if◌then◌else◌,
}
use reedos.Machine.{Cmd, pure, panics, assert, ◌>>=◌, ◌>>◌, add, sub, read, write, page_size}
use reedos.Palloc.{Pool, VmError, palloc, palloc_plural, pfree_plural}
use reedos.Palloc
use reedos.Header.{max_chunk_size}
use reedos.Zone.{KallocError}
use reedos.Kalloc.{Kalloc}
use reedos.Kalloc
use reedos.Ptable.{Linker, kpage_init, write_satp}
use reedos.Riscv.{Hardware, Hart}

-- `core::alloc::Layout`
pub record Layout : Type 0 where
  pub size : ℕ
  pub align : ℕ

-- `Layout::from_size_align(..).unwrap()`
unfoldable pub from_size_align : (size align : ℕ) → Cmd Layout
from_size_align size align = do
  assert (not (align == 0) && (bit_and align (align - 1) == 0))
  assert (leb (size + (align - 1)) (2 ^ 63 - 1))
  pure (record { size = size; align = align })

pub record Galloc : Type 0 where
  pub small_pool : Kalloc

-- What `expect` and the matches on an error that end in a panic do.
unfoldable pub expect : {E A : Type 0} → Result E A → Cmd A
expect (ok a) = pure a
expect (err _) = panics

-- `Galloc::new`
unfoldable pub new : Pool → Cmd (Galloc × Pool)
unfolding expect
new pool = do
  (page, pool') ← palloc pool
  small_pool_start ← expect page
  small_pool ← Kalloc.new small_pool_start
  pure (record { small_pool = small_pool }, pool')

unfoldable pub decide_internal_scheme : Layout → Cmd ℕ
decide_internal_scheme layout =
    if layout.size == 0
    then panics
    else if leb layout.size max_chunk_size
    then pure (if leb layout.align 8 then 0 else 1)
    else (do padded ← add layout.size page_size; last ← sub padded 1; pure (last / page_size))

-- The allocator that the number of pages stands for.
pub alloc_pages : Galloc → Pool → (size num_pages : ℕ) → Cmd (ℕ × Pool)
unfolding expect
alloc_pages galloc pool size num_pages =
    if num_pages == 0
    then (do
      (result, pool') ← Kalloc.alloc galloc.small_pool pool size
      ptr ← expect result
      pure (ptr, pool'))
    else (do (result, pool') ← palloc_plural pool num_pages; ptr ← expect result; pure (ptr, pool'))

unfoldable pub alloc : Galloc → Pool → Layout → Cmd (ℕ × Pool)
unfolding alloc_pages
alloc galloc pool layout = do
  assert (leb layout.align page_size)
  num_pages ← decide_internal_scheme layout
  alloc_pages galloc pool layout.size num_pages

pub dealloc_pages : Galloc → Pool → (ptr num_pages : ℕ) → Cmd Pool
unfolding expect
dealloc_pages galloc pool ptr num_pages =
    if num_pages == 0
    then Kalloc.free galloc.small_pool pool ptr
    else (do (result, pool') ← pfree_plural pool ptr num_pages; _ ← expect result; pure pool')

unfoldable pub dealloc : Galloc → Pool → (ptr : ℕ) → Layout → Cmd Pool
unfolding dealloc_pages
dealloc galloc pool ptr layout = do
  assert (leb layout.align page_size)
  num_pages ← decide_internal_scheme layout
  dealloc_pages galloc pool ptr num_pages

-- The lowest `n` bytes of `word`, and the bytes above, of 8 or fewer.
abbrev pub low_bytes : ℕ → ℕ → ℕ
low_bytes n word = word % 2 ^ (8 * n)

abbrev pub high_bytes : ℕ → ℕ → ℕ
high_bytes n word = word / 2 ^ (8 * n) * 2 ^ (8 * n)

-- `ptr.write_bytes(0, 8 * words + rest)` at `*mut u8`, where `rest` is below 8.
pub zero_bytes : (words rest ptr : ℕ) → Cmd (Unit {0})
zero_bytes zero rest ptr =
    if rest == 0 then pure tt else (do word ← read ptr; write ptr (high_bytes rest word))
zero_bytes (suc words) rest ptr = do write ptr 0; zero_bytes words rest (ptr + 8)

-- `copy_nonoverlapping(src, dst, 8 * words + rest)` at `*mut u8`, where `rest` is below 8.
pub copy_bytes : (words rest src dst : ℕ) → Cmd (Unit {0})
copy_bytes zero rest src dst =
    if rest == 0
    then pure tt
    else (do from ← read src; to ← read dst; write dst (high_bytes rest to + low_bytes rest from))
copy_bytes (suc words) rest src dst = do
  word ← read src
  write dst word
  copy_bytes words rest (src + 8) (dst + 8)

unfoldable pub alloc_zeroed : Galloc → Pool → Layout → Cmd (ℕ × Pool)
unfolding zero_bytes
alloc_zeroed galloc pool layout = do
  (out, pool') ← alloc galloc pool layout
  num_pages ← decide_internal_scheme layout
  if num_pages == 0
      then (do zero_bytes (layout.size / 8) (layout.size % 8) out; pure (out, pool'))
      else pure (out, pool')

unfoldable pub realloc : Galloc → Pool → (ptr : ℕ) → Layout → (new_size : ℕ) → Cmd (ℕ × Pool)
unfolding copy_bytes
realloc galloc pool ptr layout new_size = do
  new_layout ← from_size_align new_size layout.align
  (out, pool') ← alloc galloc pool new_layout
  copy_bytes (layout.size / 8) (layout.size % 8) ptr out
  pool'' ← dealloc galloc pool' ptr layout
  pure (out, pool'')

-- The statics `PAGEPOOL` and `GLOBAL`, and the register `satp`.
pub record Globals : Type 0 where
  pub page_pool : Option Pool
  pub global : Option Galloc

-- `OnceCell::set` and the panic on a second call
abbrev pub set_once : {A : Type 0} → Option A → A → Cmd (Option A)
set_once none a = pure (some a)
set_once (some _) a = panics

unfoldable pub init : Hardware → Linker → Globals → Hart → Cmd (Globals × Hart)
unfolding expect
init hw linker globals hart = do
  pool ← Palloc.new linker.bss_end linker.dram_end
  _ ← set_once globals.page_pool pool
  (galloc, pool') ← new pool
  global ← set_once globals.global galloc
  (table, pool'') ← kpage_init linker pool'
  pt ← expect table
  pure (record { page_pool = some pool''; global = global }, write_satp hw pt hart)

-- `GlobalWrapper`: each method is that of the `Galloc` in the cell.
pub with_inner :
    {A : Type 0} → Option Galloc → Option Pool → (Galloc → Pool → Cmd (A × Pool)) → Cmd (A × Pool)
with_inner (some galloc) (some pool) method = method galloc pool
with_inner _ _ method = panics

abbrev pub update_pool : {A : Type 0} → Globals → A × Pool → A × Globals
update_pool globals (a, pool) = (a, record globals { page_pool = some pool })

unfoldable pub global_alloc : Globals → Layout → Cmd (ℕ × Globals)
unfolding with_inner
global_alloc globals layout = do
  result ← with_inner globals.global globals.page_pool (λ galloc pool. alloc galloc pool layout)
  pure (update_pool globals result)

unfoldable pub global_dealloc : Globals → (ptr : ℕ) → Layout → Cmd (Unit {0} × Globals)
unfolding with_inner
global_dealloc globals ptr layout = do
  result ←
      with_inner globals.global globals.page_pool
        (λ galloc pool. dealloc galloc pool ptr layout >>= λ pool'. pure (tt, pool'))
  pure (update_pool globals result)

unfoldable pub global_alloc_zeroed : Globals → Layout → Cmd (ℕ × Globals)
unfolding with_inner
global_alloc_zeroed globals layout = do
  result ←
      with_inner globals.global globals.page_pool (λ galloc pool. alloc_zeroed galloc pool layout)
  pure (update_pool globals result)

unfoldable pub global_realloc : Globals → (ptr : ℕ) → Layout → (new_size : ℕ) → Cmd (ℕ × Globals)
unfolding with_inner
global_realloc globals ptr layout new_size = do
  result ←
      with_inner globals.global globals.page_pool
        (λ galloc pool. realloc galloc pool ptr layout new_size)
  pure (update_pool globals result)
