-- ===== src/Ptable.antt =====
-- Page tables of three levels (Sv39), src/vm/ptable.rs, and the kernel's own page table. The page
-- pool is passed along. A virtual address, a physical address and a page table entry are words.

pub mod Entries
pub mod Map
pub mod Walk
pub mod Tree
pub mod Grow
pub mod Reach
pub mod Down
pub mod Paths
pub mod Update
pub mod MapPage
pub mod PageRange
pub mod MapLoop
pub mod Ranges
pub mod Kernel
pub mod Access
pub mod Layout
mod SpaceTests
use Prim.Native.Nat.{bit_and, bit_or}
use reedos.Common.{
  ℕ, zero, suc, ◌+◌, ◌-◌, ◌*◌, ◌/◌, ◌%◌, ◌^◌, List, [], ◌∷◌, Bool, true, false, not, Option, none,
  some, Result, ok, err, ltb, leb, ◌==◌, if◌then◌else◌,
}
use reedos.Machine.{
  Cmd, pure, panics, spins, assert, ◌>>=◌, ◌>>◌, add, sub, mul, read, write, page_size, dram_base,
  usize_top,
}
use reedos.Palloc.{Pool, VmError, palloc_fail, palloc}
use reedos.Header.{not_mask}
use reedos.Riscv.{Hardware, Hart, flush_tlb}
use reedos.Riscv

abbrev pub va_top : ℕ
va_top = 2 ^ 39

abbrev pub pte_top : ℕ
pte_top = 512

abbrev pub pte_valid : ℕ
pte_valid = 1

abbrev pub pte_read : ℕ
pte_read = 2

abbrev pub pte_write : ℕ
pte_write = 4

abbrev pub pte_exec : ℕ
pte_exec = 8

-- `struct PageTable` is its `base`.
abbrev pub PageTable : Type 0
PageTable = ℕ

unfoldable pub vpn : (ptr level : ℕ) → ℕ
vpn ptr level = bit_and (ptr / 2 ^ (12 + 9 * level)) 0x1FF

-- A shift left drops what leaves the word.
unfoldable pub pte_to_phy : ℕ → ℕ
pte_to_phy pte = pte / 2 ^ 10 * 2 ^ 12 % usize_top

unfoldable pub phy_to_pte : ℕ → ℕ
phy_to_pte ptr = ptr / 2 ^ 12 * 2 ^ 10 % usize_top

-- `PteGetFlag!`
unfoldable pub pte_get_flag : (pte flag : ℕ) → Bool
pte_get_flag pte flag = not (bit_and pte flag == 0)

-- `PteSetFlag!`
unfoldable pub pte_set_flag : (pte flag : ℕ) → ℕ
pte_set_flag pte flag = bit_or pte flag

unfoldable pub phy_to_satp : ℕ → ℕ
phy_to_satp ptr = bit_or (2 ^ 63) (ptr / 2 ^ 12)

-- `PageTable::write_satp`
unfoldable pub write_satp : Hardware → PageTable → Hart → Hart
write_satp hw base hart = flush_tlb hw (Riscv.write_satp hw (phy_to_satp base) (flush_tlb hw hart))

-- `PageAlignDown!`
unfoldable pub page_align_down : ℕ → ℕ
page_align_down p = bit_and p (not_mask (page_size - 1))

unfoldable pub index_mut : PageTable → ℕ → Cmd ℕ
index_mut table idx = do assert (ltb idx pte_top); pure (table + idx * 8)

-- What `walk` does with the result of `palloc()` for a new table, which the entry at `next` is to point
-- to.
pub link_new : (next : ℕ) → Result VmError ℕ × Pool → Cmd (Result VmError PageTable × Pool)
link_new next (err e, pool) = pure (err e, pool)
link_new next (ok addr, pool) = do
  write next (pte_set_flag (phy_to_pte addr) pte_valid)
  pure (ok (pte_to_phy (phy_to_pte addr)), pool)

-- What `walk` does where the entry at `next` is not valid.
pub walk_new : Pool → (next : ℕ) → Bool → Cmd (Result VmError PageTable × Pool)
unfolding link_new
walk_new pool next false = pure (err palloc_fail, pool)
walk_new pool next true = do result ← palloc pool; link_new next result

-- The body of the loop of `walk`: from the table at `level` to the one below.
pub walk_step : Pool → PageTable → (va level : ℕ) → Bool → Cmd (Result VmError PageTable × Pool)
unfolding walk_new
walk_step pool table va level alloc_new = do
  next ← index_mut table (vpn va level)
  entry ← read next
  if pte_get_flag entry pte_valid
      then pure (ok (pte_to_phy entry), pool)
      else walk_new pool next alloc_new

-- The loop of `walk`, `for level in (1..3).rev()`, at `level` and below.
pub walk_down :
    (level : ℕ) → Pool → PageTable → (va : ℕ) → Bool → Cmd (Result VmError PageTable × Pool)
walk_down zero pool table va alloc_new = pure (ok table, pool)
walk_down (suc level) pool table va alloc_new = do
  (below, pool') ← walk_step pool table va (suc level) alloc_new
  elim below [ err e ↦ pure (err e, pool') | ok table' ↦ walk_down level pool' table' va alloc_new ]

unfoldable pub walk : Pool → PageTable → (va : ℕ) → Bool → Cmd (Result VmError ℕ × Pool)
unfolding walk_down walk_step
walk pool pt va alloc_new = do
  assert (ltb va va_top)
  (table, pool') ← walk_down 2 pool pt va alloc_new
  elim table [
    | err e ↦ pure (err e, pool')
    | ok leaf ↦ (do pte ← index_mut leaf (vpn va 0); pure (ok pte, pool'))
  ]

-- One round of the loop of `page_map`: the entry of the page at `start`.
unfoldable pub map_page :
    Pool → PageTable → (start phys flag : ℕ) → Cmd (Result VmError (Unit {0}) × Pool)
map_page pool pt start phys flag = do
  (walk_addr, pool') ← walk pool pt start true
  elim walk_addr [
    | err e ↦ pure (err e, pool')
    | ok pte_addr ↦ (do
      entry ← read pte_addr
      if not (bit_and entry pte_valid == 0) then pure (err palloc_fail, pool') else (do
        write pte_addr (pte_set_flag (phy_to_pte phys) (bit_or flag pte_valid))
        pure (ok tt, pool')))
  ]

-- The loop of `page_map`.
pub map_loop :
    ℕ → Pool → PageTable → (start end phys flag : ℕ) → Cmd (Result VmError (Unit {0}) × Pool)
map_loop zero pool pt start end phys flag = spins
map_loop (suc k) pool pt start end phys flag =
    if leb start end
    then (do
      (mapped, pool') ← map_page pool pt start phys flag
      elim mapped [
        | err e ↦ pure (err e, pool')
        | ok _ ↦ (do
          start' ← add start page_size
          phys' ← add phys page_size
          map_loop k pool' pt start' end phys' flag)
      ])
    else pure (ok tt, pool)

-- The pages from `start` to `end`, and one more round.
abbrev pub map_fuel : ℕ → ℕ → ℕ
map_fuel start end = (end - start) / page_size + 2

unfoldable pub page_map :
    Pool → PageTable → (va pa size flag : ℕ) → Cmd (Result VmError (Unit {0}) × Pool)
page_map pool pt va pa size flag = do
  last_offset ← sub size 1
  last ← add va last_offset
  map_loop (map_fuel (page_align_down va) (page_align_down last)) pool pt (page_align_down va)
      (page_align_down last) pa flag

-- The symbols of kernel.ld that `kpage_init` reads.
pub record Linker : Type 0 where
  pub text_end : ℕ
  pub rodata_end : ℕ
  pub data_end : ℕ
  pub stacks_start : ℕ
  pub intstacks_start : ℕ
  pub bss_start : ℕ
  pub bss_end : ℕ
  pub dram_end : ℕ

abbrev pub uart_base : ℕ
uart_base = 0x10000000

-- A call of `page_map` with the same virtual and physical address, from `base` to `stop`.
pub record Mapping : Type 0 where
  pub base : ℕ
  pub stop : ℕ
  pub flag : ℕ

abbrev pages : (base n flag : ℕ) → Mapping
pages base n flag = record { base = base; stop = base + page_size * n; flag = flag }

-- The stack of the hart `s`, below it a guard page.
abbrev stack : Linker → ℕ → Mapping
stack l s = pages (l.stacks_start + page_size * (1 + s * 3)) 2 (bit_or pte_read pte_write)

-- The interrupt stacks of the hart `i` for the machine mode and the supervisor mode.
abbrev m_intstack : Linker → ℕ → ℕ
m_intstack l i = l.intstacks_start + page_size * (1 + i * 4)

abbrev s_intstack : Linker → ℕ → ℕ
s_intstack l i = m_intstack l i + page_size * 2

-- The calls of `page_map` in `kpage_init`, in order, for the two harts.
abbrev pub kernel_mappings : Linker → List Mapping
kernel_mappings l =
    pages uart_base 1 (bit_or pte_read pte_write)
    ∷ record { base = dram_base; stop = l.text_end; flag = bit_or pte_read pte_exec }
    ∷ record { base = l.text_end; stop = l.rodata_end; flag = pte_read }
    ∷ record { base = l.rodata_end; stop = l.data_end; flag = bit_or pte_read pte_write }
    ∷ stack l 0
    ∷ stack l 1
    ∷ pages (m_intstack l 0) 1 (bit_or pte_read pte_write)
    ∷ pages (s_intstack l 0) 1 (bit_or pte_read pte_write)
    ∷ pages (m_intstack l 1) 1 (bit_or pte_read pte_write)
    ∷ pages (s_intstack l 1) 1 (bit_or pte_read pte_write)
    ∷ record { base = l.bss_start; stop = l.bss_end; flag = bit_or pte_read pte_write }
    ∷ record { base = l.bss_end; stop = l.dram_end; flag = bit_or pte_read pte_write }
    ∷ []

-- The calls, each with the `?` behind it.
pub map_all : Pool → PageTable → List Mapping → Cmd (Result VmError (Unit {0}) × Pool)
map_all pool pt [] = pure (ok tt, pool)
map_all pool pt (mapping ∷ mappings) = do
  size ← sub mapping.stop mapping.base
  (mapped, pool') ← page_map pool pt mapping.base mapping.base size mapping.flag
  elim mapped [ err e ↦ pure (err e, pool') | ok _ ↦ map_all pool' pt mappings ]

-- What `kpage_init` does with the result of `palloc()`.
pub init_table : Linker → Result VmError ℕ × Pool → Cmd (Result VmError PageTable × Pool)
init_table l (err _, pool) = panics
init_table l (ok base, pool) = do
  (mapped, pool') ← map_all pool base (kernel_mappings l)
  elim mapped [ err e ↦ pure (err e, pool') | ok _ ↦ pure (ok base, pool') ]

unfoldable pub kpage_init : Linker → Pool → Cmd (Result VmError PageTable × Pool)
kpage_init l pool = do result ← palloc pool; init_table l result
