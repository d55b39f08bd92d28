-- ===== src/Ptable/SpaceTests.antt =====
-- The theorems on trees of tables of src/vm/ptable.rs, at a pool of four pages.
use reedos.Common.{ℕ, ◌+◌, ◌/◌, ◌%◌, ◌<◌, ◌≤◌, ◌≡◌, refl, List, [], ◌∷◌, some, arith, inr}
use reedos.Machine.{Mem, update, page_size, null, Ensures}
use reedos.Palloc.{Pool}
use reedos.Palloc.FreeList.{IsPool}
use reedos.Ptable.{Linker, page_map, kpage_init, map_page, uart_base}
use reedos.Ptable.Map.{entry}
use reedos.Ptable.MapPage.{IsSpace, Inserted, map_page-Inserted}
use reedos.Ptable.MapLoop.{FilledTo, page_count, page_map-Filled}
use reedos.Ptable.Ranges.{IsSpace-root}
use reedos.Ptable.Access.{IsLayout}
use reedos.Ptable.Layout.{LayoutMapped, kpage_init-Layout}

abbrev pt : ℕ
pt = 0x80020000

abbrev pool : Pool
pool = record { free = some 0x80021000; bottom = 0x80020000; top = 0x80024000 }

abbrev free : List ℕ
free = 0x80021000 ∷ 0x80022000 ∷ 0x80023000 ∷ []

-- Page `pt` is all zero, and the others are free.
abbrev mem : Mem
mem =
    update
      (update
        (update (update (update (λ q. 0) 0x80021008 0x80022000) 0x80022000 0x80021000) 0x80022008
          0x80023000)
        0x80023000 0x80022000)
      0x80023008 null

mem-IsPool : IsPool mem pool free
unfolding update
mem-IsPool = record {
  low = omega arith;
  high = omega arith;
  pages = omega arith;
  links = (refl, refl, (refl, refl, (refl, refl, tt)));
  free = refl;
}

mem-zeros : (q : ℕ) → pt ≤ q → q < pt + page_size → q % 8 ≡ 0 → mem q ≡ 0
unfolding update
mem-zeros q l h al = ground arith

mem-IsSpace : IsSpace pt pool mem
mem-IsSpace =
    IsSpace-root pt mem-IsPool (omega arith)
      (inr (omega arith), (inr (omega arith), (inr (omega arith), tt))) mem-zeros

map_page-Inserted_example :
    Ensures
      (Inserted mem pt uart_base (entry uart_base 6))
      (map_page pool pt uart_base uart_base 6 mem)
map_page-Inserted_example =
    map_page-Inserted pt uart_base uart_base 6 (omega arith) (omega arith) mem-IsSpace

page_map-Filled_example :
    Ensures
      (FilledTo mem pt (uart_base / page_size) uart_base 6 (page_count uart_base 0x2000))
      (page_map pool pt uart_base uart_base 0x2000 6 mem)
page_map-Filled_example =
    page_map-Filled pt 6 (omega arith) uart_base uart_base 0x2000 (omega arith) (omega arith)
      (omega arith) mem-IsSpace

abbrev linker : Linker
linker = record {
  text_end = 0x80008000;
  rodata_end = 0x8000A000;
  data_end = 0x8000B000;
  stacks_start = 0x8000B000;
  intstacks_start = 0x80011000;
  bss_start = 0x8001A000;
  bss_end = 0x80020000;
  dram_end = 0x88000000;
}

linker-IsLayout : IsLayout linker
linker-IsLayout = record {
  text = omega arith;
  rodata = omega arith;
  data_section = omega arith;
  stacks = refl;
  intstacks = refl;
  bss = refl;
  bss_section = omega arith;
  heap = omega arith;
  ram = refl;
  text_aligned = refl;
  rodata_aligned = refl;
  data_aligned = refl;
  bss_aligned = refl;
}

kpage_init-Layout_example : Ensures (LayoutMapped linker) (kpage_init linker pool mem)
kpage_init-Layout_example =
    kpage_init-Layout linker 0x80021000 (0x80022000 ∷ 0x80023000 ∷ []) linker-IsLayout mem-IsPool
