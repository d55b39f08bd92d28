-- ===== src/Ptable/Layout.antt =====
-- The kernel's own page table (`kpage_init` of src/vm/ptable.rs) for the layout of kernel.ld.
use reedos.Common.{ℕ, ◌+◌, ◌%◌, ◌<◌, ◌≤◌, ◌≡◌, inl, none, Result, ok, err, List, [], ◌∷◌, arith}
use reedos.Machine.{Mem, Ensures, page_size}
use reedos.Palloc.{Pool, VmError}
use reedos.Palloc.FreeList.{IsPool}
use reedos.Ptable.{PageTable, Linker, Mapping, va_top, kernel_mappings, kpage_init}
use reedos.Ptable.Ranges.{Ranges, Clear, AllClear}
use reedos.Ptable.Access.{IsLayout, access, own_entry, lookup-access}
use reedos.Ptable.Tree.{lookup}
use reedos.Ptable.MapPage.{IsSpace}
use reedos.Machine.Laws.{Ensures-mono}
use reedos.Ptable.Kernel.{KernelMapped, kpage_init-KernelMapped}

-- Ranges in ascending order, from `lo` on.
abbrev Ascending : ℕ → List Mapping → Type 0
Ascending lo [] = Unit
Ascending lo (mapping ∷ mappings) = (lo ≤ mapping.base) × Ascending mapping.stop mappings

Ascending-Clear :
    (mapping : Mapping) (lo : ℕ) (mappings : List Mapping)
    → mapping.stop ≤ lo
    → Ranges mappings
    → Ascending lo mappings
    → Clear mapping mappings
Ascending-Clear mapping lo [] below ranges up = tt
Ascending-Clear mapping lo (other ∷ mappings) below (range, ranges) (le, up) = (
  inl (omega arith),
  Ascending-Clear mapping other.stop mappings (omega (arith, range.size)) ranges up,
)

Ascending-AllClear :
    (lo : ℕ) (mappings : List Mapping) → Ranges mappings → Ascending lo mappings → AllClear mappings
Ascending-AllClear lo [] ranges up = tt
Ascending-AllClear lo (mapping ∷ mappings) (range, ranges) (le, up) = (
  Ascending-Clear mapping mapping.stop mappings (omega arith) ranges up,
  Ascending-AllClear mapping.stop mappings ranges up,
)

abbrev Bounds : List Mapping → Type 0
Bounds [] = Unit
Bounds (mapping ∷ mappings) =
    ((mapping.base % page_size ≡ 0)
      × (mapping.stop % page_size ≡ 0)
      × (mapping.base < mapping.stop)
      × (mapping.stop + page_size ≤ va_top)
      × (mapping.flag < 1024))
    × Bounds mappings

Ranges-Bounds : (mappings : List Mapping) → Bounds mappings → Ranges mappings
Ranges-Bounds [] bounds = tt
Ranges-Bounds (mapping ∷ mappings) ((a, w, s, t, f), bounds) =
    (record { aligned = a; whole = w; size = s; top = t; flags = f }, Ranges-Bounds mappings bounds)

layout-Ascending : (l : Linker) → IsLayout l → Ascending 0 (kernel_mappings l)
layout-Ascending l layout = omega arith

layout-Ranges : (l : Linker) → IsLayout l → Ranges (kernel_mappings l)
layout-Ranges l layout = Ranges-Bounds (kernel_mappings l) (omega arith)

-- What `kpage_init` leaves, by the layout.
abbrev pub LayoutMapped : Linker → Result VmError PageTable × Pool → Mem → Type 0
LayoutMapped l (ok pt, pool') m' =
    IsSpace pt pool' m' × ((va : ℕ) → va < va_top → lookup m' pt va ≡ own_entry va (access l va))
LayoutMapped l (err _, pool') m' = pool'.free ≡ none

KernelMapped-LayoutMapped :
    (l : Linker) (result : Result VmError PageTable × Pool) (m' : Mem)
    → IsLayout l
    → KernelMapped l result m'
    → LayoutMapped l result m'
KernelMapped-LayoutMapped l (ok pt, pool') m' layout (space, identity, others) =
    (space, λ va low. lookup-access l m' pt va layout identity others low)
KernelMapped-LayoutMapped l (err _, pool') m' layout empty = empty

-- For a layout by kernel.ld, on a pool with a free page, `kpage_init` ends with neither a panic nor a
-- fault. Either it returns a page table, which is a tree of tables apart from the free pages of the
-- pool, and in it the addresses below 2 ^ 39 are mapped as `access` says: the page of the serial port,
-- the data, the bss, the rest of RAM, the upper two of the three pages for each hart's stack and the
-- odd pages of the interrupt stacks to themselves for reading and writing, the text for reading and
-- execution, the read-only data for reading, and no other address, so that the guard pages are not
-- mapped. Or it is an error and the pool has no free page left.
pub kpage_init-Layout :
    {m : Mem} {pool : Pool} (l : Linker) (a : ℕ) (rest : List ℕ)
    → IsLayout l
    → IsPool m pool (a ∷ rest)
    → Ensures (LayoutMapped l) (kpage_init l pool m)
kpage_init-Layout {m} {pool} l a rest layout p =
    Ensures-mono (KernelMapped l) (LayoutMapped l) (kpage_init l pool m)
      (kpage_init-KernelMapped l a rest (layout-Ranges l layout)
        (Ascending-AllClear 0 (kernel_mappings l) (layout-Ranges l layout)
          (layout-Ascending l layout))
        p)
      λ result m' mapped. KernelMapped-LayoutMapped l result m' layout mapped
