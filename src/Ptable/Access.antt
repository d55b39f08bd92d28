-- ===== src/Ptable/Access.antt =====
-- The layout of memory by kernel.ld, and how the kernel may reach each address.
use Prim.Native.Nat.{bit_or}
use reedos.Common.{
  ℕ, ◌+◌, ◌-◌, ◌*◌, ◌/◌, ◌%◌, ◌<◌, ◌≤◌, ◌≡◌, refl, ap, ◌∙◌, ◌⊎◌, inl, inr, true, false, ltb, ◌==◌,
  if◌then◌else◌, Bool-cases, Option, none, some, arith,
}
use reedos.Machine.{Mem, page_size, dram_base}
use reedos.Machine
use reedos.Ptable.{PageTable, Linker, va_top, pte_valid, kernel_mappings}
use reedos.Ptable.Entries.{set_flag_lem}
use reedos.Ptable.Map.{entry}
use reedos.Ptable.Tree.{lookup}
use reedos.Ptable.Ranges.{Identity, Uncovered}

-- The sections of kernel.ld in order, each of whole pages: the stacks and the interrupt stacks of two
-- harts follow the data, and behind a guard page the bss up to the rest of RAM. None of the sections is
-- empty.
pub record IsLayout (l : Linker) : Type 0 where
  pub text : dram_base < l.text_end
  pub rodata : l.text_end < l.rodata_end
  pub data_section : l.rodata_end < l.data_end
  pub stacks : l.stacks_start ≡ l.data_end
  pub intstacks : l.intstacks_start ≡ l.stacks_start + page_size * 6
  pub bss : l.bss_start ≡ l.intstacks_start + page_size * 9
  pub bss_section : l.bss_start < l.bss_end
  pub heap : l.bss_end < l.dram_end
  pub ram : l.dram_end ≡ Machine.dram_end
  pub text_aligned : l.text_end % page_size ≡ 0
  pub rodata_aligned : l.rodata_end % page_size ≡ 0
  pub data_aligned : l.data_end % page_size ≡ 0
  pub bss_aligned : l.bss_end % page_size ≡ 0

-- The bits 1, 2 and 3 of an entry let the kernel read, write and execute.
abbrev read_only : Option ℕ
read_only = some 2

abbrev read_write : Option ℕ
read_write = some 6

abbrev read_execute : Option ℕ
read_execute = some 10

-- The lowest of three pages guards the stack in the two above.
abbrev stack_access : (page : ℕ) → Option ℕ
stack_access page = if page % 3 == 0 then none else read_write

-- Each page for an interrupt stack stands between two guard pages.
abbrev intstack_access : (page : ℕ) → Option ℕ
intstack_access page = if page % 2 == 0 then none else read_write

-- The page of the serial port.
abbrev device_access : (va : ℕ) → Option ℕ
device_access va =
    if ltb va 0x10000000 then none else if ltb va 0x10001000 then read_write else none

-- The text, the read-only data and the data.
abbrev section_access : Linker → (va : ℕ) → Option ℕ
section_access l va =
    if ltb va l.text_end
    then read_execute
    else if ltb va l.rodata_end
    then read_only
    else read_write

-- The bss and the rest of RAM.
abbrev heap_access : (va : ℕ) → Option ℕ
heap_access va = if ltb va 0x88000000 then read_write else none

-- How the kernel may reach an address, from the bottom of memory to the top.
abbrev pub access : Linker → (va : ℕ) → Option ℕ
access l va =
    if ltb va 0x80000000
    then device_access va
    else if ltb va l.data_end
    then section_access l va
    else if ltb va l.intstacks_start
    then stack_access ((va - l.stacks_start) / 4096)
    else if ltb va l.bss_start
    then intstack_access ((va - l.intstacks_start) / 4096)
    else heap_access va

-- The entry of an address that is mapped to itself: the number of its page, its access and the valid
-- bit.
abbrev pub own_entry : (va : ℕ) → Option ℕ → Option ℕ
own_entry va none = none
own_entry va (some bits) = some (va / 4096 * 1024 + (bits + 1))

own_entry-flag :
    (va flag : ℕ)
    → va < va_top
    → flag < 1023
    → bit_or flag pte_valid ≡ flag + 1
    → some (entry (va / page_size * page_size) flag) ≡ own_entry va (some flag)
own_entry-flag va flag low small valid =
    rw (valid, set_flag_lem (va / page_size * page_size) (flag + 1) (omega arith) (omega arith))
      (ap some (omega arith))

ltb-cases : (a b : ℕ) → ((a < b) × (ltb a b ≡ true)) ⊎ ((b ≤ a) × (ltb a b ≡ false))
ltb-cases a b = elim (Bool-cases (ltb a b)) [
  | inl e ↦ inl (ground arith, e)
  | inr e ↦ inr (ground arith, e)
]

-- What is mapped, and that nothing else is.
abbrev Others : Linker → Mem → PageTable → Type 0
Others l m pt = (va : ℕ) → va < va_top → Uncovered va (kernel_mappings l) → lookup m pt va ≡ none

module _ (l : Linker) (m : Mem) (pt : PageTable) where
  lookup-device :
      (va : ℕ)
      → IsLayout l
      → Identity m pt (kernel_mappings l)
      → Others l m pt
      → va < va_top
      → va < 0x80000000
      → lookup m pt va ≡ own_entry va (device_access va)
  lookup-device va layout (uart, _) others low below = elim (ltb-cases va 0x10000000) [
    | inl (h, e) ↦ rw e (others va low (omega arith))
    | inr (h, e) ↦ elim (ltb-cases va 0x10001000) [
      | inl (h', e') ↦ rw (e, e') (uart va h h' ∙ own_entry-flag va 6 low (omega arith) refl)
      | inr (h', e') ↦ rw (e, e') (others va low (omega arith))
    ]
  ]

  lookup-section :
      (va : ℕ)
      → IsLayout l
      → Identity m pt (kernel_mappings l)
      → va < va_top
      → 0x80000000 ≤ va
      → va < l.data_end
      → lookup m pt va ≡ own_entry va (section_access l va)
  lookup-section va layout (_, (text, (rodata, (data_range, _)))) low above below =
      elim (ltb-cases va l.text_end) [
        | inl (h, e) ↦ rw e (text va above h ∙ own_entry-flag va 10 low (omega arith) refl)
        | inr (h, e) ↦ elim (ltb-cases va l.rodata_end) [
          | inl (h', e') ↦ rw (e, e') (rodata va h h' ∙ own_entry-flag va 2 low (omega arith) refl)
          | inr (h', e') ↦
              rw (e, e') (data_range va h' below ∙ own_entry-flag va 6 low (omega arith) refl)
        ]
      ]

  lookup-heap :
      (va : ℕ)
      → IsLayout l
      → Identity m pt (kernel_mappings l)
      → Others l m pt
      → va < va_top
      → l.bss_start ≤ va
      → lookup m pt va ≡ own_entry va (heap_access va)
  lookup-heap va layout (_, (_, (_, (_, (_, (_, (_, (_, (_, (_, (bss, (heap, _)))))))))))) others
        low above =
      let own = own_entry-flag va 6 low (omega arith) refl in
      elim (ltb-cases va 0x88000000) [
        | inl (h, e) ↦ elim (ltb-cases va l.bss_end) [
          | inl (h', _) ↦ rw e (bss va above h' ∙ own)
          | inr (h', _) ↦ rw e (heap va h' (omega arith) ∙ own)
        ]
        | inr (h, e) ↦ rw e (others va low (omega arith))
      ]

  lookup-stack :
      (va : ℕ)
      → IsLayout l
      → Identity m pt (kernel_mappings l)
      → Others l m pt
      → va < va_top
      → l.data_end ≤ va
      → va < l.intstacks_start
      → lookup m pt va ≡ own_entry va (stack_access ((va - l.stacks_start) / 4096))
  lookup-stack va layout (i₀, (i₁, (i₂, (i₃, (s₀, (s₁, is)))))) others low above below =
      elim (Bool-cases ((va - l.stacks_start) / 4096 % 3 == 0)) [
        | inl e ↦
            let guard : (va - l.stacks_start) / 4096 % 3 ≡ 0 = ground arith in
            rw e (others va low (omega arith))
        | inr e ↦ (elim (ltb-cases va (l.stacks_start + page_size * 3)) [
          | inl (h, _) ↦
              rw e (s₀ va (ground arith) (omega arith) ∙ own_entry-flag va 6 low (omega arith) refl)
          | inr (h, _) ↦
              rw e (s₁ va (ground arith) (omega arith) ∙ own_entry-flag va 6 low (omega arith) refl)
        ])
      ]

  lookup-intstack :
      (va : ℕ)
      → IsLayout l
      → Identity m pt (kernel_mappings l)
      → Others l m pt
      → va < va_top
      → l.intstacks_start ≤ va
      → va < l.bss_start
      → lookup m pt va ≡ own_entry va (intstack_access ((va - l.intstacks_start) / 4096))
  lookup-intstack va layout (i₀, (i₁, (i₂, (i₃, (s₀, (s₁, (m₀, (n₀, (m₁, (n₁, is)))))))))) others
        low above below =
      let start = l.intstacks_start in
      let own = own_entry-flag va 6 low (omega arith) refl in
      elim (Bool-cases ((va - start) / 4096 % 2 == 0)) [
        | inl e ↦
            let guard : (va - start) / 4096 % 2 ≡ 0 = ground arith in
            rw e (others va low (omega arith))
        | inr e ↦
            let odd : (va - start) / 4096 % 2 ≡ 1 = ground arith in
            (elim (ltb-cases va (start + page_size * 4)) [
              | inl (h, _) ↦ (elim (ltb-cases va (start + page_size * 2)) [
                | inl (h', _) ↦ rw e (m₀ va (omega arith) (omega arith) ∙ own)
                | inr (h', _) ↦ rw e (n₀ va (omega arith) (omega arith) ∙ own)
              ])
              | inr (h, _) ↦ (elim (ltb-cases va (start + page_size * 6)) [
                | inl (h', _) ↦ rw e (m₁ va (omega arith) (omega arith) ∙ own)
                | inr (h', _) ↦ rw e (n₁ va (omega arith) (omega arith) ∙ own)
              ])
            ])
      ]

  -- The map of a page table that has the ranges of the kernel and nothing else.
  pub lookup-access :
      (va : ℕ)
      → IsLayout l
      → Identity m pt (kernel_mappings l)
      → Others l m pt
      → va < va_top
      → lookup m pt va ≡ own_entry va (access l va)
  lookup-access va layout identity others low = elim (ltb-cases va 0x80000000) [
    | inl (h, e) ↦ rw e (lookup-device va layout identity others low h)
    | inr (h₁, e₁) ↦ elim (ltb-cases va l.data_end) [
      | inl (h, e) ↦ rw (e₁, e) (lookup-section va layout identity low h₁ h)
      | inr (h₂, e₂) ↦ elim (ltb-cases va l.intstacks_start) [
        | inl (h, e) ↦ rw (e₁, e₂, e) (lookup-stack va layout identity others low h₂ h)
        | inr (h₃, e₃) ↦ elim (ltb-cases va l.bss_start) [
          | inl (h, e) ↦ rw (e₁, e₂, e₃, e) (lookup-intstack va layout identity others low h₃ h)
          | inr (h, e) ↦ rw (e₁, e₂, e₃, e) (lookup-heap va layout identity others low h)
        ]
      ]
    ]
  ]
