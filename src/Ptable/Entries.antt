-- ===== src/Ptable/Entries.antt =====
-- Page table entries and virtual page numbers of src/vm/ptable.rs, as arithmetic.
use Prim.Native.Nat.{bit_and}
use reedos.Common.{ℕ, ◌+◌, ◌*◌, ◌/◌, ◌%◌, ◌^◌, ◌<◌, ◌≡◌, refl, ◌∙◌, sym, not, arith, ◌==◌}
use reedos.Common.Bits.{bit_and_low, bit_and_high, bit_or_low}
use reedos.Machine.{page_size, usize_top}
use reedos.Ptable.{
  vpn, pte_to_phy, phy_to_pte, pte_get_flag, pte_set_flag, pte_valid, page_align_down, va_top,
}

pub vpn_lem : (va level : ℕ) → vpn va level ≡ va / 2 ^ (12 + 9 * level) % 512
unfolding vpn
vpn_lem va level = bit_and_low 9 (va / 2 ^ (12 + 9 * level))

pub vpn-lt : (va level : ℕ) → vpn va level < 512
vpn-lt va level = omega (arith, vpn_lem va level)

pub valid_lem : (pte : ℕ) → pte_get_flag pte pte_valid ≡ not (pte % 2 == 0)
unfolding pte_get_flag
valid_lem pte = rw (bit_and_low 1 pte) refl

pub page_align_down_lem : (p : ℕ) → p < usize_top → page_align_down p ≡ p / page_size * page_size
unfolding page_align_down
page_align_down_lem p h = bit_and_high 12 52 p (omega arith)

pub set_flag_lem :
    (p flag : ℕ)
    → p < 2 ^ 56
    → flag < 1024
    → pte_set_flag (phy_to_pte p) flag ≡ p / 4096 * 1024 + flag
unfolding pte_set_flag phy_to_pte
set_flag_lem p flag h f =
    let q : p / 4096 * 1024 % usize_top ≡ p / 4096 * 1024 = omega arith in
    rw q (bit_or_low 10 (p / 4096) flag f)

-- An entry made of a page aligned address below 2 ^ 56 and flags below 1024 gives back both.
pub entry_fields :
    (p flag : ℕ)
    → p < 2 ^ 56
    → p % page_size ≡ 0
    → flag < 1024
    → (pte_to_phy (pte_set_flag (phy_to_pte p) flag) ≡ p)
      × (bit_and (pte_set_flag (phy_to_pte p) flag) 1023 ≡ flag)
unfolding pte_to_phy
entry_fields p flag h al f =
    rw (set_flag_lem p flag h f)
      (omega arith, bit_and_low 10 (p / 4096 * 1024 + flag) ∙ omega arith)

-- Below 2 ^ 39, a virtual address is its three indices, at bits 30, 21 and 12, and its offset in
-- the page.
pub vpn_parts :
    (va : ℕ)
    → va < va_top
    → vpn va 2 * 2 ^ 30 + vpn va 1 * 2 ^ 21 + vpn va 0 * 2 ^ 12 + va % page_size ≡ va
vpn_parts va h = rw (vpn_lem va 2, vpn_lem va 1, vpn_lem va 0) (omega arith)

-- The indices of the page `i` pages above, in the same table of the lowest level.
pub vpn_add :
    (va i : ℕ)
    → vpn va 0 + i < 512
    → (vpn (va + page_size * i) 0 ≡ vpn va 0 + i)
      × (vpn (va + page_size * i) 1 ≡ vpn va 1)
      × (vpn (va + page_size * i) 2 ≡ vpn va 2)
vpn_add va i h =
    let a = vpn_lem va 0 in
    let b = vpn_lem (va + page_size * i) 0 in
    let q : (va + page_size * i) / page_size / 512 ≡ va / page_size / 512 = omega arith in
    (
      omega arith,
      vpn_lem (va + page_size * i) 1 ∙ sym (vpn_lem va 1 ∙ omega arith),
      vpn_lem (va + page_size * i) 2 ∙ sym (vpn_lem va 2 ∙ omega arith),
    )
