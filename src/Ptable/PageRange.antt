-- ===== src/Ptable/PageRange.antt =====
-- A range of pages in the map of src/vm/ptable.rs's tables.
use reedos.Common.{
  ℕ, suc, ◌+◌, ◌-◌, ◌*◌, ◌/◌, ◌≤◌, ◌<◌, ◌≡◌, refl, Bool, true, false, ◌&&◌, Option, some, arith,
  inl, inr, ◌⊎◌, if◌then◌else◌, ltb, leb, ==_true, ==_ne,
}
use native.Mathlib.Decide.{ℕ_discrete}
use reedos.Machine.{page_size}
use reedos.Ptable.Map.{entry}
use reedos.Ptable.MapPage.{insert}

abbrev pub is_among : (first n va : ℕ) → Bool
is_among first n va = leb first (va / page_size) && ltb (va / page_size) (first + n)

-- The map with `n` pages from the page `first` on mapped to those from `phys` on.
abbrev pub insert_pages : (first phys flag n : ℕ) → (ℕ → Option ℕ) → ℕ → Option ℕ
insert_pages first phys flag n f va =
    if is_among first n va
    then some (entry (phys + page_size * (va / page_size - first)) flag)
    else f va

pub is_among-true :
    (first n va : ℕ)
    → first ≤ va / page_size
    → va / page_size < first + n
    → is_among first n va ≡ true
is_among-true first n va l h = ground arith

pub is_among-false :
    (first n va : ℕ)
    → (va / page_size < first) ⊎ (first + n ≤ va / page_size)
    → is_among first n va ≡ false
is_among-false first n va h = ground arith

pub insert_pages-zero :
    (first phys flag : ℕ) (f : ℕ → Option ℕ) (va : ℕ) → insert_pages first phys flag 0 f va ≡ f va
insert_pages-zero first phys flag f va = rw (is_among-false first 0 va (omega arith)) refl

pub is_among-bounds :
    (first n va : ℕ)
    → is_among first n va ≡ true
    → (first ≤ va / page_size) × (va / page_size < first + n)
is_among-bounds first n va h = (ground arith, ground arith)

range-cases : (first n x : ℕ) → ((first ≤ x) × (x < first + n)) ⊎ ((x < first) ⊎ (first + n ≤ x))
range-cases first n x = omega arith

-- One page in front.
pub insert_pages-suc :
    (first phys flag n : ℕ) (f : ℕ → Option ℕ) (start va : ℕ)
    → start / page_size ≡ first
    → insert_pages (suc first) (phys + page_size) flag n (insert start (entry phys flag) f) va
      ≡ insert_pages first phys flag (suc n) f va
insert_pages-suc first phys flag n f start va at = elim (ℕ_discrete (va / page_size) first) [
  | yes e ↦
      (let zero_offset : phys + page_size * (va / page_size - first) ≡ phys = omega arith in
        rw
          (
            is_among-false (suc first) n va (omega arith),
            is_among-true first (suc n) va (omega arith) (omega arith),
            ==_true (va / page_size) (start / page_size) (omega arith),
            zero_offset,
          )
          refl)
  | no e ↦ (elim (range-cases first (suc n) (va / page_size)) [
    | inl (l, h) ↦
        (let offset : phys + page_size + page_size * (va / page_size - suc first)
              ≡ phys + page_size * (va / page_size - first) =
            omega arith in
          rw
            (
              is_among-true (suc first) n va (omega arith) (omega arith),
              is_among-true first (suc n) va l h,
              offset,
            )
            refl)
    | inr out ↦
        rw
          (
            is_among-false (suc first) n va (omega arith),
            is_among-false first (suc n) va out,
            ==_ne (va / page_size) (start / page_size) (omega arith),
          )
          refl
  ])
]
