-- ===== src/Ptable/Tree.antt =====
-- The tables of src/vm/ptable.rs as a tree, and what it maps: a partial function from addresses to
-- entries.
use reedos.Common.{
  ℕ, suc, ◌+◌, ◌%◌, ◌≤◌, ◌<◌, ◌≡◌, Bool, true, Option, none, some, List, if◌then◌else◌,
}
use reedos.Machine.{Mem, page_size}
use reedos.Palloc.Steps.{IsPage}
use reedos.Palloc.FreeList.{Apart}
use reedos.Ptable.{PageTable, pte_to_phy, pte_get_flag, pte_valid}
use reedos.Ptable.Walk.{slot}

abbrev pub is_valid : Mem → ℕ → Bool
is_valid m q = pte_get_flag (m q) pte_valid

-- The table that an entry points to, and the entry of a page.
abbrev pub next_table : Mem → ℕ → Option ℕ
next_table m q = if is_valid m q then some (pte_to_phy (m q)) else none

abbrev pub leaf_entry : Mem → ℕ → Option ℕ
leaf_entry m q = if is_valid m q then some (m q) else none

abbrev pub via : Option ℕ → (ℕ → Option ℕ) → Option ℕ
via none f = none
via (some t) f = f t

-- What the tables say of an address.
unfoldable pub lookup : Mem → PageTable → ℕ → Option ℕ
lookup m pt va =
    via (next_table m (slot pt va 2))
      λ t₁. via (next_table m (slot t₁ va 1)) λ t₀. leaf_entry m (slot t₀ va 0)

-- A word of the table at `t`.
pub record Within (t q : ℕ) : Type 0 where
  pub low : t ≤ q
  pub high : q < t + page_size
  pub aligned : q % 8 ≡ 0

-- The table `pt` and those below it: `rank t` is the number of levels from the table `t` down, 0 where
-- there is no table. Tables are pages of RAM that are not free; an entry that is valid points to a
-- table of the level below, and no two entries to the same one.
pub record IsTree (m : Mem) (free : List ℕ) (pt : PageTable) (rank : ℕ → ℕ) : Type 0 where
  pub root : rank pt ≡ 3
  pub page : (t : ℕ) → 0 < rank t → IsPage t
  pub apart : (t : ℕ) → 0 < rank t → Apart t (t + page_size) free
  pub below :
      (t q : ℕ)
      → 1 < rank t
      → Within t q
      → is_valid m q ≡ true
      → suc (rank (pte_to_phy (m q))) ≡ rank t
  pub single :
      (t t' q q' : ℕ)
      → 1 < rank t
      → 1 < rank t'
      → Within t q
      → Within t' q'
      → is_valid m q ≡ true
      → is_valid m q' ≡ true
      → pte_to_phy (m q) ≡ pte_to_phy (m q')
      → q ≡ q'
