-- ===== src/Ptable/Walk.antt =====
-- `walk` and `page_map` of src/vm/ptable.rs where the tables of the upper levels are there.
use Prim.Native.Nat.{bit_or}
use reedos.Common.{
  ℕ, ◌+◌, ◌*◌, ◌<◌, ◌≡◌, refl, Bool, true, false, arith, ltb-true, ok, err, inl, inr, ◌⊎◌,
}
use reedos.Machine.{Mem, done, update}
use reedos.Machine.Laws.{IsWord, read-done, write-done}
use reedos.Palloc.{Pool, palloc_fail}
use reedos.Palloc.Steps.{IsPage}
use reedos.Ptable.{
  vpn, pte_to_phy, phy_to_pte, pte_get_flag, pte_set_flag, pte_valid, va_top, index_mut, walk_new,
  walk_step, walk_down, walk, map_page,
}
use reedos.Ptable.Entries.{vpn-lt}

-- The entry for `va` at `level` in the table at `t`.
abbrev pub slot : (t va level : ℕ) → ℕ
slot t va level = t + vpn va level * 8

pub slot-IsWord : (t va level : ℕ) → IsPage t → IsWord (slot t va level)
slot-IsWord t va level p = omega (arith, vpn-lt va level)

-- The entry is valid, and points to the page `below`.
abbrev pub PointsTo : Mem → ℕ → ℕ → Type 0
PointsTo m entry below =
    (pte_get_flag (m entry) pte_valid ≡ true) × (pte_to_phy (m entry) ≡ below) × IsPage below

pub index_mut-done :
    (t va level : ℕ) (m : Mem) → index_mut t (vpn va level) m ≡ done (slot t va level) m
unfolding index_mut
index_mut-done t va level m = rw (ltb-true (vpn va level) 512 (vpn-lt va level)) refl

module _ (pool : Pool) (alloc_new : Bool) (va : ℕ) (m : Mem) where
  step_present :
      (t below level : ℕ)
      → IsPage t
      → PointsTo m (slot t va level) below
      → walk_step pool t va level alloc_new m ≡ done (ok below, pool) m
  unfolding walk_step
  step_present t below level p (valid, to, q) =
      rw (index_mut-done t va level m, read-done (slot-IsWord t va level p) m, valid, to) refl

  -- Where the entries of the two upper levels for an address below 2 ^ 39 are valid and point to
  -- pages of RAM, and the root table is a page of RAM, `walk` returns the address of the entry in
  -- the lowest table, with and without `alloc_new`, and neither the pool nor memory changes.
  pub walk_present :
      (pt t₁ t₀ : ℕ)
      → va < va_top
      → IsPage pt
      → PointsTo m (slot pt va 2) t₁
      → PointsTo m (slot t₁ va 1) t₀
      → walk pool pt va alloc_new m ≡ done (ok (slot t₀ va 0), pool) m
  unfolding walk walk_down
  walk_present pt t₁ t₀ h p e₂ e₁ =
      rw
        (
          ltb-true va va_top h,
          step_present pt t₁ 2 p e₂,
          step_present t₁ t₀ 1 e₂.2 e₁,
          index_mut-done t₀ va 0 m,
        )
        refl

  -- Without `alloc_new`, for an address below 2 ^ 39 and a root table that is a page of RAM,
  -- `walk` is the error PallocFail where the entry of the root table is not valid, and where that
  -- is valid, points to a page of RAM, and the entry in this page is not valid; neither the pool
  -- nor memory changes.
  pub walk_absent :
      (pt t₁ : ℕ)
      → alloc_new ≡ false
      → va < va_top
      → IsPage pt
      → (pte_get_flag (m (slot pt va 2)) pte_valid ≡ false)
        ⊎ (PointsTo m (slot pt va 2) t₁ × (pte_get_flag (m (slot t₁ va 1)) pte_valid ≡ false))
      → walk pool pt va alloc_new m ≡ done (err palloc_fail, pool) m
  unfolding walk walk_down walk_step walk_new
  walk_absent pt t₁ off h p (inl e) =
      rw
        (
          off,
          ltb-true va va_top h,
          index_mut-done pt va 2 m,
          read-done (slot-IsWord pt va 2 p) m,
          e,
        )
        refl
  walk_absent pt t₁ off h p (inr (e₂, e)) =
      rw
        (
          ltb-true va va_top h,
          step_present pt t₁ 2 p e₂,
          off,
          index_mut-done t₁ va 1 m,
          read-done (slot-IsWord t₁ va 1 e₂.2) m,
          e,
        )
        refl

module _ (pool : Pool) (va phys flag : ℕ) (m : Mem) (pt t₁ t₀ : ℕ) (h : va < va_top) (p : IsPage pt)
    (e₂ : PointsTo m (slot pt va 2) t₁) (e₁ : PointsTo m (slot t₁ va 1) t₀) where
  abbrev leaf : ℕ
  leaf = slot t₀ va 0

  abbrev mapped : Mem
  mapped = update m leaf (pte_set_flag (phy_to_pte phys) (bit_or flag pte_valid))

  pub map_page-fresh :
      pte_get_flag (m leaf) pte_valid ≡ false
      → map_page pool pt va phys flag m ≡ done (ok tt, pool) mapped
  unfolding map_page pte_get_flag
  map_page-fresh e =
      let w = slot-IsWord t₀ va 0 e₁.2 in
      rw
        (
          walk_present pool true va m pt t₁ t₀ h p e₂ e₁,
          read-done w m,
          e,
          write-done w m (pte_set_flag (phy_to_pte phys) (bit_or flag pte_valid)),
        )
        refl

  -- One round of `page_map`, for an address below 2 ^ 39 whose two upper entries are valid and
  -- point to pages of RAM, is the error PallocFail where the entry in the lowest table is valid
  -- already; neither the pool nor memory changes.
  pub map_page-taken :
      pte_get_flag (m leaf) pte_valid ≡ true
      → map_page pool pt va phys flag m ≡ done (err palloc_fail, pool) m
  unfolding map_page pte_get_flag
  map_page-taken e =
      rw (walk_present pool true va m pt t₁ t₀ h p e₂ e₁, read-done (slot-IsWord t₀ va 0 e₁.2) m, e)
        refl
