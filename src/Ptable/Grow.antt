-- ===== src/Ptable/Grow.antt =====
-- A new table in the tree of src/vm/ptable.rs, where an entry was not valid, maps nothing new.
use reedos.Common.{
  ℕ, suc, ◌+◌, ◌<◌, ◌≡◌, ◌≢◌, refl, sym, ap, ◌∙◌, subst, true, false, List, ◌∷◌, ◌-◌, arith,
  Bool-cases, inl, inr, ◌⊎◌, if◌then◌else◌, ◌==◌,
}
use native.Mathlib.Decide.{ℕ_discrete}
use reedos.Machine.{Mem, page_size}
use reedos.Palloc.Steps.{IsPage}
use reedos.Palloc.FreeList.{Apart}
use reedos.Ptable.{PageTable, pte_to_phy, pte_get_flag, pte_valid}
use reedos.Ptable.Entries.{vpn-lt, valid_lem}
use reedos.Ptable.Walk.{slot}
use reedos.Ptable.Tree.{is_valid, next_table, leaf_entry, via, lookup, Within, IsTree}

pub slot-Within : (t va level : ℕ) → IsPage t → Within t (slot t va level)
slot-Within t va level p = record {
  low = omega arith;
  high = omega (arith, vpn-lt va level);
  aligned = omega arith;
}

-- Two tables, which are pages, have no word in common.
pub Within-unique : (t t' q : ℕ) → IsPage t → IsPage t' → Within t q → Within t' q → t ≡ t'
Within-unique t t' q p p' w w' = omega (arith, w.low, w.high, w'.low, w'.high)

-- The entry at `s` of the table `t`, which was not valid, points to the page `a`, all zero. No other
-- word of a table changes.
pub record Grows (m m' : Mem) (rank : ℕ → ℕ) (t s a : ℕ) : Type 0 where
  pub table : 1 < rank t
  pub within : Within t s
  pub fresh : is_valid m s ≡ false
  pub new : rank a ≡ 0
  pub valid : is_valid m' s ≡ true
  pub to : pte_to_phy (m' s) ≡ a
  pub page : IsPage a
  pub zeros : (q : ℕ) → Within a q → m' q ≡ 0
  pub same : (t' q : ℕ) → 0 < rank t' → Within t' q → q ≢ s → m' q ≡ m q

module _ {m m' : Mem} {free : List ℕ} {pt : PageTable} {rank : ℕ → ℕ} {t s a : ℕ}
    (tree : IsTree m free pt rank) (g : Grows m m' rank t s a) where
  -- An entry that was valid has not changed.
  pub valid-same : (t' q : ℕ) → 0 < rank t' → Within t' q → is_valid m q ≡ true → m' q ≡ m q
  valid-same t' q r w v = g.same t' q r w (λ e. cc (subst (λ p. is_valid m p ≡ true) e v, g.fresh))

  zero-invalid : (q : ℕ) → m' q ≡ 0 → is_valid m' q ≡ false
  zero-invalid q z = rw z (valid_lem 0)

  -- An entry that was not valid points to nothing, or to the new table, which has no valid entry.
  invalid-next :
      (t' q : ℕ)
      → 0 < rank t'
      → Within t' q
      → is_valid m q ≡ false
      → (is_valid m' q ≡ false) ⊎ ((is_valid m' q ≡ true) × (pte_to_phy (m' q) ≡ a))
  invalid-next t' q r w v = elim (ℕ_discrete q s) [
    | yes e ↦
        inr (subst (λ p. (is_valid m' p ≡ true) × (pte_to_phy (m' p) ≡ a)) (sym e) (g.valid, g.to))
    | no e ↦ inl (ap (λ (word : ℕ). pte_get_flag word pte_valid) (g.same t' q r w e) ∙ v)
  ]

  -- No word of another table is that of the entry.
  not_s : (t' q : ℕ) → 0 < rank t' → Within t' q → q ≡ s → rank t' ≢ 1
  not_s t' q r w e one =
      let u =
        Within-unique t' t s (tree.page t' r) (tree.page t (omega (arith, g.table)))
          (subst (Within t') e w) g.within in
      omega (arith, one, g.table, ap rank u)

  -- The lowest table's entry.
  leaf-same : (t₀ va : ℕ) → rank t₀ ≡ 1 → leaf_entry m' (slot t₀ va 0) ≡ leaf_entry m (slot t₀ va 0)
  leaf-same t₀ va r =
      let p : IsPage t₀ = tree.page t₀ (omega arith) in
      let w = slot-Within t₀ va 0 p in
      rw
        (g.same t₀ (slot t₀ va 0) (omega arith) w
          (λ e. not_s t₀ (slot t₀ va 0) (omega arith) w e (omega arith)))
        refl

  from_middle :
      (t₁ va : ℕ)
      → rank t₁ ≡ 2
      → via (next_table m' (slot t₁ va 1)) (λ t₀. leaf_entry m' (slot t₀ va 0))
        ≡ via (next_table m (slot t₁ va 1)) (λ t₀. leaf_entry m (slot t₀ va 0))
  from_middle t₁ va r =
      let w = slot-Within t₁ va 1 (tree.page t₁ (omega arith)) in
      elim (Bool-cases (is_valid m (slot t₁ va 1))) [
        | inl v ↦
            (let t₀ : ℕ = pte_to_phy (m (slot t₁ va 1)) in
              let r₀ = tree.below t₁ (slot t₁ va 1) (omega arith) w v in
              rw (valid-same t₁ (slot t₁ va 1) (omega arith) w v, v)
                (leaf-same t₀ va (omega arith)))
        | inr v ↦ (elim (invalid-next t₁ (slot t₁ va 1) (omega arith) w v) [
          | inl v' ↦ rw (v, v') refl
          | inr (v', to) ↦
              rw
                (
                  v,
                  v',
                  to,
                  zero-invalid (slot a va 0) (g.zeros (slot a va 0) (slot-Within a va 0 g.page)),
                )
                refl
        ])
      ]

  pub lookup-Grows : (va : ℕ) → lookup m' pt va ≡ lookup m pt va
  unfolding lookup
  lookup-Grows va =
      let q = slot pt va 2 in
      let w = slot-Within pt va 2 (tree.page pt (omega (arith, tree.root))) in
      elim (Bool-cases (is_valid m (slot pt va 2))) [
        | inl v ↦
            (let t₁ : ℕ = pte_to_phy (m (slot pt va 2)) in
              let r₁ = tree.below pt (slot pt va 2) (omega (arith, tree.root)) w v in
              rw (valid-same pt (slot pt va 2) (omega (arith, tree.root)) w v, v)
                (from_middle t₁ va (omega (arith, tree.root))))
        | inr v ↦ (elim (invalid-next pt (slot pt va 2) (omega (arith, tree.root)) w v) [
          | inl v' ↦ rw (v, v') refl
          | inr (v', to) ↦
              rw
                (
                  v,
                  v',
                  to,
                  zero-invalid (slot a va 1) (g.zeros (slot a va 1) (slot-Within a va 1 g.page)),
                )
                refl
        ])
      ]

-- The tree with the new table.
module _ {m m' : Mem} {rest : List ℕ} {pt : PageTable} {rank : ℕ → ℕ} {t s a : ℕ}
    (tree : IsTree m (a ∷ rest) pt rank) (g : Grows m m' rank t s a)
    (own : Apart a (a + page_size) rest) where
  abbrev pub rank' : ℕ → ℕ
  rank' x = if x == a then rank t - 1 else rank x

  pub rank'-new : rank' a ≡ rank t - 1
  rank'-new = ground arith

  pub rank'-old : (x : ℕ) → 0 < rank x → rank' x ≡ rank x
  rank'-old x r = ground (arith, g.new)

  -- A valid entry is the new one, or one that was there.
  entry-cases :
      (t' q : ℕ)
      → 1 < rank' t'
      → Within t' q
      → is_valid m' q ≡ true
      → ((q ≡ s) × (t' ≡ t))
        ⊎ ((1 < rank t') × (rank' t' ≡ rank t') × (m' q ≡ m q) × (is_valid m q ≡ true))
  entry-cases t' q r w v = elim (ℕ_discrete t' a) [
    | yes e ↦ absurd (cc (v, zero-invalid tree g q (g.zeros q (subst (λ x. Within x q) e w))))
    | no e ↦
        (let r' : rank' t' ≡ rank t' = ground arith in
          elim (ℕ_discrete q s) [
            | yes e' ↦ inl (
              e',
              Within-unique t' t s (tree.page t' (omega arith))
                  (tree.page t (omega (arith, g.table))) (subst (Within t') e' w) g.within,
            )
            | no e' ↦
                (let h = g.same t' q (omega arith) w e' in
                  inr (
                    omega arith,
                    r',
                    h,
                    sym (ap (λ (word : ℕ). pte_get_flag word pte_valid) h) ∙ v,
                  ))
          ])
  ]

  below' :
      (t' q : ℕ)
      → 1 < rank' t'
      → Within t' q
      → is_valid m' q ≡ true
      → suc (rank' (pte_to_phy (m' q))) ≡ rank' t'
  below' t' q r w v = elim (entry-cases t' q r w v) [
    | inl (e, e') ↦
        (let child : pte_to_phy (m' q) ≡ a = ap (λ p. pte_to_phy (m' p)) e ∙ g.to in
          rw (child, e') (omega (arith, rank'-new, rank'-old t (omega (arith, g.table)), g.table)))
    | inr (r', old, h, v') ↦
        (let b = tree.below t' q r' w v' in
          rw h (omega (arith, b, old, rank'-old (pte_to_phy (m q)))))
  ]

  old-child :
      (t' q : ℕ)
      → 1 < rank t'
      → Within t' q
      → m' q ≡ m q
      → is_valid m q ≡ true
      → pte_to_phy (m' q) ≢ a
  old-child t' q r w h v e =
      let b = tree.below t' q r w v in omega (arith, b, g.new, ap rank (ap pte_to_phy (sym h) ∙ e))

  single' :
      (t₁ t₂ q₁ q₂ : ℕ)
      → 1 < rank' t₁
      → 1 < rank' t₂
      → Within t₁ q₁
      → Within t₂ q₂
      → is_valid m' q₁ ≡ true
      → is_valid m' q₂ ≡ true
      → pte_to_phy (m' q₁) ≡ pte_to_phy (m' q₂)
      → q₁ ≡ q₂
  single' t₁ t₂ q₁ q₂ r₁ r₂ w₁ w₂ v₁ v₂ e = elim (entry-cases t₁ q₁ r₁ w₁ v₁) [
    | inl (s₁, _) ↦ (elim (entry-cases t₂ q₂ r₂ w₂ v₂) [
      | inl (s₂, _) ↦ s₁ ∙ sym s₂
      | inr (r, old, h, v) ↦
          absurd (old-child t₂ q₂ r w₂ h v (sym e ∙ (ap (λ p. pte_to_phy (m' p)) s₁ ∙ g.to)))
    ])
    | inr (r, old, h, v) ↦ (elim (entry-cases t₂ q₂ r₂ w₂ v₂) [
      | inl (s₂, _) ↦
          absurd (old-child t₁ q₁ r w₁ h v (e ∙ (ap (λ p. pte_to_phy (m' p)) s₂ ∙ g.to)))
      | inr (r', old', h', v') ↦
          tree.single t₁ t₂ q₁ q₂ r r' w₁ w₂ v v' (ap pte_to_phy (sym h) ∙ (e ∙ ap pte_to_phy h'))
    ])
  ]

  rank'-cases : (x : ℕ) → 0 < rank' x → (x ≡ a) ⊎ (0 < rank x)
  rank'-cases x r = elim (ℕ_discrete x a) [ yes e ↦ inl e | no e ↦ inr (ground arith) ]

  pub IsTree-Grows : IsTree m' rest pt rank'
  IsTree-Grows = record {
    root = rank'-old pt (omega (arith, tree.root)) ∙ tree.root;
    page = λ x r. elim (rank'-cases x r) [
      | inl e ↦ subst IsPage (sym e) g.page
      | inr r' ↦ tree.page x r'
    ];
    apart = λ x r. elim (rank'-cases x r) [
      | inl e ↦ subst (λ y. Apart y (y + page_size) rest) (sym e) own
      | inr r' ↦ (tree.apart x r').1
    ];
    below = below';
    single = single';
  }
