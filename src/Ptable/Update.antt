-- ===== src/Ptable/Update.antt =====
-- An entry written in a table of the lowest level of src/vm/ptable.rs: one page of the tree's map
-- changes.
use reedos.Common.{
  ℕ, ◌+◌, ◌/◌, ◌<◌, ◌≡◌, ◌≢◌, refl, sym, ap, ◌∙◌, subst, true, none, some, List, arith, Bool-cases,
  inl, inr, if◌then◌else◌, ◌==◌, ==_true, ==_ne,
}
use native.Mathlib.Decide.{ℕ_discrete}
use reedos.Machine.{Mem, page_size, update}
use reedos.Machine.Laws.{update_self, update_ne}
use reedos.Palloc.{Pool}
use reedos.Palloc.Steps.{IsPage}
use reedos.Palloc.FreeList.{IsPool}
use reedos.Kalloc.Grow.{IsPool-Apart}
use reedos.Ptable.{PageTable, pte_to_phy, pte_get_flag, pte_valid, va_top}
use reedos.Ptable.Entries.{vpn-lt}
use reedos.Ptable.Walk.{slot}
use reedos.Ptable.Tree.{is_valid, next_table, leaf_entry, via, lookup, Within, IsTree}
use reedos.Ptable.Grow.{slot-Within, Within-unique}
use reedos.Ptable.Reach.{Below}
use reedos.Ptable.Down.{Down}
use reedos.Ptable.Paths.{lookup-Down, Down-rank, Down-unique, lookup-page}

-- The entry for `va`, in the table `t₀` of the lowest level, becomes `e`, which is valid.
module _ {m : Mem} {free : List ℕ} {pt : PageTable} {rank : ℕ → ℕ} (tree : IsTree m free pt rank)
    (va t₀ e : ℕ) (down : Down m rank va pt 2 t₀) (valid : pte_get_flag e pte_valid ≡ true) where
  abbrev pub written : Mem
  written = update m (slot t₀ va 0) e

  rank₀ : rank t₀ ≡ 1
  rank₀ = Down-rank tree va t₀ down

  page₀ : IsPage t₀
  page₀ = tree.page t₀ (omega (arith, rank₀))

  -- No word of another table is written.
  same-word : (t q : ℕ) → 0 < rank t → Within t q → q ≢ slot t₀ va 0 → written q ≡ m q
  same-word t q r w ne = update_ne m (slot t₀ va 0) q e ne

  upper-ne : (t q : ℕ) → 1 < rank t → Within t q → q ≢ slot t₀ va 0
  upper-ne t q r w eq =
      let u =
        Within-unique t t₀ q (tree.page t (omega arith)) page₀ w
          (subst (Within t₀) (sym eq) (slot-Within t₀ va 0 page₀)) in
      omega (arith, rank₀, ap rank u)

  upper-same : (t q : ℕ) → 1 < rank t → Within t q → written q ≡ m q
  upper-same t q r w = update_ne m (slot t₀ va 0) q e (upper-ne t q r w)

  valid-back : (t q : ℕ) → 1 < rank t → Within t q → is_valid written q ≡ true → is_valid m q ≡ true
  valid-back t q r w v = sym (ap (λ word. pte_get_flag word pte_valid) (upper-same t q r w)) ∙ v

  pub IsTree-written : IsTree written free pt rank
  IsTree-written = record {
    root = tree.root;
    page = tree.page;
    apart = tree.apart;
    below = λ t q r w v. rw (upper-same t q r w) (tree.below t q r w (valid-back t q r w v));
    single = λ t t' q q' r r' w w' v v' eq.
        tree.single t t' q q' r r' w w' (valid-back t q r w v) (valid-back t' q' r' w' v') (
          sym (ap pte_to_phy (upper-same t q r w)) ∙ (eq ∙ ap pte_to_phy (upper-same t' q' r' w')));
  }

  pub IsPool-written : (pool : Pool) → IsPool m pool free → IsPool written pool free
  IsPool-written pool p =
      IsPool-Apart m written pool t₀ (t₀ + page_size) free (omega (arith, page₀))
        (omega (arith, page₀)) (tree.apart t₀ (omega (arith, rank₀)))
        (λ q h. update_ne m (slot t₀ va 0) q e (omega (arith, vpn-lt va 0))) p

  -- The path to the entry is still there.
  Below-written :
      (t q t' : ℕ) → 1 < rank t → Within t q → Below m rank t q t' → Below written rank t q t'
  Below-written t q t' r w b = record {
    level = b.level;
    valid = ap (λ word. pte_get_flag word pte_valid) (upper-same t q r w) ∙ b.valid;
    to = ap pte_to_phy (upper-same t q r w) ∙ b.to;
  }

  Down-written : Down written rank va pt 2 t₀
  Down-written =
      let (t₁, b₂, (t', b₁, eq)) = down in
      let r₁ : rank t₁ ≡ 2 = omega (arith, tree.root, b₂.level) in
      (
        t₁,
        Below-written pt (slot pt va 2) t₁ (omega (arith, tree.root))
            (slot-Within pt va 2 (tree.page pt (omega (arith, tree.root)))) b₂,
        (
          t',
          Below-written t₁ (slot t₁ va 1) t' (omega arith)
              (slot-Within t₁ va 1 (tree.page t₁ (omega arith))) b₁,
          eq,
        ),
      )

  -- The page of `va` has the new entry.
  lookup-here : lookup written pt va ≡ some e
  lookup-here =
      lookup-Down IsTree-written va t₀ Down-written
      ∙ rw (update_self m (slot t₀ va 0) e, valid) refl

  next-same : (t q : ℕ) → 1 < rank t → Within t q → next_table written q ≡ next_table m q
  next-same t q r w =
      ap (λ word. if pte_get_flag word pte_valid then some (pte_to_phy word) else none)
        (upper-same t q r w)

  leaf-other :
      (va' t₀' : ℕ)
      → va < va_top
      → va' < va_top
      → va' / page_size ≢ va / page_size
      → Down m rank va' pt 2 t₀'
      → leaf_entry written (slot t₀' va' 0) ≡ leaf_entry m (slot t₀' va' 0)
  leaf-other va' t₀' low low' other down' =
      let r = Down-rank tree va' t₀' down' in
      ap (λ word. if pte_get_flag word pte_valid then some word else none)
        (same-word t₀' (slot t₀' va' 0) (omega arith)
          (slot-Within t₀' va' 0 (tree.page t₀' (omega arith)))
          λ eq. other (sym (Down-unique tree va va' t₀ t₀' low low' down down' (sym eq))))

  lookup-other :
      (va' : ℕ)
      → va < va_top
      → va' < va_top
      → va' / page_size ≢ va / page_size
      → lookup written pt va' ≡ lookup m pt va'
  unfolding lookup
  lookup-other va' low low' other =
      let root_page = tree.page pt (omega (arith, tree.root)) in
      let w₂ = slot-Within pt va' 2 root_page in
      rw (next-same pt (slot pt va' 2) (omega (arith, tree.root)) w₂)
        (elim (Bool-cases (is_valid m (slot pt va' 2))) [
          | inr v ↦ rw v refl
          | inl v ↦
              (let t₁ : ℕ = pte_to_phy (m (slot pt va' 2)) in
                let r₁ : rank t₁ ≡ 2 = omega (
                  arith,
                  tree.root,
                  tree.below pt (slot pt va' 2) (omega (arith, tree.root)) w₂ v,
                ) in
                rw v (
                  lookup-middle t₁ r₁
                    (record { level = omega (arith, tree.root); valid = v; to = refl })))
        ])
    where
      lookup-middle :
          (t₁ : ℕ)
          → rank t₁ ≡ 2
          → Below m rank pt (slot pt va' 2) t₁
          → via (next_table written (slot t₁ va' 1)) (λ t. leaf_entry written (slot t va' 0))
            ≡ via (next_table m (slot t₁ va' 1)) (λ t. leaf_entry m (slot t va' 0))
      lookup-middle t₁ r₁ b₂ =
          let w₁ = slot-Within t₁ va' 1 (tree.page t₁ (omega arith)) in
          rw (next-same t₁ (slot t₁ va' 1) (omega arith) w₁)
            (elim (Bool-cases (is_valid m (slot t₁ va' 1))) [
              | inr v ↦ rw v refl
              | inl v ↦
                  (let t' : ℕ = pte_to_phy (m (slot t₁ va' 1)) in
                    let b₁ : Below m rank t₁ (slot t₁ va' 1) t' = record {
                      level = tree.below t₁ (slot t₁ va' 1) (omega arith) w₁ v;
                      valid = v;
                      to = refl;
                    } in
                    rw v (leaf-other va' t' low low' other (t₁, b₂, (t', b₁, refl))))
            ])

  -- What the tree maps, with the page of `va` mapped by `e`.
  pub lookup-written :
      (va' : ℕ)
      → va < va_top
      → va' < va_top
      → lookup written pt va'
        ≡ (if va' / page_size == va / page_size then some e else lookup m pt va')
  lookup-written va' low low' = elim (ℕ_discrete (va' / page_size) (va / page_size)) [
    | yes same ↦
        rw (==_true (va' / page_size) (va / page_size) same)
          (lookup-page written pt va va' same ∙ lookup-here)
    | no other ↦
        rw (==_ne (va' / page_size) (va / page_size) other) (lookup-other va' low low' other)
  ]
