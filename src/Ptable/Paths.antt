-- ===== src/Ptable/Paths.antt =====
-- The path of an address through the tree of tables of src/vm/ptable.rs: no two pages have one entry.
use reedos.Common.{ℕ, ◌/◌, ◌<◌, ◌≡◌, refl, sym, ap, ◌∙◌, subst, List, arith}
use reedos.Machine.{Mem, page_size}
use reedos.Palloc.Steps.{IsPage}
use reedos.Ptable.{PageTable, vpn, va_top}
use reedos.Ptable.Entries.{vpn_lem, vpn_parts}
use reedos.Ptable.Walk.{slot}
use reedos.Ptable.Tree.{leaf_entry, lookup, Within, IsTree}
use reedos.Ptable.Grow.{slot-Within, Within-unique}
use reedos.Ptable.Down.{Down}

-- The tables say the same of all addresses of a page.
pub lookup-page :
    (m : Mem) (pt : PageTable) (va va' : ℕ)
    → va' / page_size ≡ va / page_size
    → lookup m pt va' ≡ lookup m pt va
unfolding lookup
lookup-page m pt va va' same =
    let v₂ : vpn va' 2 ≡ vpn va 2 = omega (arith, vpn_lem va' 2, vpn_lem va 2) in
    let v₁ : vpn va' 1 ≡ vpn va 1 = omega (arith, vpn_lem va' 1, vpn_lem va 1) in
    let v₀ : vpn va' 0 ≡ vpn va 0 = omega (arith, vpn_lem va' 0, vpn_lem va 0) in
    rw (v₂, v₁, v₀) refl

module _ {m : Mem} {free : List ℕ} {pt : PageTable} {rank : ℕ → ℕ}
    (tree : IsTree m free pt rank) where
  -- The path to an entry, in the tree.
  pub lookup-Down :
      (va t₀ : ℕ) → Down m rank va pt 2 t₀ → lookup m pt va ≡ leaf_entry m (slot t₀ va 0)
  unfolding lookup
  lookup-Down va t₀ (t₁, b₂, (t', b₁, e)) = rw (b₂.valid, b₂.to, b₁.valid, b₁.to, e) refl

  pub Down-rank : (va t₀ : ℕ) → Down m rank va pt 2 t₀ → rank t₀ ≡ 1
  Down-rank va t₀ (t₁, b₂, (t', b₁, e)) = omega (arith, tree.root, b₂.level, b₁.level, ap rank e)

  slot-eq :
      (t t' va va' level : ℕ)
      → IsPage t
      → IsPage t'
      → slot t va level ≡ slot t' va' level
      → (t ≡ t') × (vpn va level ≡ vpn va' level)
  slot-eq t t' va va' level p p' e =
      let same =
        Within-unique t t' (slot t va level) p p' (slot-Within t va level p)
          (subst (Within t') (sym e) (slot-Within t' va' level p')) in
      (same, omega (arith, same))

  -- Two addresses with one entry are in one page.
  pub Down-unique :
      (va va' t₀ t₀' : ℕ)
      → va < va_top
      → va' < va_top
      → Down m rank va pt 2 t₀
      → Down m rank va' pt 2 t₀'
      → slot t₀ va 0 ≡ slot t₀' va' 0
      → va / page_size ≡ va' / page_size
  Down-unique va va' t₀ t₀' low low' (t₁, b₂, (u, b₁, e)) (t₁', b₂', (u', b₁', e')) same =
      let root_page = tree.page pt (omega (arith, tree.root)) in
      let r₁ : rank t₁ ≡ 2 = omega (arith, tree.root, b₂.level) in
      let r₁' : rank t₁' ≡ 2 = omega (arith, tree.root, b₂'.level) in
      let r₀ = Down-rank va t₀ (t₁, b₂, (u, b₁, e)) in
      let r₀' = Down-rank va' t₀' (t₁', b₂', (u', b₁', e')) in
      let page₁ = tree.page t₁ (omega arith) in
      let page₁' = tree.page t₁' (omega arith) in
      let (e₀, v₀) =
        slot-eq t₀ t₀' va va' 0 (tree.page t₀ (omega arith)) (tree.page t₀' (omega arith)) same in
      let same₁ =
        tree.single t₁ t₁' (slot t₁ va 1) (slot t₁' va' 1) (omega arith) (omega arith)
          (slot-Within t₁ va 1 page₁) (slot-Within t₁' va' 1 page₁') b₁.valid b₁'.valid
          (b₁.to ∙ (e ∙ (e₀ ∙ (sym e' ∙ sym b₁'.to)))) in
      let (e₁, v₁) = slot-eq t₁ t₁' va va' 1 page₁ page₁' same₁ in
      let same₂ =
        tree.single pt pt (slot pt va 2) (slot pt va' 2) (omega (arith, tree.root))
          (omega (arith, tree.root)) (slot-Within pt va 2 root_page)
          (slot-Within pt va' 2 root_page) b₂.valid b₂'.valid (b₂.to ∙ (e₁ ∙ sym b₂'.to)) in
      let (_, v₂) = slot-eq pt pt va va' 2 root_page root_page same₂ in
      omega (arith, vpn_parts va low, vpn_parts va' low', v₀, v₁, v₂)
