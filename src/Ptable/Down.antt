-- ===== src/Ptable/Down.antt =====
-- The loop of `walk` in src/vm/ptable.rs, from the root of a tree of tables to the lowest level.
use reedos.Common.{
  ℕ, zero, suc, ◌<◌, ◌≡◌, refl, sym, ap, ◌∙◌, subst, true, List, none, arith, Result, ok, err,
  ltb-true,
}
use reedos.Machine.{Mem, Cmd, Ensures, pure, ◌>>=◌}
use reedos.Machine.Laws.{Ensures-and_then, Ensures-mono}
use reedos.Palloc.{Pool, VmError}
use reedos.Palloc.Steps.{IsPage}
use reedos.Palloc.FreeList.{IsPool}
use reedos.Ptable.{
  PageTable, vpn, pte_to_phy, pte_get_flag, pte_valid, va_top, walk_step, walk_down, walk,
  index_mut,
}
use reedos.Ptable.Walk.{slot, index_mut-done}
use reedos.Ptable.Tree.{Within, IsTree}
use reedos.Ptable.Grow.{slot-Within}
use reedos.Ptable.Reach.{Extends, Below, Stepped, extends_self, walk_step-Stepped}

module _ {m m₁ m₂ : Mem} {pt : PageTable} {rank : ℕ → ℕ} {pool₁ pool₂ : Pool} where
  abbrev pub extends_trans :
      (x : Extends m pt rank m₁ pool₁) → Extends m₁ pt x.rank' m₂ pool₂ → Extends m pt rank m₂ pool₂
  extends_trans x y = record {
    free' = y.free';
    rank' = y.rank';
    is_pool = y.is_pool;
    tree = y.tree;
    old = λ t r. y.old t (subst (λ n. 0 < n) (sym (x.old t r)) r) ∙ x.old t r;
    maps = λ va. y.maps va ∙ x.maps va;
    kept = λ t q r w v.
        y.kept t q (subst (λ n. 0 < n) (sym (x.old t r)) r) w
          (ap (λ word. pte_get_flag word pte_valid) (x.kept t q r w v) ∙ v)
        ∙ x.kept t q r w v;
  }

-- An entry to a lower table stays.
module _ {m₁ m₂ : Mem} {pt : PageTable} {rank : ℕ → ℕ} {pool₂ : Pool} where
  Below-kept :
      (y : Extends m₁ pt rank m₂ pool₂) (t q t' : ℕ)
      → 1 < rank t
      → Within t q
      → Below m₁ rank t q t'
      → Below m₂ y.rank' t q t'
  Below-kept y t q t' r w b =
      let kept = y.kept t q (omega arith) w b.valid in
      record {
        level = omega (arith, b.level, y.old t (omega arith), y.old t' (omega (arith, b.level)));
        valid = ap (λ word. pte_get_flag word pte_valid) kept ∙ b.valid;
        to = ap pte_to_phy kept ∙ b.to;
      }

-- The tables for `va` from `t`, `level` levels down to `t₀`.
abbrev pub Down : Mem → (ℕ → ℕ) → (va t level t₀ : ℕ) → Type 0
Down m rank va t zero t₀ = t ≡ t₀
Down m rank va t (suc level) t₀ =
    (t' : ℕ) × Below m rank t (slot t va (suc level)) t' × Down m rank va t' level t₀

abbrev pub Found : Pool → Mem → (ℕ → ℕ) → (va t level : ℕ) → Result VmError PageTable → Type 0
Found pool m rank va t level (ok t₀) = Down m rank va t level t₀
Found pool m rank va t level (err e) = pool.free ≡ none

abbrev pub Walked :
    Mem → PageTable → (ℕ → ℕ) → (va t level : ℕ) → Result VmError PageTable × Pool → Mem → Type 0
Walked m pt rank va t level (result, pool') m' =
    (x : Extends m pt rank m' pool') × Found pool' m' x.rank' va t level result

module _ (pt : PageTable) (va : ℕ) where
  Walked-suc :
      {m m₁ m₂ : Mem} {rank : ℕ → ℕ} {pool₁ pool₂ : Pool} (t t' level : ℕ)
      (result : Result VmError PageTable) (x : Extends m pt rank m₁ pool₁)
      → 1 < x.rank' t
      → IsPage t
      → Below m₁ x.rank' t (slot t va (suc level)) t'
      → Walked m₁ pt x.rank' va t' level (result, pool₂) m₂
      → Walked m pt rank va t (suc level) (result, pool₂) m₂
  Walked-suc t t' level (err e) x r page b (y, found) = (extends_trans x y, found)
  Walked-suc t t' level (ok t₀) x r page b (y, found) = (
    extends_trans x y,
    (t', Below-kept y t (slot t va (suc level)) t' r (slot-Within t va (suc level) page) b, found),
  )

  pub walk_down-Walked :
      {m : Mem} {pool : Pool} {rank : ℕ → ℕ} (free : List ℕ) (level t : ℕ)
      → IsPool m pool free
      → IsTree m free pt rank
      → rank t ≡ suc level
      → Ensures (Walked m pt rank va t level) (walk_down level pool t va true m)
  unfolding walk_down
  walk_down-Walked free zero t p tree r = (extends_self p tree, refl)
  walk_down-Walked {m} {pool} {rank} free (suc level) t p tree r =
      Ensures-and_then (Stepped m pt rank t (slot t va (suc level))) _
        (walk_step pool t va (suc level) true m) _
        (walk_step-Stepped free t va (suc level) p tree (omega arith))
        λ (result, pool₁) m₁ s.
          go result pool₁ m₁ s
            (λ m' rank' free' t' p' tree'. walk_down-Walked free' level t' p' tree')
    where
      go :
          (result : Result VmError PageTable) (pool₁ : Pool) (m₁ : Mem)
          → Stepped m pt rank t (slot t va (suc level)) (result, pool₁) m₁
          → ((m' : Mem) (rank' : ℕ → ℕ) (free' : List ℕ) (t' : ℕ)
              → IsPool m' pool₁ free'
              → IsTree m' free' pt rank'
              → rank' t' ≡ suc level
              → Ensures (Walked m' pt rank' va t' level) (walk_down level pool₁ t' va true m'))
          → Ensures (Walked m pt rank va t (suc level)) (
              (elim result as (λ _. Cmd (Result VmError PageTable × Pool)) [
                | err e ↦ pure (err e, pool₁)
                | ok t' ↦ walk_down level pool₁ t' va true
              ])
                m₁)
      go (err e) pool₁ m₁ (x, empty) below = (x, empty)
      go (ok t') pool₁ m₁ (x, b) below =
          let r' : suc level < x.rank' t = omega (arith, x.old t (omega arith)) in
          Ensures-mono (Walked m₁ pt x.rank' va t' level) _ (walk_down level pool₁ t' va true m₁)
            (below m₁ x.rank' x.free' t' x.is_pool x.tree
              (omega (arith, b.level, x.old t (omega arith))))
            λ (result', pool₂) m₂ y.
              Walked-suc t t' level result' x (omega arith) (tree.page t (omega arith)) b y

  -- What `walk` makes of the address of an entry.
  abbrev pub WalkedTo : Mem → (ℕ → ℕ) → Result VmError ℕ × Pool → Mem → Type 0
  WalkedTo m rank (ok q, pool') m' =
      (x : Extends m pt rank m' pool') × (t₀ : ℕ) × Down m' x.rank' va pt 2 t₀ × (q ≡ slot t₀ va 0)
  WalkedTo m rank (err e, pool') m' = Extends m pt rank m' pool' × (pool'.free ≡ none)

  pub walk-WalkedTo :
      {m : Mem} {pool : Pool} {rank : ℕ → ℕ} (free : List ℕ)
      → va < va_top
      → IsPool m pool free
      → IsTree m free pt rank
      → Ensures (WalkedTo m rank) (walk pool pt va true m)
  unfolding walk
  walk-WalkedTo {m} {pool} {rank} free low p tree = rw (ltb-true va va_top low) (
      Ensures-and_then (Walked m pt rank va pt 2) _ (walk_down 2 pool pt va true m) _
        (walk_down-Walked free 2 pt p tree tree.root) λ (result, pool₁) m₁ w. go result pool₁ m₁ w)
    where
      go :
          (result : Result VmError PageTable) (pool₁ : Pool) (m₁ : Mem)
          → Walked m pt rank va pt 2 (result, pool₁) m₁
          → Ensures (WalkedTo m rank) (
              (elim result as (λ _. Cmd (Result VmError ℕ × Pool)) [
                | err e ↦ pure (err e, pool₁)
                | ok leaf ↦ (do pte ← index_mut leaf (vpn va 0); pure (ok pte, pool₁))
              ])
                m₁)
      go (err e) pool₁ m₁ (x, empty) = (x, empty)
      go (ok t₀) pool₁ m₁ (x, down) = rw (index_mut-done t₀ va 0 m₁) (x, t₀, down, refl)
