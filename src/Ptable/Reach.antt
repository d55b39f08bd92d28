-- ===== src/Ptable/Reach.antt =====
-- `walk` of src/vm/ptable.rs on a tree of tables, with the tables that it adds.
use reedos.Common.{
  ℕ, suc, ◌+◌, ◌*◌, ◌/◌, ◌<◌, ◌≡◌, refl, sym, ap, ◌∙◌, subst, true, false, List, none, [], ◌∷◌,
  arith, Bool-cases, inl, inr, ok, err, Result,
}
use native.Mathlib.Decide.{ℕ_discrete}
use reedos.Machine.{Mem, Ensures, page_size, update}
use reedos.Machine.Laws.{IsWord, read-done, write-done, update_self, update_ne, Ensures-and_then}
use reedos.Palloc.{Pool, VmError, palloc}
use reedos.Palloc.Links.{Pages-le}
use reedos.Palloc.Steps.{IsPage}
use reedos.Palloc.FreeList.{IsPool, Apart, Keeps}
use reedos.Palloc.Api.{Allocated, palloc-cons, palloc-nil}
use reedos.Palloc.RoundTrip.{Apart-above, Apart-narrow}
use reedos.Kalloc.Grow.{IsPool-Apart}
use reedos.Ptable.{
  PageTable, pte_to_phy, phy_to_pte, pte_get_flag, pte_set_flag, pte_valid, link_new, walk_new,
  walk_step,
}
use reedos.Ptable.Entries.{set_flag_lem, valid_lem, entry_fields}
use reedos.Ptable.Walk.{slot, slot-IsWord, index_mut-done}
use reedos.Ptable.Tree.{is_valid, lookup, Within, IsTree}
use reedos.Ptable.Grow.{
  Grows, lookup-Grows, IsTree-Grows, rank', rank'-old, rank'-new, valid-same, slot-Within,
}

-- The tree has grown: no table is gone, no valid entry of one has changed, and the tree maps what it
-- mapped.
pub record Extends (m : Mem) (pt : PageTable) (rank : ℕ → ℕ) (m' : Mem) (pool' : Pool)
    : Type 0 where
  pub free' : List ℕ
  pub rank' : ℕ → ℕ
  pub is_pool : IsPool m' pool' free'
  pub tree : IsTree m' free' pt rank'
  pub old : (x : ℕ) → 0 < rank x → rank' x ≡ rank x
  pub maps : (va : ℕ) → lookup m' pt va ≡ lookup m pt va
  pub kept : (t q : ℕ) → 0 < rank t → Within t q → is_valid m q ≡ true → m' q ≡ m q

-- The table that the entry at `q` points to, one level below the table `t`.
pub record Below (m' : Mem) (rank' : ℕ → ℕ) (t q t' : ℕ) : Type 0 where
  pub level : suc (rank' t') ≡ rank' t
  pub valid : is_valid m' q ≡ true
  pub to : pte_to_phy (m' q) ≡ t'

-- An error is for want of a page.
abbrev pub Reached : Pool → Mem → (ℕ → ℕ) → (t q : ℕ) → Result VmError PageTable → Type 0
Reached pool' m' rank' t q (ok t') = Below m' rank' t q t'
Reached pool' m' rank' t q (err e) = pool'.free ≡ none

abbrev pub Stepped :
    Mem → PageTable → (ℕ → ℕ) → (t q : ℕ) → Result VmError PageTable × Pool → Mem → Type 0
Stepped m pt rank t q (result, pool') m' =
    (x : Extends m pt rank m' pool') × Reached pool' m' x.rank' t q result

module _ {m : Mem} {pool : Pool} {pt : PageTable} {rank : ℕ → ℕ} where
  abbrev pub extends_self :
      {free : List ℕ} → IsPool m pool free → IsTree m free pt rank → Extends m pt rank m pool
  extends_self {free} p tree = record {
    free' = free;
    rank' = rank;
    is_pool = p;
    tree = tree;
    old = λ x r. refl;
    maps = λ va. refl;
    kept = λ t q r w v. refl;
  }

  module _ {a : ℕ} {rest : List ℕ} (p : IsPool m pool (a ∷ rest))
      (tree : IsTree m (a ∷ rest) pt rank) (t q : ℕ) (upper : 1 < rank t) (w : Within t q)
      (fresh : is_valid m q ≡ false) where
    IsPage-a : IsPage a
    IsPage-a = omega (
      arith,
      p.low,
      p.high,
      p.pages.0,
      p.pages.1,
      Pages-le (a + page_size) pool.top rest p.pages.2,
    )

    own : Apart a (a + page_size) rest
    own = Apart-above a (a + page_size) (a + page_size) pool.top rest (omega arith) p.pages.2

    new-rank : rank a ≡ 0
    new-rank = elim (ℕ_discrete (rank a) 0) [
      | yes e ↦ e
      | no e ↦ absurd (omega (arith, (tree.apart a (omega arith)).0))
    ]

    abbrev link : ℕ
    link = pte_set_flag (phy_to_pte a) pte_valid

    link-to : pte_to_phy link ≡ a
    link-to = (entry_fields a 1 (omega (arith, IsPage-a)) (omega (arith, IsPage-a)) (omega arith)).0

    -- The address that `walk` goes on with.
    plain_to : pte_to_phy (phy_to_pte a) ≡ a
    unfolding pte_to_phy phy_to_pte
    plain_to = omega (arith, IsPage-a)

    link-valid : pte_get_flag link pte_valid ≡ true
    link-valid =
        rw
          (
            set_flag_lem a 1 (omega (arith, IsPage-a)) (omega arith),
            valid_lem (a / 4096 * 1024 + 1),
          )
          (ground arith)

    link-Grows :
        (m₁ : Mem)
        → Keeps m m₁ rest a (a + page_size * 1)
        → ((q' : ℕ) → Within a q' → m₁ q' ≡ 0)
        → Grows m (update m₁ q link) rank t q a
    link-Grows m₁ same zeros =
        let table = tree.page t (omega arith) in
        record {
          table = upper;
          within = w;
          fresh = fresh;
          new = new-rank;
          valid =
              ap (λ (word : ℕ). pte_get_flag word pte_valid) (update_self m₁ q link) ∙ link-valid;
          to = ap pte_to_phy (update_self m₁ q link) ∙ link-to;
          page = IsPage-a;
          zeros = λ q' w'.
              update_ne m₁ q q' link
                (λ e. omega (arith, w.low, w.high, w'.low, w'.high, (tree.apart t (omega arith)).0))
              ∙ zeros q' w';
          same = λ t' q' r w' ne.
              update_ne m₁ q q' link ne
              ∙ same q' (omega (arith, tree.page t' r, w'.low))
                  (omega (arith, (tree.apart t' r).0, w'.low, w'.high))
                  (Apart-narrow t' (t' + page_size) q' rest w'.low w'.high (tree.apart t' r).1);
        }

    -- The pool's list stands apart from the entry.
    pool-kept :
        {pool' : Pool} (m₁ : Mem) → IsPool m₁ pool' rest → IsPool (update m₁ q link) pool' rest
    pool-kept {pool'} m₁ is =
        let table = tree.page t (omega arith) in
        IsPool-Apart m₁ (update m₁ q link) pool' t (t + page_size) rest (omega arith) (omega arith)
          (tree.apart t (omega arith)).1
          (λ q' h. update_ne m₁ q q' link (omega (arith, w.low, w.high))) is

    link_new-Stepped :
        {pool' : Pool} (m₁ : Mem)
        → IsPool m₁ pool' rest
        → Keeps m m₁ rest a (a + page_size * 1)
        → ((q' : ℕ) → Within a q' → m₁ q' ≡ 0)
        → Ensures (Stepped m pt rank t q) (link_new q (ok a, pool') m₁)
    unfolding link_new
    link_new-Stepped {pool'} m₁ is same zeros =
        let g = link-Grows m₁ same zeros in
        let table = tree.page t (omega arith) in
        let word : IsWord q = record {
          low = omega (arith, w.low);
          high = omega (arith, w.high, w.aligned);
          aligned = w.aligned;
        } in
        rw (write-done word m₁ link) (
          record {
            free' = rest;
            rank' = rank' tree g own;
            is_pool = pool-kept m₁ is;
            tree = IsTree-Grows tree g own;
            old = rank'-old tree g own;
            maps = lookup-Grows tree g;
            kept = valid-same tree g;
          },
          record {
            level =
                rw plain_to
                  (omega (arith, rank'-new tree g own, rank'-old tree g own t (omega arith)));
            valid = g.valid;
            to = g.to ∙ sym plain_to;
          },
        )

  -- `palloc` has a page for the new table, or there is none.
  walk_new-Stepped :
      (free : List ℕ) (t q : ℕ)
      → IsPool m pool free
      → IsTree m free pt rank
      → 1 < rank t
      → Within t q
      → is_valid m q ≡ false
      → Ensures (Stepped m pt rank t q) (walk_new pool q true m)
  unfolding walk_new link_new
  walk_new-Stepped [] t q p tree upper w fresh = rw (palloc-nil p) (extends_self p tree, p.free)
  walk_new-Stepped (a ∷ rest) t q p tree upper w fresh =
      Ensures-and_then (Allocated pool m rest a 1) _ (palloc pool m) (link_new q)
        (palloc-cons a rest p)
        λ (result, pool') m₁ (got, bounds, is, zeros, same).
          subst (λ r. Ensures (Stepped m pt rank t q) (link_new q (r, pool') m₁)) (sym got)
            (link_new-Stepped p tree t q upper w fresh m₁ is same
              (λ q' w'. zeros q' w'.low (omega (arith, w'.high)) w'.aligned))

  pub walk_step-Stepped :
      (free : List ℕ) (t va level : ℕ)
      → IsPool m pool free
      → IsTree m free pt rank
      → 1 < rank t
      → Ensures (Stepped m pt rank t (slot t va level)) (walk_step pool t va level true m)
  unfolding walk_step
  walk_step-Stepped free t va level p tree upper =
      let table = tree.page t (omega arith) in
      let w = slot-Within t va level table in
      rw (index_mut-done t va level m, read-done (slot-IsWord t va level table) m)
        (elim (Bool-cases (is_valid m (slot t va level))) [
          | inl v ↦ rw v (
            extends_self p tree,
            record { level = tree.below t (slot t va level) upper w v; valid = v; to = refl },
          )
          | inr v ↦ rw v (walk_new-Stepped free t (slot t va level) p tree upper w v)
        ])
