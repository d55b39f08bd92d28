-- ===== src/Ptable/Map.antt =====
-- `page_map` of src/vm/ptable.rs on pages of one table of the lowest level.
use Prim.Native.Nat.{bit_or}
use reedos.Common.{
  ℕ, zero, suc, ◌+◌, ◌-◌, ◌*◌, ◌/◌, ◌%◌, ◌≤◌, ◌<◌, ◌≡◌, ◌≢◌, refl, ◌∙◌, ap, subst, sym, true, false,
  arith, ltb, ◌==◌, ok, inl, inr, ◌⊎◌, Bool-cases, leb-true, leb-false,
}
use reedos.Machine.{Mem, done, update, page_size, usize_top}
use reedos.Machine.Laws.{add-done, sub-eq, update_self, update_ne}
use reedos.Palloc.{Pool}
use reedos.Palloc.Steps.{IsPage}
use reedos.Ptable.{
  vpn, pte_to_phy, phy_to_pte, pte_get_flag, pte_set_flag, pte_valid, va_top, map_page, map_fuel,
  map_loop, page_map,
}
use reedos.Ptable.Entries.{vpn-lt, vpn_add, page_align_down_lem}
use reedos.Ptable.Walk.{slot, PointsTo, map_page-fresh}

-- The entry of the page at `phys`.
abbrev pub entry : (phys flag : ℕ) → ℕ
entry phys flag = pte_set_flag (phy_to_pte phys) (bit_or flag pte_valid)

module _ (pool : Pool) (pt t₁ t₀ va pa flag n : ℕ) (p : IsPage pt) (apart : pt ≢ t₀)
    (apart₁ : t₁ ≢ t₀) (fits : vpn va 0 + n ≤ 512) (low : va + page_size * n ≤ va_top)
    (phys : pa + page_size * n < usize_top) (end : ℕ)
    (stop : end + page_size ≡ va + page_size * n) where
  -- The state of the loop after `i` pages.
  record MappingFrom (m : Mem) (i : ℕ) : Type 0 where
    upper : PointsTo m (slot pt va 2) t₁
    lower : PointsTo m (slot t₁ va 1) t₀
    fresh : (j : ℕ) → i ≤ j → j < n → pte_get_flag (m (slot t₀ va 0 + j * 8)) pte_valid ≡ false

  -- No entry of another table is written.
  other :
      (t level i : ℕ)
      → i < n
      → IsPage t
      → t ≢ t₀
      → IsPage t₀
      → slot t va level ≢ slot t₀ va 0 + i * 8
  other t level i h q ne q₀ = omega (arith, vpn-lt va level)

  one_page :
      (m : Mem) (i : ℕ)
      → i < n
      → MappingFrom m i
      → map_page pool pt (va + page_size * i) (pa + page_size * i) flag m
        ≡ done (ok tt, pool) (update m (slot t₀ va 0 + i * 8) (entry (pa + page_size * i) flag))
  one_page m i h s =
      let (v₀, v₁, v₂) = vpn_add va i (omega arith) in
      let at : slot t₀ (va + page_size * i) 0 ≡ slot t₀ va 0 + i * 8 = omega arith in
      map_page-fresh pool (va + page_size * i) (pa + page_size * i) flag m pt t₁ t₀ (omega arith) p
        (subst (λ v. PointsTo m (pt + v * 8) t₁) (sym v₂) s.upper)
        (subst (λ v. PointsTo m (t₁ + v * 8) t₀) (sym v₁) s.lower)
        (subst (λ q. pte_get_flag (m q) pte_valid ≡ false) (sym at) (s.fresh i (omega arith) h))
      ∙ ap (λ q. done (ok tt, pool) (update m q (entry (pa + page_size * i) flag))) at

  -- One entry of the lowest table has changed.
  after_page :
      (m : Mem) (i v : ℕ)
      → i < n
      → MappingFrom m i
      → MappingFrom (update m (slot t₀ va 0 + i * 8) v) (i + 1)
  after_page m i v h s =
      let at = slot t₀ va 0 + i * 8 in
      let m₁ = update m at v in
      let w₂ : m₁ (slot pt va 2) ≡ m (slot pt va 2) =
        update_ne m at (slot pt va 2) v (other pt 2 i h p apart s.lower.2) in
      let w₁ : m₁ (slot t₁ va 1) ≡ m (slot t₁ va 1) =
        update_ne m at (slot t₁ va 1) v (other t₁ 1 i h s.upper.2 apart₁ s.lower.2) in
      record {
        upper =
            subst (λ w. (pte_get_flag w pte_valid ≡ true) × (pte_to_phy w ≡ t₁) × IsPage t₁)
              (sym w₂) s.upper;
        lower =
            subst (λ w. (pte_get_flag w pte_valid ≡ true) × (pte_to_phy w ≡ t₀) × IsPage t₀)
              (sym w₁) s.lower;
        fresh = λ j l h'.
            let e : m₁ (slot t₀ va 0 + j * 8) ≡ m (slot t₀ va 0 + j * 8) =
              update_ne m at (slot t₀ va 0 + j * 8) v (omega arith) in
            ap (λ w. pte_get_flag w pte_valid) e ∙ s.fresh j (omega arith) h';
      }

  map_loop-Mapped :
      (k : ℕ) (m : Mem) (i : ℕ)
      → i ≤ n
      → n < k + i
      → MappingFrom m i
      → (m' : Mem) × (map_loop k pool pt (va + page_size * i) end (pa + page_size * i) flag m
          ≡ done (ok tt, pool) m')
        × ((j : ℕ) → i ≤ j → j < n → m' (slot t₀ va 0 + j * 8) ≡ entry (pa + page_size * j) flag)
        × ((q : ℕ) → (q < slot t₀ va 0 + i * 8) ⊎ (slot t₀ va 0 + n * 8 ≤ q) → m' q ≡ m q)
  unfolding map_loop
  map_loop-Mapped zero m i le lt s = absurd (omega arith)
  map_loop-Mapped (suc k) m i le lt s = elim (Bool-cases (ltb i n)) [
    | inl e ↦
        let h : i < n = ground arith in
        let v = entry (pa + page_size * i) flag in
        let at = slot t₀ va 0 + i * 8 in
        let m₁ = update m at v in
        let a : va + page_size * i + page_size ≡ va + page_size * (i + 1) = omega arith in
        let b : pa + page_size * i + page_size ≡ pa + page_size * (i + 1) = omega arith in
        let (m', ran, entries, same) =
          map_loop-Mapped k m₁ (i + 1) (omega arith) (omega arith) (after_page m i v h s) in
        (
          m',
          rw
              (
                leb-true (va + page_size * i) end (omega arith),
                one_page m i h s,
                add-done (va + page_size * i) page_size m₁ (omega arith),
                add-done (pa + page_size * i) page_size m₁ (omega arith),
                a,
                b,
              )
              ran,
          λ j l h'. elim (Bool-cases (j == i)) [
            | inl f ↦
                subst (λ x. m' (slot t₀ va 0 + x * 8) ≡ entry (pa + page_size * x) flag)
                  (ground arith) (same at (inl (omega arith)) ∙ update_self m at v)
            | inr f ↦ entries j (ground arith) h'
          ],
          λ q x. same q (omega arith) ∙ update_ne m at q v (omega arith),
        )
    | inr e ↦
        let h : i ≡ n = ground arith in
        (
          m,
          rw (leb-false (va + page_size * i) end (omega arith)) refl,
          λ j l h'. absurd (omega arith),
          λ q x. refl,
        )
  ]

  start :
      (m : Mem)
      → va % page_size ≡ 0
      → 0 < n
      → page_map pool pt va pa (page_size * n) flag m
        ≡ map_loop (map_fuel va end) pool pt (va + page_size * 0) end (pa + page_size * 0) flag m
  unfolding page_map
  start m al pos =
      let a : va / page_size * page_size ≡ va = omega arith in
      let b : (va + (page_size * n - 1)) / page_size * page_size ≡ end = omega arith in
      let c : va + page_size * 0 ≡ va = omega arith in
      let d : pa + page_size * 0 ≡ pa = omega arith in
      rw
        (
          sub-eq (page_size * n) 1 (page_size * n - 1) m (omega arith),
          add-done va (page_size * n - 1) m (omega arith),
          page_align_down_lem va (omega arith),
          page_align_down_lem (va + (page_size * n - 1)) (omega arith),
          a,
          b,
          c,
          d,
        )
        refl

  -- For an address `va` that is page aligned and `n` pages from there, 0 < `n`, below 2 ^ 39 and
  -- in one table `t₀` of the lowest level, to which valid entries lead from the root table `pt`
  -- through `t₁`, pages of RAM different from `t₀`, and whose `n` entries are not valid:
  -- `page_map` of the `n` pages succeeds if the physical addresses do not overflow, the `n`
  -- entries are those of the physical pages with the flags and the valid bit, and no other word
  -- of memory and no pool changes.
  pub page_map-Mapped :
      (m : Mem)
      → va % page_size ≡ 0
      → 0 < n
      → PointsTo m (slot pt va 2) t₁
      → PointsTo m (slot t₁ va 1) t₀
      → ((j : ℕ) → j < n → pte_get_flag (m (slot t₀ va 0 + j * 8)) pte_valid ≡ false)
      → (m' : Mem) × (page_map pool pt va pa (page_size * n) flag m ≡ done (ok tt, pool) m')
        × ((j : ℕ) → j < n → m' (slot t₀ va 0 + j * 8) ≡ entry (pa + page_size * j) flag)
        × ((q : ℕ) → (q < slot t₀ va 0) ⊎ (slot t₀ va 0 + n * 8 ≤ q) → m' q ≡ m q)
  page_map-Mapped m al pos e₂ e₁ free =
      let s : MappingFrom m 0 = record { upper = e₂; lower = e₁; fresh = λ j l h. free j h } in
      let (m', ran, entries, same) =
        map_loop-Mapped (map_fuel va end) m 0 (omega arith) (omega arith) s in
      (m', start m al pos ∙ ran, λ j h. entries j (omega arith) h, λ q x. same q (omega arith))
