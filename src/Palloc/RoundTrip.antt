-- ===== src/Palloc/RoundTrip.antt =====
-- Pages that `palloc_plural` hands out come back to the free list by `pfree_plural`.
use reedos.Common.{
  ℕ, zero, suc, ◌+◌, ◌*◌, ◌≤◌, ◌<◌, ◌≡◌, refl, List, [], ◌∷◌, ◌++◌, arith, inr, ◌⊎◌, ltb-false, ok,
  err, Result, sym, subst,
}
use reedos.Machine.{Mem, Cmd, pure, page_size, null, Ensures, ◌>>=◌}
use reedos.Machine.Laws.{Ensures-and_then, Ensures-mono}
use reedos.Palloc.{Pool, VmError, palloc_plural, pfree_plural}
use reedos.Palloc.Links.{Pages, Pages-le, run, first}
use reedos.Palloc.FreeList.{IsPool, Apart, insert}
use reedos.Palloc.FreePages.{IsRegion}
use reedos.Palloc.AllocPages.{Pages-run_rest}
use reedos.Palloc.Api.{Allocated, Freed, SameBounds, palloc_plural-run, pfree_plural-insert}

pub Apart-above : (a b lo hi : ℕ) (xs : List ℕ) → b ≤ lo → Pages lo hi xs → Apart a b xs
Apart-above a b lo hi [] h ps = tt
Apart-above a b lo hi (x ∷ xs) h (p, al, ps) =
    (inr (omega arith), Apart-above a b (x + page_size) hi xs (omega arith) ps)

pub Apart-narrow :
    (lo hi q : ℕ) (xs : List ℕ) → lo ≤ q → q < hi → Apart lo hi xs → Apart q (q + 1) xs
Apart-narrow lo hi q [] l h ap = tt
Apart-narrow lo hi q (x ∷ xs) l h (ax, ap) = (omega arith, Apart-narrow lo hi q xs l h ap)

-- A region below all free pages goes to the front.
pub insert-front :
    (a n lo hi : ℕ) (xs : List ℕ) → a < lo → Pages lo hi xs → insert a n xs ≡ run n a ++ xs
insert-front a n lo hi [] lt ps = refl
insert-front a n lo hi (x ∷ xs) lt (p, al, ps) = rw (ltb-false x a (omega arith))

-- The first pages of a free list, after they have been taken, come back to the front.
pub pfree_plural-front :
    {m₁ : Mem} {pool' : Pool} (pool : Pool) (a n : ℕ) (rest : List ℕ)
    → Pages pool.bottom pool.top (run n a ++ rest)
    → 0 < n
    → SameBounds pool pool'
    → IsPool m₁ pool' rest
    → Ensures
        (λ (result, pool'') m₂. (result ≡ ok tt) × IsPool m₂ pool'' (run n a ++ rest))
        (pfree_plural pool' a n m₁)
pfree_plural-front pool a zero rest ps pos bounds is = absurd (omega arith)
pfree_plural-front {m₁} {pool'} pool a (suc n) rest ps pos (b, t) is =
    let stop : ℕ = a + page_size * suc n in
    let above = Pages-run_rest n pool.bottom pool.top a rest ps in
    let r : IsRegion pool' rest a (suc n) = record {
      aligned = ps.1;
      low = omega (arith, ps.0);
      high = omega (arith, Pages-le stop pool.top rest above);
      apart = Apart-above a stop stop pool.top rest (omega arith) above;
    } in
    Ensures-mono (Freed pool' m₁ rest a (suc n)) _ (pfree_plural pool' a (suc n) m₁)
      (pfree_plural-insert rest a (suc n) is r pos)
      λ (result, pool'') m₂ (ended, bounds', is', same'). (
        ended,
        subst (IsPool m₂ pool'') (insert-front a (suc n) stop pool.top rest (omega arith) above)
            is',
      )

-- `pfree_plural` of the pages that a call of `palloc_plural` has returned. An error stays one.
abbrev pub give_back : ℕ → Result VmError ℕ × Pool → Cmd (Result VmError (Unit {0}) × Pool)
give_back n (err e, pool) = pure (err e, pool)
give_back n (ok page, pool) = pfree_plural pool page n

-- Where the first free pages are `n` adjacent ones from `a` on, 0 < `n`, and `n` is 1 or the next free
-- page is adjacent too, `palloc_plural` of `n` pages succeeds, `pfree_plural` of `n` pages from the
-- address that it returns on succeeds on the new pool, and the free pages are those of the start.
pub palloc_plural-pfree_plural :
    {m : Mem} {pool : Pool} (a n : ℕ) (rest : List ℕ)
    → IsPool m pool (run n a ++ rest)
    → 0 < n
    → (n ≡ 1) ⊎ (first rest null ≡ a + page_size * n)
    → Ensures
        (λ (result, pool') m'. (result ≡ ok tt) × IsPool m' pool' (run n a ++ rest))
        ((palloc_plural pool n >>= give_back n) m)
palloc_plural-pfree_plural {m} {pool} a n rest p pos enough =
    Ensures-and_then (Allocated pool m rest a n) _ (palloc_plural pool n m) (give_back n)
      (palloc_plural-run a n rest p pos enough)
      λ (result, pool') m₁ (got, bounds, is, zeros, same).
        subst
          (λ r.
            Ensures (λ (result, pool'') m'. (result ≡ ok tt) × IsPool m' pool'' (run n a ++ rest))
              (give_back n (r, pool') m₁))
          (sym got) (pfree_plural-front pool a n rest p.pages pos bounds is)
