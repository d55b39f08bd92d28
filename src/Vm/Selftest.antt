-- ===== src/Vm/Selftest.antt =====
-- `test_palloc` of src/vm.rs leaves the free list as it was.
use reedos.Common.{
  ℕ, zero, suc, ◌+◌, ◌*◌, ◌%◌, ◌≤◌, ◌≡◌, refl, ap, ◌∙◌, subst, inl, inr, List, ◌∷◌, ◌++◌, arith,
  ltb-true,
}
use reedos.Machine.{
  Mem, done, Ensures, ◌>>=◌, pure, update, page_size, null, dram_base, dram_end, write,
}
use reedos.Machine.Laws.{IsWord, write-done, update_ne, Ensures-and_then}
use reedos.Palloc.{Pool, palloc, palloc_plural, pfree, pfree_plural}
use reedos.Palloc.Links.{Pages, Pages-le, run, first}
use reedos.Palloc.Steps.{SameOutside}
use reedos.Palloc.FreeList.{IsPool, insert}
use reedos.Palloc.FreePages.{IsRegion}
use reedos.Palloc.AllocPages.{Pages-run_rest}
use reedos.Palloc.Api.{
  Allocated, Freed, SameBounds, palloc-cons, palloc_plural-run, pfree-insert, pfree_plural-insert,
}
use reedos.Palloc.RoundTrip.{Apart-above, insert-front}
use reedos.Kalloc.Grow.{IsPool-Apart}
use reedos.Galloc.Pages.{expect-Ensures}
use reedos.Vm.{write_fives, test_palloc}

-- `n` words of RAM are written, and no word outside them changes.
write_fives-done :
    (n p : ℕ) (m : Mem)
    → dram_base ≤ p
    → p + 8 * n ≤ dram_end
    → p % 8 ≡ 0
    → (m' : Mem) × (write_fives n p m ≡ done tt m') × SameOutside m m' p (p + 8 * n)
unfolding write_fives
write_fives-done zero p m lo hi al = (m, refl, λ q h. refl)
write_fives-done (suc n) p m lo hi al =
    let w : IsWord p = record { low = lo; high = omega arith; aligned = al } in
    let m₁ : Mem = update m p 0x0505050505050505 in
    let (m', ran, same) = write_fives-done n (p + 8) m₁ (omega arith) (omega arith) (omega arith) in
    (
      m',
      rw (write-done w m 0x0505050505050505) ran,
      λ q h. same q (omega arith) ∙ update_ne m p q 0x0505050505050505 (omega arith),
    )

-- The pages `a` and, from `b` on, `n` more, which are all below the pages `rest`.
module _ (pool : Pool) (a b k : ℕ) (rest : List ℕ)
    (pages : Pages pool.bottom pool.top (a ∷ (run (suc k) b ++ rest))) where
  abbrev n : ℕ
  n = suc k

  above : Pages (b + page_size * n) pool.top rest
  above = Pages-run_rest k (a + page_size) pool.top b rest pages.2

  top : b + page_size * n ≤ pool.top
  top = Pages-le (b + page_size * n) pool.top rest above

  order : (pool.bottom ≤ a) × (a % page_size ≡ 0) × (a + page_size ≤ b) × (b % page_size ≡ 0)
  order = (pages.0, pages.1, pages.2.0, pages.2.1)

  insert-both : insert b n (a ∷ rest) ≡ a ∷ (run n b ++ rest)
  insert-both =
      rw (ltb-true a b (omega (arith, order)))
        (ap (λ xs. a ∷ xs) (insert-front b n (b + page_size * n) pool.top rest (omega arith) above))

  -- The two calls that free, on a memory with the pages `rest` free.
  finish :
      {m : Mem} {pool' : Pool}
      → SameBounds pool pool'
      → IsPool m pool' rest
      → Ensures
          (λ pool'' m'. IsPool m' pool'' (a ∷ (run n b ++ rest)))
          ((pfree pool' a >>= λ (_, pool₃). pfree_plural pool₃ b n >>= λ (_, pool₄). pure pool₄) m)
  finish {m} {pool'} (bottom, t) is =
      let r : IsRegion pool' rest a 1 = record {
        aligned = pages.1;
        low = omega (arith, order);
        high = omega (arith, order, top);
        apart =
            Apart-above a (a + page_size * 1) (b + page_size * n) pool.top rest
              (omega (arith, order)) above;
      } in
      Ensures-and_then (Freed pool' m rest a 1) _ (pfree pool' a m) _ (pfree-insert rest a is r)
        λ (_, pool₃) m₃ (_, (bottom₃, t₃), is₃, _).
          let is₃' : IsPool m₃ pool₃ (a ∷ rest) =
            subst (IsPool m₃ pool₃)
              (insert-front a 1 (b + page_size * n) pool.top rest (omega (arith, order)) above)
              is₃ in
          let r₃ : IsRegion pool₃ (a ∷ rest) b n = record {
            aligned = pages.2.1;
            low = omega (arith, order);
            high = omega (arith, top);
            apart = (
              inl (omega (arith, order)),
              Apart-above b (b + page_size * n) (b + page_size * n) pool.top rest (omega arith)
                  above,
            );
          } in
          Ensures-and_then (Freed pool₃ m₃ (a ∷ rest) b n) _ (pfree_plural pool₃ b n m₃) _
            (pfree_plural-insert (a ∷ rest) b n is₃' r₃ (omega arith))
            λ (_, pool₄) m₄ (_, _, is₄, _). subst (IsPool m₄ pool₄) insert-both is₄

-- The two writes of the test touch none of the pages that are free at the time.
module _ (pool : Pool) (a b : ℕ) (rest : List ℕ)
    (pages : Pages pool.bottom pool.top (a ∷ (run 5 b ++ rest))) (low : dram_base ≤ pool.bottom)
    (high : pool.top ≤ dram_end) where
  write-IsPool :
      {m : Mem} {pool₁ : Pool}
      → IsPool m pool₁ (run 5 b ++ rest)
      → (m' : Mem) × (write a 0xdeadbeaf m ≡ done tt m') × IsPool m' pool₁ (run 5 b ++ rest)
  write-IsPool {m} {pool₁} is =
      let (bottom, aligned, below, _) = order pool a b 4 rest pages in
      let w : IsWord a = record {
        low = omega arith;
        high = omega (arith, top pool a b 4 rest pages);
        aligned = omega arith;
      } in
      (
        update m a 0xdeadbeaf,
        write-done w m 0xdeadbeaf,
        IsPool-Apart m (update m a 0xdeadbeaf) pool₁ a (a + page_size) (run 5 b ++ rest) aligned
            (omega arith)
            (Apart-above a (a + page_size) (a + page_size) pool.top (run 5 b ++ rest) (omega arith)
              pages.2)
            (λ q h. update_ne m a q 0xdeadbeaf (omega arith)) is,
      )

  write_fives-IsPool :
      {m : Mem} {pool₂ : Pool}
      → IsPool m pool₂ rest
      → (m' : Mem) × (write_fives 1024 b m ≡ done tt m') × IsPool m' pool₂ rest
  write_fives-IsPool {m} {pool₂} is =
      let (bottom, aligned, below, aligned_b) = order pool a b 4 rest pages in
      let stop : ℕ = b + page_size * 5 in
      let (m', ran, same) =
        write_fives-done 1024 b m (omega arith) (omega (arith, top pool a b 4 rest pages))
          (omega arith) in
      (
        m',
        ran,
        IsPool-Apart m m' pool₂ b (b + 8 * 1024) rest aligned_b (omega arith)
            (Apart-above b (b + 8 * 1024) stop pool.top rest (omega arith)
              (above pool a b 4 rest pages))
            same is,
      )

-- On a pool whose free pages are `a`, then five adjacent ones from `b` on and then `rest`, the first
-- of which is adjacent too, the test ends with neither a panic nor a fault, and the free pages are
-- those of the start.
pub test_palloc-IsPool :
    {m : Mem} {pool : Pool} (a b : ℕ) (rest : List ℕ)
    → IsPool m pool (a ∷ (run 5 b ++ rest))
    → first rest null ≡ b + page_size * 5
    → Ensures (λ pool' m'. IsPool m' pool' (a ∷ (run 5 b ++ rest))) (test_palloc pool m)
unfolding test_palloc
test_palloc-IsPool {m} {pool} a b rest p enough =
    Ensures-and_then (Allocated pool m (run 5 b ++ rest) a 1) _ (palloc pool m) _
      (palloc-cons a (run 5 b ++ rest) p)
      λ (result, pool₁) m₁ (got, (bottom₁, top₁), is₁, _, _). expect-Ensures _ result a _ m₁ got (
        let (m₂, written, is₂) = write-IsPool pool a b rest p.pages p.low p.high is₁ in
        rw written (
          Ensures-and_then (Allocated pool₁ m₂ rest b 5) _ (palloc_plural pool₁ 5 m₂) _
            (palloc_plural-run b 5 rest is₂ (omega arith) (inr enough))
            λ (result', pool₂) m₃ (got', (bottom₂, top₂), is₃, _, _).
              expect-Ensures _ result' b _ m₃ got' (
                let (m₄, filled, is₄) = write_fives-IsPool pool a b rest p.pages p.low p.high is₃ in
                rw filled (finish pool a b 4 rest p.pages (bottom₂ ∙ bottom₁, top₂ ∙ top₁) is₄))))
