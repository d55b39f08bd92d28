-- ===== src/Palloc/Tests.antt =====
-- The theorems on src/vm/palloc.rs at small pools, and runs of its operations.
use reedos.Common.{ℕ, ◌+◌, ◌*◌, ◌≡◌, refl, List, [], ◌∷◌, arith, inr, some, none, ok, err}
use reedos.Machine.{Mem, done, panic, fault, update, page_size, null, Ensures, ◌>>=◌}
use reedos.Palloc.{Pool, out_of_pages, new, palloc_plural, pfree_plural}
use reedos.Palloc.Links.{run}
use reedos.Palloc.Steps.{SameOutside}
use reedos.Palloc.FreeList.{IsPool}
use reedos.Palloc.FreePages.{IsRegion}
use reedos.Palloc.Api.{
  Allocated, Freed, palloc_plural-run, palloc_plural-gap, palloc_plural-last, palloc_plural-single,
  pfree_plural-insert,
}
use reedos.Palloc.New.{new-run, new-one_page}
use reedos.Palloc.RoundTrip.{give_back, palloc_plural-pfree_plural}

abbrev blank : Mem
blank _ = 0

-- Five pages from `base` on.
abbrev base : ℕ
base = 0x80000000

abbrev pool : Pool
pool = record { free = some base; bottom = base; top = base + 0x5000 }

-- Free pages 0, 1, 2 and 4; page 3 is in use.
abbrev free : List ℕ
free = base ∷ (base + 0x1000) ∷ (base + 0x2000) ∷ (base + 0x4000) ∷ []

abbrev linked : Mem → ℕ → ℕ → ℕ → Mem
linked m page prev next = update (update m page prev) (page + 8) next

abbrev mem : Mem
mem =
    linked
      (linked (linked (linked blank base null (base + 0x1000)) (base + 0x1000) base (base + 0x2000))
        (base + 0x2000) (base + 0x1000) (base + 0x4000))
      (base + 0x4000) (base + 0x2000) null

mem-IsPool : IsPool mem pool free
unfolding update
mem-IsPool = record {
  low = omega arith;
  high = omega arith;
  pages = omega arith;
  links = (refl, refl, (refl, refl, (refl, refl, (refl, refl, tt))));
  free = refl;
}

abbrev rest : List ℕ
rest = (base + 0x4000) ∷ []

-- `palloc` takes page 0.
abbrev empty : Pool
empty = record { free = none; bottom = base; top = base + 0x5000 }

empty-IsPool : IsPool blank empty []
empty-IsPool = record {
  low = omega arith;
  high = omega arith;
  pages = omega arith;
  links = tt;
  free = refl;
}

-- Two adjacent pages, with a third behind them.
palloc_plural-run_example :
    Ensures
      (Allocated pool mem ((base + 0x2000) ∷ (base + 0x4000) ∷ []) base 2)
      (palloc_plural pool 2 mem)
palloc_plural-run_example =
    palloc_plural-run base 2 ((base + 0x2000) ∷ (base + 0x4000) ∷ []) mem-IsPool (omega arith)
      (inr refl)

-- Three adjacent pages are there, and a gap behind them.
palloc_plural-gap_example : palloc_plural pool 3 mem ≡ panic
palloc_plural-gap_example =
    palloc_plural-gap base 3 2 (base + 0x4000) [] mem-IsPool (omega arith) (omega arith)
      (omega arith)

-- Two adjacent pages, and no other.
abbrev pair : Mem
pair = linked (linked blank base null (base + 0x1000)) (base + 0x1000) base null

pair-IsPool : IsPool pair pool (base ∷ (base + 0x1000) ∷ [])
unfolding update
pair-IsPool = record {
  low = omega arith;
  high = omega arith;
  pages = omega arith;
  links = (refl, refl, (refl, refl, tt));
  free = refl;
}

palloc_plural-last_example : palloc_plural pool 2 pair ≡ done (err out_of_pages, pool) pair
palloc_plural-last_example = palloc_plural-last base 2 0 pair-IsPool (omega arith)

single-IsPool : IsPool blank pool (base ∷ [])
single-IsPool = record {
  low = omega arith;
  high = omega arith;
  pages = omega arith;
  links = (refl, refl, tt);
  free = refl;
}

palloc_plural-single_example : palloc_plural pool 2 blank ≡ fault
palloc_plural-single_example = palloc_plural-single base 2 single-IsPool (omega arith) (omega arith)

-- Page 3 goes back between pages 2 and 4.
page-IsRegion : IsRegion pool free (base + 0x3000) 1
page-IsRegion = omega arith

pfree_plural-insert_example :
    Ensures (Freed pool mem free (base + 0x3000) 1) (pfree_plural pool (base + 0x3000) 1 mem)
pfree_plural-insert_example =
    pfree_plural-insert free (base + 0x3000) 1 mem-IsPool page-IsRegion (omega arith)

new-run_example :
    Ensures
      (λ p m'. IsPool m' p (run 5 base) × SameOutside blank m' base (base + page_size * 5))
      (new base (base + page_size * 5) blank)
new-run_example = new-run base 5 blank (omega arith) (omega arith) (omega arith) (omega arith)

new-one_page_example :
    Ensures
      (λ p m'. (p.free ≡ some base) × (m' (base + 8) ≡ p.top))
      (new base (base + page_size) blank)
new-one_page_example = new-one_page base blank (omega arith) (omega arith) (omega arith)

palloc_plural-pfree_plural_example :
    Ensures
      (λ (result, pool') m'. (result ≡ ok tt) × IsPool m' pool' free)
      ((palloc_plural pool 2 >>= give_back 2) mem)
palloc_plural-pfree_plural_example =
    palloc_plural-pfree_plural base 2 ((base + 0x2000) ∷ (base + 0x4000) ∷ []) mem-IsPool
      (omega arith) (inr refl)
