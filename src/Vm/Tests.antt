-- ===== src/Vm/Tests.antt =====
-- The theorem on `test_palloc` of src/vm.rs at a pool of seven pages.
use reedos.Common.{ℕ, ◌+◌, refl, List, [], ◌∷◌, ◌++◌, some, arith}
use reedos.Machine.{Mem, update, null, Ensures}
use reedos.Palloc.{Pool}
use reedos.Palloc.Links.{run}
use reedos.Palloc.FreeList.{IsPool}
use reedos.Vm.{test_palloc}
use reedos.Vm.Selftest.{test_palloc-IsPool}

abbrev base : ℕ
base = 0x80000000

abbrev pool : Pool
pool = record { free = some base; bottom = base; top = base + 0x7000 }

-- A page at `p` between two free ones.
abbrev node : ℕ → ℕ → ℕ → Mem → Mem
node p prev next m = update (update m p prev) (p + 8) next

abbrev mem : Mem
mem = node base null (base + 0x1000) (
    node (base + 0x1000) base (base + 0x2000) (
      node (base + 0x2000) (base + 0x1000) (base + 0x3000) (
        node (base + 0x3000) (base + 0x2000) (base + 0x4000) (
          node (base + 0x4000) (base + 0x3000) (base + 0x5000) (
            node (base + 0x5000) (base + 0x4000) (base + 0x6000)
              (node (base + 0x6000) (base + 0x5000) null (λ q. 0)))))))

abbrev last : List ℕ
last = (base + 0x6000) ∷ []

mem-IsPool : IsPool mem pool (base ∷ (run 5 (base + 0x1000) ++ last))
unfolding update
mem-IsPool = record {
  low = omega arith;
  high = omega arith;
  pages = omega arith;
  links = (
    refl,
    refl,
    (refl, refl, (refl, refl, (refl, refl, (refl, refl, (refl, refl, (refl, refl, tt)))))),
  );
  free = refl;
}

test_palloc-IsPool_example :
    Ensures
      (λ pool' m'. IsPool m' pool' (base ∷ (run 5 (base + 0x1000) ++ last)))
      (test_palloc pool mem)
test_palloc-IsPool_example = test_palloc-IsPool base (base + 0x1000) last mem-IsPool refl
