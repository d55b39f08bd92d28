-- ===== src/Palloc/FreeList.antt =====
-- The page pool of src/vm/palloc.rs as the ascending list of its free pages.
use reedos.Common.{
  ℕ, zero, suc, ◌+◌, ◌-◌, ◌*◌, ◌≤◌, ◌<◌, ◌≡◌, ◌≢◌, refl, ◌⊎◌, Option, none, some, List, [], ◌∷◌,
  ◌++◌, arith, ltb, if◌then◌else◌, length,
}
use reedos.Machine.{Mem, page_size, dram_base, dram_end, null}
use reedos.Palloc.{Pool, pool_fuel}
use reedos.Palloc.Links.{Links, Pages, first, last, run, Pages-le}

abbrev pub head : List ℕ → Option ℕ
head [] = none
head (x ∷ _) = some x

-- The pool holds the free pages `xs`: linked in memory, ascending, page aligned, inside the pool's
-- bounds and inside RAM.
pub record IsPool (m : Mem) (pool : Pool) (xs : List ℕ) : Type 0 where
  pub low : dram_base ≤ pool.bottom
  pub high : pool.top ≤ dram_end
  pub pages : Pages pool.bottom pool.top xs
  pub links : Links m null xs null
  pub free : pool.free ≡ head xs

-- No page of `xs` meets the addresses from `lo` to `hi`.
abbrev pub Apart : ℕ → ℕ → List ℕ → Type 0
Apart lo hi [] = Unit
Apart lo hi (x ∷ xs) = ((x + page_size ≤ lo) ⊎ (hi ≤ x)) × Apart lo hi xs

-- Every word of RAM but those of the pages `xs` and those from `lo` to `hi` is as it was.
abbrev pub Keeps : Mem → Mem → List ℕ → ℕ → ℕ → Type 0
Keeps m m' xs lo hi =
    (q : ℕ) → dram_base ≤ q → (q < lo) ⊎ (hi ≤ q) → Apart q (q + 1) xs → m' q ≡ m q

-- The pages below `a`, and those from `a` on.
abbrev pub before : ℕ → List ℕ → List ℕ
before a [] = []
before a (x ∷ xs) = if ltb x a then x ∷ before a xs else []

abbrev pub behind : ℕ → List ℕ → List ℕ
behind a [] = []
behind a (x ∷ xs) = if ltb x a then behind a xs else x ∷ xs

-- The free pages after `n` pages from `a` on have come back.
abbrev pub insert : ℕ → ℕ → List ℕ → List ℕ
insert a n xs = before a xs ++ (run n a ++ behind a xs)

pub before-append-behind : (a : ℕ) (xs : List ℕ) → before a xs ++ behind a xs ≡ xs
before-append-behind a [] = refl
before-append-behind a (x ∷ xs) = ground (arith, before-append-behind a xs)

pub Pages-before :
    (lo hi a stop : ℕ) (xs : List ℕ)
    → lo ≤ a
    → a < stop
    → Pages lo hi xs
    → Apart a stop xs
    → Pages lo a (before a xs)
Pages-before lo hi a stop [] l s ps ap = l
Pages-before lo hi a stop (x ∷ xs) l s (p, al, ps) (ax, ap) =
    ground (arith, Pages-before (x + page_size) hi a stop xs)

pub Pages-behind :
    (lo hi a stop : ℕ) (xs : List ℕ)
    → stop ≤ hi
    → a < stop
    → Pages lo hi xs
    → Apart a stop xs
    → Pages stop hi (behind a xs)
Pages-behind lo hi a stop [] l s ps ap = l
Pages-behind lo hi a stop (x ∷ xs) l s (p, al, ps) (ax, ap) =
    ground (arith, Pages-behind (x + page_size) hi a stop xs)

pub Apart-before : (a lo hi : ℕ) (xs : List ℕ) → Apart lo hi xs → Apart lo hi (before a xs)
Apart-before a lo hi [] ap = tt
Apart-before a lo hi (x ∷ xs) (ax, ap) = ground (arith, Apart-before a lo hi xs)

pub Apart-behind : (a lo hi : ℕ) (xs : List ℕ) → Apart lo hi xs → Apart lo hi (behind a xs)
Apart-behind a lo hi [] ap = tt
Apart-behind a lo hi (x ∷ xs) (ax, ap) = ground (arith, Apart-behind a lo hi xs)

pub Apart-last :
    (lo hi x : ℕ) (xs : List ℕ)
    → Apart lo hi (x ∷ xs)
    → (last x xs + page_size ≤ lo) ⊎ (hi ≤ last x xs)
Apart-last lo hi x [] ap = ap.0
Apart-last lo hi x (y ∷ xs) ap = Apart-last lo hi y xs ap.1

pub length-Pages : (lo hi : ℕ) (xs : List ℕ) → Pages lo hi xs → length xs * page_size ≤ hi - lo
length-Pages lo hi [] ps = omega arith
length-Pages lo hi (x ∷ xs) (p, al, ps) =
    omega (arith, length-Pages (x + page_size) hi xs ps, Pages-le (x + page_size) hi xs ps)

-- A walk over the free pages has fuel enough.
pub pool_fuel-lt :
    {m : Mem} {pool : Pool} {xs : List ℕ} → IsPool m pool xs → length xs < pool_fuel pool
pool_fuel-lt {pool} {xs} p = omega (arith, length-Pages pool.bottom pool.top xs p.pages)

pub last-run : (n a : ℕ) → last a (run n (a + page_size)) ≡ a + page_size * n
last-run zero a = omega arith
last-run (suc n) a = omega (arith, last-run n (a + page_size))

pub ne-last : (q : ℕ) (xs : List ℕ) → dram_base ≤ q → Apart q (q + 1) xs → q ≢ last null xs + 8
ne-last q [] ram ap = omega arith
ne-last q (x ∷ xs) ram ap = omega (arith, Apart-last q (q + 1) x xs ap)

pub ne-first : (q : ℕ) (xs : List ℕ) → dram_base ≤ q → Apart q (q + 1) xs → q ≢ first xs null
ne-first q [] ram ap = omega arith
ne-first q (x ∷ xs) ram ap = omega arith

pub length-run : (n a : ℕ) → length (run n a) ≡ n
length-run zero a = refl
length-run (suc n) a = omega (arith, length-run n (a + page_size))

pub suc-sub-one : (n : ℕ) → suc n - 1 ≡ n
suc-sub-one n = omega arith
