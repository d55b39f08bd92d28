-- ===== src/Palloc/Links.antt =====
-- The doubly linked list of free pages in memory (`FreeNode` and `read_free` in src/vm/palloc.rs),
-- in segments, and the order of the pages in it.
use reedos.Common.{
  ℕ, zero, suc, ◌+◌, ◌*◌, ◌%◌, ◌≤◌, ◌<◌, ◌≡◌, ◌≢◌, refl, List, [], ◌∷◌, ◌++◌, arith,
}
use reedos.Machine.{Mem, page_size, dram_base, dram_end}
use reedos.Machine.Laws.{IsWord}

abbrev pub first : List ℕ → ℕ → ℕ
first [] end = end
first (x ∷ _) end = x

abbrev pub last : ℕ → List ℕ → ℕ
last start [] = start
last start (x ∷ xs) = last x xs

-- The pages `xs` are linked to one another, the first to `prev`, the last to `next`.
abbrev pub Links : Mem → ℕ → List ℕ → ℕ → Type 0
Links m prev [] next = Unit
Links m prev (x ∷ xs) next = (m x ≡ prev) × (m (x + 8) ≡ first xs next) × Links m x xs next

-- Page aligned, ascending and without overlap, from `lo` to `hi`.
abbrev pub Pages : ℕ → ℕ → List ℕ → Type 0
Pages lo hi [] = lo ≤ hi
Pages lo hi (x ∷ xs) = (lo ≤ x) × (x % page_size ≡ 0) × Pages (x + page_size) hi xs

-- `n` adjacent pages from `a` on.
abbrev pub run : ℕ → ℕ → List ℕ
run zero a = []
run (suc n) a = a ∷ run n (a + page_size)

abbrev pub SameWithin : Mem → Mem → ℕ → ℕ → Type 0
SameWithin m m' lo hi = (q : ℕ) → lo ≤ q → q < hi → m' q ≡ m q

pub first-append : (xs ys : List ℕ) (end : ℕ) → first (xs ++ ys) end ≡ first xs (first ys end)
first-append [] ys end = refl
first-append (x ∷ xs) ys end = refl

pub last-append : (start : ℕ) (xs ys : List ℕ) → last start (xs ++ ys) ≡ last (last start xs) ys
last-append start [] ys = refl
last-append start (x ∷ xs) ys = last-append x xs ys

module _ (m : Mem) where
  pub Links-append :
      (prev : ℕ) (xs ys : List ℕ) (next : ℕ)
      → Links m prev xs (first ys next)
      → Links m (last prev xs) ys next
      → Links m prev (xs ++ ys) next
  Links-append prev [] ys next l r = r
  Links-append prev (x ∷ xs) ys next (p, n, l) r =
      (p, ground (arith, first-append xs ys next), Links-append x xs ys next l r)

  pub Links-split :
      (prev : ℕ) (xs ys : List ℕ) (next : ℕ)
      → Links m prev (xs ++ ys) next
      → Links m prev xs (first ys next) × Links m (last prev xs) ys next
  Links-split prev [] ys next l = (tt, l)
  Links-split prev (x ∷ xs) ys next (p, n, l) =
      let (l', r) = Links-split x xs ys next l in
      ((p, ground (arith, first-append xs ys next), l'), r)

pub Pages-le : (lo hi : ℕ) (xs : List ℕ) → Pages lo hi xs → lo ≤ hi
Pages-le lo hi [] p = p
Pages-le lo hi (x ∷ xs) (p, _, ps) = omega (arith, Pages-le (x + page_size) hi xs ps)

pub Pages-weaken :
    (lo lo' hi hi' : ℕ) (xs : List ℕ) → lo' ≤ lo → hi ≤ hi' → Pages lo hi xs → Pages lo' hi' xs
Pages-weaken lo lo' hi hi' [] l h p = omega arith
Pages-weaken lo lo' hi hi' (x ∷ xs) l h (p, al, ps) =
    (omega arith, al, Pages-weaken (x + page_size) (x + page_size) hi hi' xs (omega arith) h ps)

pub Pages-append :
    (lo mid hi : ℕ) (xs ys : List ℕ) → Pages lo mid xs → Pages mid hi ys → Pages lo hi (xs ++ ys)
Pages-append lo mid hi [] ys p q = Pages-weaken mid lo hi hi ys p (omega arith) q
Pages-append lo mid hi (x ∷ xs) ys (p, al, ps) q =
    (p, al, Pages-append (x + page_size) mid hi xs ys ps q)

-- The pages behind the first ones start where the last of those ends.
pub Pages-split :
    (lo hi x : ℕ) (xs ys : List ℕ)
    → Pages lo hi (x ∷ (xs ++ ys))
    → Pages lo (last x xs + page_size) (x ∷ xs) × Pages (last x xs + page_size) hi ys
Pages-split lo hi x [] ys (p, al, ps) = ((p, al, omega arith), ps)
Pages-split lo hi x (y ∷ xs) ys (p, al, ps) =
    let (l, r) = Pages-split (x + page_size) hi y xs ys ps in ((p, al, l), r)

pub record InRange (lo hi page : ℕ) : Type 0 where
  pub low : lo ≤ page
  pub high : page + page_size ≤ hi
  pub aligned : page % page_size ≡ 0

pub last-InRange : (lo hi x : ℕ) (xs : List ℕ) → Pages lo hi (x ∷ xs) → InRange lo hi (last x xs)
last-InRange lo hi x [] (p, al, ps) = omega arith
last-InRange lo hi x (y ∷ xs) (p, al, ps) = omega (arith, last-InRange (x + page_size) hi y xs ps)

pub first-InRange : (lo hi x : ℕ) (xs : List ℕ) → Pages lo hi (x ∷ xs) → InRange lo hi x
first-InRange lo hi x xs (p, al, ps) = omega (arith, Pages-le (x + page_size) hi xs ps)

pub Pages-run : (n a : ℕ) → a % page_size ≡ 0 → Pages a (a + page_size * n) (run n a)
Pages-run zero a al = omega arith
Pages-run (suc n) a al = (
  omega arith,
  al,
  Pages-weaken (a + page_size) (a + page_size) (a + page_size + page_size * n)
      (a + page_size * suc n) (run n (a + page_size)) (omega arith) (omega arith)
      (Pages-run n (a + page_size) (omega arith)),
)

-- The words of the two pointers in a page of RAM.
pub prev-IsWord :
    {lo hi page : ℕ} → dram_base ≤ lo → hi ≤ dram_end → InRange lo hi page → IsWord page
prev-IsWord l h r = omega arith

pub next-IsWord :
    {lo hi page : ℕ} → dram_base ≤ lo → hi ≤ dram_end → InRange lo hi page → IsWord (page + 8)
next-IsWord l h r = omega arith

-- A segment survives any change outside its pages.
pub Links-frame :
    (m m' : Mem) (lo hi prev : ℕ) (xs : List ℕ) (next : ℕ)
    → Pages lo hi xs
    → SameWithin m m' lo hi
    → Links m prev xs next
    → Links m' prev xs next
Links-frame m m' lo hi prev [] next ps same l = tt
Links-frame m m' lo hi prev (x ∷ xs) next (p, al, ps) same (e, n, l) =
    let le = Pages-le (x + page_size) hi xs ps in
    (
      ground (arith, same x),
      ground (arith, same (x + 8)),
      Links-frame m m' (x + page_size) hi x xs next ps (λ q a b. same q (omega arith) b) l,
    )

-- A segment whose two outer pointers change, and no other word of its pages does.
pub Links-retarget :
    (m m' : Mem) (lo hi prev prev' x : ℕ) (xs : List ℕ) (next next' : ℕ)
    → Pages lo hi (x ∷ xs)
    → Links m prev (x ∷ xs) next
    → m' x ≡ prev'
    → m' (last x xs + 8) ≡ next'
    → ((q : ℕ) → lo ≤ q → q < hi → q ≢ x → q ≢ last x xs + 8 → m' q ≡ m q)
    → Links m' prev' (x ∷ xs) next'
Links-retarget m m' lo hi prev prev' x [] next next' ps l first_ok last_ok same =
    (first_ok, last_ok, tt)
Links-retarget m m' lo hi prev prev' x (y ∷ xs) next next' (p, al, ps) (e, n, l) first_ok last_ok
      same =
    let r = last-InRange (x + page_size) hi y xs ps in
    let f = first-InRange (x + page_size) hi y xs ps in
    (
      first_ok,
      ground (arith, same (x + 8)),
      Links-retarget m m' (x + page_size) hi x x y xs next next' ps l (ground (arith, same y))
          last_ok (λ q a b c d. same q (omega arith) b (omega arith) d),
    )

pub Links-last :
    (m : Mem) (prev x : ℕ) (xs : List ℕ) (next : ℕ)
    → Links m prev (x ∷ xs) next
    → m (last x xs + 8) ≡ next
Links-last m prev x [] next l = l.1
Links-last m prev x (y ∷ xs) next l = Links-last m x y xs next l.2
