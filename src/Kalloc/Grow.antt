-- ===== src/Kalloc/Grow.antt =====
-- `Kalloc::alloc` and `Kalloc::grow_pool` of src/vm/vmalloc.rs where a page becomes a new zone.
use reedos.Common.{
  ℕ, ◌+◌, ◌*◌, ◌%◌, ◌≤◌, ◌<◌, ◌≡◌, ◌≢◌, refl, ◌∙◌, ap, inl, inr, false, List, [], ◌∷◌, arith, ◌==◌,
  Bool-cases, ok, Result,
}
use reedos.Machine.{
  Mem, Run, done, panic, fault, out_of_fuel, update, page_size, usize_top, null, Ensures,
}
use reedos.Machine.Laws.{IsWord, add-done, update_self, update_ne}
use reedos.Palloc.{Pool, VmError, palloc}
use reedos.Palloc.Links.{Links, Pages-le}
use reedos.Palloc.Steps.{IsPage, SameOutside}
use reedos.Palloc.FreeList.{IsPool, Apart, Keeps}
use reedos.Palloc.Api.{Allocated, palloc-cons}
use reedos.Palloc.RoundTrip.{Apart-above, Apart-narrow}
use reedos.Header
use reedos.Header.{header_size, max_chunk_size}
use reedos.Zone.{Zone, alloc_chunk}
use reedos.Zone.Refs.{write_next-done}
use reedos.Zone.Chunks.{Chunk, IsZone, used_count, carve}
use reedos.Zone.Alloc.{Carved, alloc_chunk-done}
use reedos.Kalloc.{add_zone, grow_pool, alloc_grown}
use reedos.Kalloc.New.{header_pair-done, header_pair-same}

-- A run that ensures `P` is done with what satisfies it.
pub Ensures-done :
    {A : Type 0} (P : A → Mem → Type 0) (r : Run A)
    → Ensures P r
    → (a : A) × (m : Mem) × (r ≡ done a m) × P a m
Ensures-done P (done a m) p = (a, m, refl, p)
Ensures-done P panic p = absurd p
Ensures-done P fault p = absurd p
Ensures-done P out_of_fuel p = absurd p

-- Links of pages apart from the words that change.
Links-Apart :
    (m m' : Mem) (lo hi prev : ℕ) (xs : List ℕ) (next : ℕ)
    → lo % page_size ≡ 0
    → hi % page_size ≡ 0
    → Apart lo hi xs
    → SameOutside m m' lo hi
    → Links m prev xs next
    → Links m' prev xs next
Links-Apart m m' lo hi prev [] next a b ap same l = tt
Links-Apart m m' lo hi prev (x ∷ xs) next a b (ax, apart) same (e, n, l) = (
  same x (omega arith) ∙ e,
  same (x + 8) (omega arith) ∙ n,
  Links-Apart m m' lo hi x xs next a b apart same l,
)

pub IsPool-Apart :
    (m m' : Mem) (pool : Pool) (lo hi : ℕ) (xs : List ℕ)
    → lo % page_size ≡ 0
    → hi % page_size ≡ 0
    → Apart lo hi xs
    → SameOutside m m' lo hi
    → IsPool m pool xs
    → IsPool m' pool xs
IsPool-Apart m m' pool lo hi xs a b ap same p = record {
  low = p.low;
  high = p.high;
  pages = p.pages;
  links = Links-Apart m m' lo hi null xs null a b ap same p.links;
  free = p.free;
}

-- The new zone at `page`, in which a chunk of `size` bytes is in use.
module _ (m : Mem) (tail : Zone) (page size : ℕ) (is_page : IsPage page)
    (tail_page : IsPage tail.base) (other : tail.base ≢ page) (sal : size % 8 ≡ 0) (pos : 0 < size)
    (small : size ≤ max_chunk_size) where
  abbrev m₁ : Mem
  m₁ = update m tail.base (page + tail.next % page_size)

  abbrev m₂ : Mem
  m₂ = update (update m₁ page 0) (page + 8) max_chunk_size

  abbrev zone : Zone
  zone = record { base = page; next = 0 }

  add_zone-done :
      tail.next < usize_top → add_zone tail (ok page) m ≡ done (ok (zone, max_chunk_size)) m₂
  unfolding add_zone Header.new
  add_zone-done h =
      let w : IsWord tail.base = omega arith in
      rw (write_next-done tail h w page m (omega arith), header_pair-done m₁ page is_page) refl

  abbrev whole : Chunk
  whole = record { size = max_chunk_size; used = false }

  grown_run :
      (m' : Mem) (z' : Zone)
      → alloc_chunk size (page + 8) zone max_chunk_size m₂ ≡ done z' m'
      → alloc_grown size (ok (zone, max_chunk_size)) m₂ ≡ done (ok (page + 16)) m'
  unfolding alloc_grown
  grown_run m' z' ran =
      let sum : page + 8 + header_size ≡ page + 16 = omega arith in
      rw
        (
          add-done page 8 m₂ (omega arith),
          ran,
          add-done (page + 8) header_size m' (omega arith),
          sum,
        )
        refl

  used_one : used_count (carve size whole []) ≡ 1
  used_one = elim (Bool-cases (4080 == size)) [ inl e ↦ rw e refl | inr e ↦ rw e refl ]

  grown_zone :
      (m' : Mem)
      → Carved m₂ m' zone size (page + 8) whole []
      → IsZone m' page 0 (carve size whole [])
  grown_zone m' c = record {
    page = is_page;
    next_aligned = refl;
    next_small = omega arith;
    refs = omega (arith, c.count, used_one);
    chunks = c.chunks;
  }

  alloc_grown-done :
      (m' : Mem) × (alloc_grown size (ok (zone, max_chunk_size)) m₂ ≡ done (ok (page + 16)) m')
      × IsZone m' page 0 (carve size whole [])
      × SameOutside m₂ m' page (page + page_size)
  alloc_grown-done =
      let (m', ran, c) =
        alloc_chunk-done zone size (page + 8) max_chunk_size [] m₂ is_page (omega arith)
          (omega arith) (omega arith) refl sal pos small (omega arith) (omega arith)
          (omega arith) in
      (
        m',
        grown_run m' (record { base = page; next = 1 }) ran,
        grown_zone m' c,
        λ q x. c.same q (omega arith) (omega arith),
      )

grow_run :
    (m m₁ m₃ : Mem) (pool pool' : Pool) (tail : Zone) (a : ℕ) (result : Result VmError ℕ)
    (grown : Result VmError (Zone × ℕ))
    → palloc pool m ≡ done (result, pool') m₁
    → result ≡ ok a
    → add_zone tail (ok a) m₁ ≡ done grown m₃
    → grow_pool pool tail m ≡ done (grown, pool') m₃
unfolding grow_pool
grow_run m m₁ m₃ pool pool' tail a result grown ran got added = rw (ran, got, added) refl

-- The pool gave the page `a`, which is a new zone behind `tail`.
pub record Grown (m m' : Mem) (pool' : Pool) (tail : Zone) (a size : ℕ) (rest : List ℕ)
    : Type 0 where
  pub zone : IsZone m' a 0 (carve size (record { size = max_chunk_size; used = false }) [])
  pub pool : IsPool m' pool' rest
  pub link : m' tail.base ≡ a + tail.next % page_size
  pub same : (q : ℕ) → tail.base < q → q < tail.base + page_size → m' q ≡ m q

module _ (m m₁ : Mem) (pool pool' : Pool) (tail : Zone) (a : ℕ) (rest : List ℕ) (size : ℕ)
    (page : IsPage a) (t : IsPage tail.base)
    (apart : Apart tail.base (tail.base + page_size) (a ∷ rest))
    (above : Apart a (a + page_size) rest) (is : IsPool m₁ pool' rest)
    (same : Keeps m m₁ rest a (a + page_size * 1)) (m' : Mem)
    (zone : IsZone m' a 0 (carve size (record { size = max_chunk_size; used = false }) [])) where
  abbrev linked : Mem
  linked = update m₁ tail.base (a + tail.next % page_size)

  Grown-after : SameOutside linked m' a (a + page_size) → Grown m m' pool' tail a size rest
  Grown-after out =
      let first_same : SameOutside m₁ linked tail.base (tail.base + page_size) =
        λ q x. update_ne m₁ tail.base q (a + tail.next % page_size) (omega arith) in
      let pool₁ =
        IsPool-Apart m₁ linked pool' tail.base (tail.base + page_size) rest (omega arith)
          (omega arith) apart.1 first_same is in
      record {
        zone = zone;
        pool =
            IsPool-Apart linked m' pool' a (a + page_size) rest (omega arith) (omega arith) above
              out pool₁;
        link =
            out tail.base (omega (arith, apart.0))
            ∙ update_self m₁ tail.base (a + tail.next % page_size);
        same = λ q x y.
            out q (omega (arith, apart.0))
            ∙ update_ne m₁ tail.base q (a + tail.next % page_size) (omega arith)
            ∙ same q (omega arith) (omega (arith, apart.0))
                (Apart-narrow tail.base (tail.base + page_size) q rest (omega arith) y apart.1);
      }

-- The run of `grow_pool` and of what `alloc` does with the new zone.
pub grows :
    (m : Mem) (pool : Pool) (tail : Zone) (a : ℕ) (rest : List ℕ) (size : ℕ)
    → IsPool m pool (a ∷ rest)
    → IsPage tail.base
    → Apart tail.base (tail.base + page_size) (a ∷ rest)
    → tail.next < usize_top
    → size % 8 ≡ 0
    → 0 < size
    → size ≤ max_chunk_size
    → (m₃ : Mem) × (m' : Mem) × (pool' : Pool) × (grow_pool pool tail m
        ≡ done (ok (record { base = a; next = 0 }, max_chunk_size), pool') m₃)
      × (alloc_grown size (ok (record { base = a; next = 0 }, max_chunk_size)) m₃
          ≡ done (ok (a + 16)) m')
      × Grown m m' pool' tail a size rest
grows m pool tail a rest size p t apart h sal pos small =
    let ((result, pool'), m₁, ran, (got, bounds, is, zeros, same)) =
      Ensures-done (Allocated pool m rest a 1) (palloc pool m) (palloc-cons a rest p) in
    let le = Pages-le (a + page_size) pool.top rest p.pages.2 in
    let page : IsPage a = omega (arith, p.low, p.high, p.pages.0, p.pages.1) in
    let ne : tail.base ≢ a = omega (arith, apart.0) in
    let v = a + tail.next % page_size in
    let m₃ = update (update (update m₁ tail.base v) a 0) (a + 8) max_chunk_size in
    let (m', ran', zone, out) = alloc_grown-done m₁ tail a size page t ne sal pos small in
    (
      m₃,
      m',
      pool',
      grow_run m m₁ m₃ pool pool' tail a result _ ran got
          (add_zone-done m₁ tail a size page t ne sal pos small h),
      ran',
      Grown-after m m₁ pool pool' tail a rest size page t apart
          (Apart-above a (a + page_size) (a + page_size) pool.top rest (omega arith) p.pages.2) is
          same m' zone (λ q x. out q x ∙ header_pair-same (update m₁ tail.base v) a page q x),
    )
