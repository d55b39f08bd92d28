-- ===== src/Galloc/Tests.antt =====
-- The theorems on src/vm/global.rs at a small pool.
use reedos.Common.{
  ℕ, true, false, inl, ◌+◌, ◌*◌, ◌<◌, ◌≤◌, ◌≡◌, ◌⊎◌, refl, List, [], ◌∷◌, arith, inr, some, ◌++◌,
}
use reedos.Machine.{Mem, done, update, page_size, null, Ensures, ◌>>=◌}
use reedos.Palloc.{Pool}
use reedos.Palloc.FreeList.{IsPool}
use reedos.Galloc.{Galloc, Layout, decide_internal_scheme, alloc, dealloc, realloc, alloc_zeroed}
use reedos.Galloc.Pages.{decide_internal_scheme-fits, alloc-dealloc}
use reedos.Galloc.Bytes.{byte}
use reedos.Galloc.Moved.{realloc-first_fit}
use reedos.Zone.Span.{span}
use reedos.Kalloc.Freed.{freed}
use reedos.Galloc.Zeroed.{alloc_zeroed-first_fit}
use reedos.Zone.Chunks.{Chunk, IsZone, first_fit}
use reedos.Palloc.Steps.{SameOutside}
use reedos.Kalloc.Alloc.{rounded}

abbrev base : ℕ
base = 0x80000000

abbrev pool : Pool
pool = record { free = some base; bottom = base; top = base + 0x5000 }

abbrev free : List ℕ
free = base ∷ (base + 0x1000) ∷ (base + 0x2000) ∷ []

abbrev mem : Mem
mem =
    update
      (update
        (update (update (update (λ q. 0) (base + 8) (base + 0x1000)) (base + 0x1000) base)
          (base + 0x1008) (base + 0x2000))
        (base + 0x2000) (base + 0x1000))
      (base + 0x2008) null

mem-IsPool : IsPool mem pool free
unfolding update
mem-IsPool = record {
  low = omega arith;
  high = omega arith;
  pages = omega arith;
  links = (refl, refl, (refl, refl, (refl, refl, tt)));
  free = refl;
}

abbrev galloc : Galloc
galloc = record { small_pool = record { head = base + 0x4000; end = base + 0x5000 } }

-- 5000 bytes are two pages.
abbrev layout : Layout
layout = record { size = 5000; align = 16 }

decide_internal_scheme-fits_example :
    (n : ℕ) × (decide_internal_scheme layout mem ≡ done n mem)
    × (((n ≡ 0) × (layout.size ≤ 4080) × (layout.align ≤ 8))
        ⊎ ((0 < n) × (layout.size ≤ page_size * n) × (page_size * n < layout.size + page_size)))
decide_internal_scheme-fits_example =
    decide_internal_scheme-fits layout mem (omega arith) (omega arith)

alloc-dealloc_example :
    Ensures
      (λ pool' m'. IsPool m' pool' free)
      ((alloc galloc pool layout >>= λ (ptr, pool'). dealloc galloc pool' ptr layout) mem)
alloc-dealloc_example =
    alloc-dealloc galloc layout base ((base + 0x2000) ∷ []) (omega arith) (omega arith)
      (omega arith) (omega arith) mem-IsPool (inr refl)

-- A zone of one free chunk, with old data in it.
abbrev small_pages : Galloc
small_pages = record { small_pool = record { head = base; end = base + page_size } }

abbrev old_data : Mem
old_data = update (update (update (λ q. 0xff) base 0) (base + 8) 4080) (base + 16) 7

abbrev whole : Chunk
whole = record { size = 4080; used = false }

old_data-IsZone : IsZone old_data base 0 (whole ∷ [])
unfolding update
old_data-IsZone = record {
  page = omega arith;
  next_aligned = refl;
  next_small = omega arith;
  refs = refl;
  chunks = (refl, (refl, λ u. omega arith), refl);
}

abbrev thirteen : Layout
thirteen = record { size = 13; align = 1 }

first_16 : (first_fit (rounded 13) (base + 8) whole []).0 ≡ some (base + 16)
unfolding first_fit
first_16 = refl

alloc_zeroed-first_fit_example :
    (m' : Mem) × (alloc_zeroed small_pages pool thirteen old_data ≡ done (base + 16, pool) m')
    × ((q : ℕ) → base + 16 ≤ q → q < base + 16 + 13 → byte m' q ≡ 0)
    × IsZone m' base 0 (first_fit (rounded 13) (base + 8) whole []).1
    × SameOutside old_data m' base (base + page_size)
alloc_zeroed-first_fit_example =
    alloc_zeroed-first_fit small_pages pool thirteen old_data 0 whole [] refl old_data-IsZone
      (omega arith) (omega arith) (omega arith) (base + 16) first_16

-- The zone after 13 bytes were handed out, which become 40.
abbrev with_block : Mem
with_block = update (update (update old_data base 1) (base + 8) 4112) (base + 32) 4056

abbrev block : Chunk
block = record { size = 16; used = true }

abbrev behind_block : Chunk
behind_block = record { size = 4056; used = false }

with_block-IsZone : IsZone with_block base 0 (block ∷ behind_block ∷ [])
unfolding update
with_block-IsZone = record {
  page = omega arith;
  next_aligned = refl;
  next_small = omega arith;
  refs = refl;
  chunks = (refl, (refl, λ u. omega arith), (refl, (refl, λ u. omega arith), refl));
}

first_40 : (first_fit (rounded 40) (base + 8) block (behind_block ∷ [])).0 ≡ some (base + 40)
unfolding first_fit
first_40 = refl

realloc-first_fit_example :
    (m' : Mem) × (front : List Chunk) × (back : List Chunk) × (realloc small_pages pool
        (base + 16)
        thirteen
        40
        with_block
      ≡ done (base + 40, pool) m')
    × ((i : ℕ) → i < 13 → byte m' (base + 40 + i) ≡ byte with_block (base + 16 + i))
    × ((first_fit (rounded 40) (base + 8) block (behind_block ∷ [])).1
        ≡ front ++ record { size = 16; used = true } ∷ back)
    × (base + 16 ≡ base + 8 + span front + 8)
    × IsZone m' base 0 (front ++ freed 16 back)
    × SameOutside with_block m' base (base + page_size)
realloc-first_fit_example =
    realloc-first_fit small_pages pool (base + 16) thirteen 40 with_block 0 block
      (behind_block ∷ []) refl with_block-IsZone (omega arith) (omega arith) (omega arith)
      (omega arith) (omega arith) refl 16 (base + 40) (inl (refl, refl, refl)) (omega arith)
      (refl, (refl, tt)) first_40 (omega arith)
