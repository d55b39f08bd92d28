-- ===== src/Kalloc/Tests.antt =====
-- The theorems on src/vm/vmalloc.rs at a small zone, and runs of its operations.
use reedos.Common.{
  ℕ, ◌+◌, ◌<◌, ◌≤◌, ◌≡◌, ◌⊎◌, refl, ap, Bool, true, false, List, [], ◌∷◌, arith, inl, some, none,
  ok, err, Option,
}
use reedos.Machine.{Mem, done, update, page_size}
use reedos.Palloc.{Pool}
use reedos.Palloc.Steps.{SameOutside}
use reedos.Header.{is_free}
use reedos.Zone.{Zone, scan, oom}
use reedos.Zone.Kept.{Beside, Outcome, scan-keeps, scan-answers}
use reedos.Zone.Chunks.{Chunk, IsZone, first_fit, carve}
use reedos.Zone.FirstFit.{scan-first_fit}
use reedos.Zone.Owned.{Owned}
use reedos.Kalloc.{Kalloc, new, alloc, free}
use reedos.Zone.Span.{span}
use reedos.Kalloc.FreeLast.{free-last}
use reedos.Kalloc.Freed.{freed, free-freed}
use reedos.Palloc.FreeList.{IsPool}
use reedos.Kalloc.AllocGrow.{alloc-grow}
use reedos.Kalloc.New.{new-IsZone}
use reedos.Kalloc.Alloc.{rounded, alloc-first_fit, alloc-above}

abbrev base : ℕ
base = 0x80000000

abbrev next : ℕ
next = 0x80002000

abbrev chunk : ℕ → Bool → Chunk
chunk size used = record { size = size; used = used }

-- Two free chunks between two in use.
abbrev others : List Chunk
others = chunk 24 false ∷ chunk 40 false ∷ chunk 3976 true ∷ []

abbrev after : List Chunk
after = chunk 16 true ∷ chunk 64 true ∷ chunk 0 false ∷ chunk 3976 true ∷ []

abbrev merged : List Chunk
merged = chunk 16 true ∷ chunk 72 false ∷ chunk 3976 true ∷ []

-- The zone, and a chunk in use at the start of the page behind it.
abbrev mem : Mem
mem =
    update
      (update
        (update (update (update (update (λ q. 0) base (next + 2)) (base + 8) 4112) (base + 32) 24)
          (base + 64) 40)
        (base + 112) 8072)
      (base + 4096) 4104

mem-IsZone : IsZone mem base next (chunk 16 true ∷ others)
unfolding update
mem-IsZone = record {
  page = omega arith;
  next_aligned = refl;
  next_small = omega arith;
  refs = refl;
  chunks = (
    refl,
    (refl, λ u. omega arith),
    (
      refl,
      (refl, λ u. omega arith),
      (refl, (refl, λ u. omega arith), (refl, (refl, λ u. omega arith), refl)),
    ),
  );
}

behind_in_use : is_free (mem (base + page_size)) ≡ false
unfolding update is_free
behind_in_use = refl

abbrev pool : Pool
pool = record { free = none; bottom = 0x80004000; top = 0x80008000 }

abbrev kalloc : Kalloc
kalloc = record { head = base; end = base + page_size }

first_64 : first_fit 64 (base + 8) (chunk 16 true) others ≡ (some (base + 40), after)
unfolding first_fit
first_64 = refl

first_4000 : first_fit 4000 (base + 8) (chunk 16 true) others ≡ (none, merged)
unfolding first_fit
first_4000 = refl

-- 64 bytes next to the block of the first chunk.
scan-keeps_example :
    (result : Option ℕ) × (z' : Zone) × (m' : Mem) × (cs' : List Chunk) × (scan
        (record { base = base; next = mem base })
        64
        mem
      ≡ done (result, z') m')
    × IsZone m' base next cs'
    × Owned (base + 8) cs' (base + 16) 16
    × ((q : ℕ) → base + 16 ≤ q → q < base + 16 + 16 → m' q ≡ mem q)
    × Beside (base + 16) 16 64 result
scan-keeps_example =
    scan-keeps mem base next (chunk 16 true) others 64 mem-IsZone refl (omega arith) (omega arith)
      behind_in_use (base + 16) 16 (inl (refl, refl, refl))

-- No chunk of 4000 bytes.
scan-answers_example :
    (result : Option ℕ) × (z' : Zone) × (m' : Mem) × (cs' : List Chunk) × (scan
        (record { base = base; next = mem base })
        4000
        mem
      ≡ done (result, z') m')
    × IsZone m' base next cs'
    × Outcome (base + 8) 4000 cs' result
scan-answers_example =
    scan-answers mem base next (chunk 16 true) others 4000 mem-IsZone refl (omega arith)
      (omega arith) behind_in_use

scan-first_fit_example :
    (m' : Mem) × (scan (record { base = base; next = mem base }) 64 mem
      ≡ done
          (
            (first_fit 64 (base + 8) (chunk 16 true) others).0,
            record { base = base; next = m' base },
          )
          m')
    × IsZone m' base next (first_fit 64 (base + 8) (chunk 16 true) others).1
    × ((q : ℕ) → (q < base) ⊎ (base + page_size ≤ q) → m' q ≡ mem q)
scan-first_fit_example =
    scan-first_fit mem base next (chunk 16 true) others 64 mem-IsZone refl (omega arith)
      (rw first_64 tt)

new-IsZone_example :
    (m' : Mem) × (new base mem ≡ done (record { head = base; end = base + page_size }) m')
    × IsZone m' base 0 (chunk 4080 false ∷ [])
    × SameOutside mem m' base (base + page_size)
new-IsZone_example = new-IsZone mem base (omega arith)

alloc-first_fit_example :
    (m' : Mem) × (alloc kalloc pool 61 mem ≡ done (ok (base + 40), pool) m')
    × IsZone m' base next (first_fit (rounded 61) (base + 8) (chunk 16 true) others).1
    × SameOutside mem m' base (base + page_size)
alloc-first_fit_example =
    alloc-first_fit kalloc pool mem next (chunk 16 true) others 61 refl mem-IsZone (omega arith)
      (omega arith) (base + 40) (ap (λ fit. fit.0) first_64)

alloc-above_example :
    (m' : Mem) × (alloc kalloc pool 4000 mem ≡ done (err oom, pool) m')
    × IsZone m' base next (first_fit (rounded 4000) (base + 8) (chunk 16 true) others).1
    × SameOutside mem m' base (base + page_size)
alloc-above_example =
    alloc-above kalloc pool mem next (chunk 16 true) others 4000 refl mem-IsZone (omega arith)
      (omega arith) (ap (λ fit. fit.0) first_4000) behind_in_use (omega arith) (omega arith)
      (omega arith)

-- The first chunk is freed and merged with the one behind it.
free-freed_example :
    (m' : Mem) × (free kalloc pool (base + 8 + span [] + 8) mem ≡ done pool m')
    × IsZone m' base next (freed 16 others)
    × SameOutside mem m' base (base + page_size)
free-freed_example =
    free-freed kalloc pool mem base next 16 [] others mem-IsZone (omega arith) (omega arith)

second_free : is_free (mem (base + 32)) ≡ true
unfolding update is_free
second_free = refl

-- The second chunk is free.
-- The same zone as the only one, and one free page in the pool.
abbrev lone : Mem
lone = update mem base 2

lone-IsZone : IsZone lone base 0 (chunk 16 true ∷ others)
unfolding update
lone-IsZone = record {
  page = omega arith;
  next_aligned = refl;
  next_small = omega arith;
  refs = refl;
  chunks = (
    refl,
    (refl, λ u. omega arith),
    (
      refl,
      (refl, λ u. omega arith),
      (refl, (refl, λ u. omega arith), (refl, (refl, λ u. omega arith), refl)),
    ),
  );
}

abbrev one_page : Pool
one_page = record { free = some 0x80004000; bottom = 0x80004000; top = 0x80008000 }

one_page-IsPool : IsPool lone one_page (0x80004000 ∷ [])
unfolding update
one_page-IsPool = record {
  low = omega arith;
  high = omega arith;
  pages = omega arith;
  links = (refl, refl, tt);
  free = refl;
}

lone_behind : is_free (lone (base + page_size)) ≡ false
unfolding update is_free
lone_behind = refl

alloc-grow_example :
    (m' : Mem) × (pool' : Pool) × (alloc kalloc one_page 4000 lone
      ≡ done (ok (0x80004000 + 16), pool') m')
    × IsZone m' base 0x80004000 (first_fit (rounded 4000) (base + 8) (chunk 16 true) others).1
    × IsZone m' 0x80004000 0 (carve (rounded 4000) (chunk 4080 false) [])
    × IsPool m' pool' []
alloc-grow_example =
    alloc-grow kalloc one_page lone (chunk 16 true) others 4000 0x80004000 [] refl lone-IsZone
      (omega arith) (omega arith) one_page-IsPool (omega arith) (ap (λ fit. fit.0) first_4000)
      (omega arith) lone_behind

-- Two zones: the head zone is free, and the one behind it is one chunk in use.
abbrev two : Mem
two =
    update
      (update (update (update (λ q. 0) base (base + page_size)) (base + 8) 4080) (base + page_size)
        1)
      (base + 0x1008) 8176

two-head : IsZone two base (base + page_size) (chunk 4080 false ∷ [])
unfolding update
two-head = record {
  page = omega arith;
  next_aligned = refl;
  next_small = omega arith;
  refs = refl;
  chunks = (refl, (refl, λ u. omega arith), refl);
}

two-last : IsZone two (base + page_size) 0 (chunk 4080 true ∷ [])
unfolding update
two-last = record {
  page = omega arith;
  next_aligned = refl;
  next_small = omega arith;
  refs = refl;
  chunks = (refl, (refl, λ u. omega arith), refl);
}

abbrev none_free : Pool
none_free = record { free = none; bottom = base + page_size; top = 0x80008000 }

none_free-IsPool : IsPool two none_free []
none_free-IsPool = record {
  low = omega arith;
  high = omega arith;
  pages = omega arith;
  links = tt;
  free = refl;
}

free-last_example :
    (m' : Mem) × (pool' : Pool) × (free kalloc none_free (base + page_size + 8 + 8) two
      ≡ done pool' m')
    × (pool'.free ≡ some (base + page_size))
    × (m' (base + page_size + 8) ≡ 4080)
free-last_example =
    free-last kalloc none_free two (base + page_size) 4080 (chunk 4080 false ∷ []) [] two-head
      two-last refl (omega arith) none_free-IsPool (omega arith) (omega arith)
