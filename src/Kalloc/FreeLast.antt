-- ===== src/Kalloc/FreeLast.antt =====
-- `Kalloc::free` of src/vm/vmalloc.rs on the last chunk in use of a zone behind the head zone, whose
-- page goes back to the page pool.
use reedos.Common.{
  ℕ, suc, ◌+◌, ◌-◌, ◌*◌, ◌/◌, ◌%◌, ◌≤◌, ◌<◌, ◌≡◌, ◌≢◌, refl, ◌∙◌, ◌⊎◌, Bool, true, false, List, [],
  ◌∷◌, arith, ◌==◌, ==_true, none, some, Result,
}
use reedos.Common.Bits.{bit_and_high}
use reedos.Machine.{Mem, Cmd, done, update, page_size, usize_top}
use reedos.Machine.Laws.{IsWord, read-done, write-done, sub-eq, update_self, update_ne}
use reedos.Palloc.{Pool, VmError, pfree}
use reedos.Palloc.Steps.{IsPage}
use reedos.Palloc.FreeList.{IsPool}
use reedos.Palloc.FreePages.{IsRegion}
use reedos.Palloc.Api.{Freed, pfree-insert}
use reedos.Header.{header_size}
use reedos.Header.Fields.{word, is_free-word, set_unused-word}
use reedos.Zone.{Zone, next_zone, free_self}
use reedos.Zone.Refs.{get_next_lem, free_self-last, decrement_refs-done}
use reedos.Zone.Chunks.{Chunk, IsZone, Chunks-le, Chunks-frame, used_count, used_count-le}
use reedos.Kalloc.{Kalloc, free, release, shrink_pool, shrink_loop}
use reedos.Kalloc.Alloc.{from-done, next_zone-done}
use reedos.Kalloc.Grow.{Ensures-done}

differ : (a b : ℕ) → a ≢ b → (a == b) ≡ false
differ a b ne = ground arith

case_true :
    (b : Bool) (c d : Cmd Pool) (m : Mem)
    → b ≡ true
    → elim b as (λ x. Cmd Pool) [ true ↦ c | false ↦ d ] m ≡ c m
case_true true c d m e = refl
case_true false c d m e = cc

shrink_found :
    (k : ℕ) (pool : Pool) (drop zone : Zone) (h : ℕ) (m : Mem)
    → IsWord h
    → next_zone (record { base = h; next = m h }) m ≡ done (some zone) m
    → drop.base ≡ zone.base
    → shrink_loop (suc k) pool drop h m ≡ free_self pool drop (record { base = h; next = m h }) m
unfolding shrink_loop
shrink_found k pool drop zone h m w next same =
    rw (from-done h m w, next)
      (case_true (drop.base == zone.base) (free_self pool drop (record { base = h; next = m h }))
        (shrink_loop k pool drop zone.base) m (==_true drop.base zone.base same))

shrink_behind :
    (kalloc : Kalloc) (pool : Pool) (drop zone : Zone) (m : Mem)
    → drop.base ≢ kalloc.head
    → IsWord kalloc.head
    → next_zone (record { base = kalloc.head; next = m kalloc.head }) m ≡ done (some zone) m
    → drop.base ≡ zone.base
    → shrink_pool kalloc pool drop m
      ≡ free_self pool drop (record { base = kalloc.head; next = m kalloc.head }) m
unfolding shrink_pool
shrink_behind kalloc pool drop zone m ne w next same =
    rw (differ drop.base kalloc.head ne)
      (shrink_found 0x8000 pool drop zone kalloc.head m w next same)

-- `free` of the only chunk in use of a zone that `shrink_pool` gives back to the pool.
module _ (kalloc : Kalloc) (pool pool' : Pool) (m m' : Mem) (base next s at : ℕ)
    (page : IsPage base) (refs : m base ≡ next + 1) (next_aligned : next % page_size ≡ 0)
    (next_small : next + page_size ≤ usize_top) (here : m at ≡ word s true) (word_at : IsWord at)
    (low : base + 8 ≤ at) (high : at + header_size + s ≤ base + page_size) (pos : 0 < s) where
  abbrev m₁ : Mem
  m₁ = update m base (m base - 1)

  free_dropped :
      shrink_pool kalloc pool (record { base = base; next = m base - 1 }) m₁ ≡ done pool' m'
      → free kalloc pool (at + header_size) m ≡ done pool' (update m' at (word s false))
  unfolding free release
  free_dropped ran =
      let w : IsWord base = omega (arith, page) in
      let zone_at : (at + header_size) / page_size * page_size ≡ base = omega (arith, page) in
      let z : Zone = record { base = base; next = m base } in
      let zero_left : m base % page_size - 1 ≡ 0 = omega arith in
      rw
        (
          bit_and_high 12 52 (at + header_size) (omega (arith, page)),
          zone_at,
          from-done base m w,
          sub-eq (at + header_size) header_size at m (omega arith),
          read-done word_at m,
          here,
          is_free-word s (omega arith) true,
          decrement_refs-done z (omega arith) w m (omega arith),
          zero_left,
          set_unused-word s (omega arith),
          ran,
          write-done word_at m' (word s false),
        )
        refl

next_zone_zero :
    (z : Zone) (m : Mem)
    → z.next < usize_top
    → z.next / page_size * page_size ≡ 0
    → next_zone z m ≡ done none m
unfolding next_zone
next_zone_zero z m h q = rw (get_next_lem z h, q) refl

IsZone-other :
    (m : Mem) (base next a v : ℕ) (cs : List Chunk)
    → (a < base) ⊎ (base + page_size ≤ a)
    → IsZone m base next cs
    → IsZone (update m a v) base next cs
IsZone-other m base next a v cs out zone = record {
  page = zone.page;
  next_aligned = zone.next_aligned;
  next_small = zone.next_small;
  refs = update_ne m a base v (omega arith) ∙ zone.refs;
  chunks =
      Chunks-frame m (update m a v) (base + 8) (base + page_size) cs
        (λ q x y. update_ne m a q v (omega arith)) zone.chunks;
}

module _ (kalloc : Kalloc) (pool : Pool) (m : Mem) (base s : ℕ) (cs back : List Chunk)
    (head : IsZone m kalloc.head base cs)
    (zone : IsZone m base 0 (record { size = s; used = true } ∷ back)) (last : used_count back ≡ 0)
    (ne : base ≢ kalloc.head) (p : IsPool m pool []) (low : pool.bottom ≤ base)
    (high : base + page_size ≤ pool.top) where
  abbrev dropped : Zone
  dropped = record { base = base; next = m base - 1 }

  abbrev counted : Mem
  counted = update m base (m base - 1)

  abbrev prev : Zone
  prev = record { base = kalloc.head; next = counted kalloc.head }

  abbrev unlinked : Mem
  unlinked = update counted kalloc.head (0 + prev.next % page_size)

  still_pool : IsPool unlinked pool []
  still_pool = record { low = p.low; high = p.high; pages = p.pages; links = tt; free = p.free }

  dropped_run :
      (pool' : Pool) (m' : Mem) (result : Result VmError (Unit {0}))
      → pfree pool base unlinked ≡ done (result, pool') m'
      → shrink_pool kalloc pool dropped counted ≡ done pool' m'
  dropped_run pool' m' result ran =
      let head' =
        IsZone-other m kalloc.head base base (m base - 1) cs (omega (arith, head.page, zone.page))
          head in
      let used =
        used_count-le counted (kalloc.head + 8) (kalloc.head + page_size) cs head'.chunks in
      shrink_behind kalloc pool dropped (record { base = base; next = counted base }) counted ne
        (omega (arith, head.page)) (next_zone-done counted kalloc.head base cs head' zone.page) refl
      ∙ free_self-last pool pool' dropped prev counted m' result (omega (arith, zone.refs))
          (next_zone_zero dropped counted (omega (arith, zone.refs)) (omega (arith, zone.refs)))
          (omega (arith, head.page)) (omega (arith, head'.refs, head'.next_small)) ran

  -- Where the zone behind the head zone is the last one and has one chunk in use, its first, of
  -- `s` bytes, and the pool has no free page but reaches over the page of that zone: `free` of
  -- this chunk makes the page the only free page of the pool, and then writes the chunk header
  -- behind the page's first word, so that the next pointer of the free page is `s` and not null.
  pub free-last :
      (m' : Mem) × (pool' : Pool) × (free kalloc pool (base + 8 + header_size) m ≡ done pool' m')
      × (pool'.free ≡ some base)
      × (m' (base + 8) ≡ s)
  free-last =
      let (here, (al, pos), r) = zone.chunks in
      let le = Chunks-le m (base + 8 + header_size + s) (base + page_size) back r in
      let region : IsRegion pool [] base 1 = record {
        aligned = zone.page.aligned;
        low = low;
        high = omega (arith, high);
        apart = tt;
      } in
      let ((result, pool'), m₃, ran, (got, bounds, is, same)) =
        Ensures-done (Freed pool unlinked [] base 1) (pfree pool base unlinked)
          (pfree-insert [] base still_pool region) in
      (
        update m₃ (base + 8) (word s false),
        pool',
        free_dropped kalloc pool pool' m m₃ base 0 s (base + 8) zone.page
            (omega (arith, zone.refs, last)) refl (omega arith) here (omega (arith, zone.page))
            (omega arith) le (pos refl) (dropped_run pool' m₃ result ran),
        is.free,
        update_self m₃ (base + 8) (word s false),
      )
