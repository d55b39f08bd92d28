-- ===== src/Kalloc/AllocGrow.antt =====
-- `Kalloc::alloc` of src/vm/vmalloc.rs where no chunk of the only zone fits.
use reedos.Common.{
  ℕ, suc, ◌+◌, ◌*◌, ◌/◌, ◌≤◌, ◌<◌, ◌≡◌, refl, ◌∙◌, ap, false, List, [], ◌∷◌, arith, leb-true,
  Option, none, ok,
}
use reedos.Machine.{Mem, done, page_size}
use reedos.Palloc.{Pool}
use reedos.Palloc.Steps.{IsPage}
use reedos.Palloc.FreeList.{IsPool, Apart}
use reedos.Header.{is_free, max_chunk_size}
use reedos.Zone.{Zone, scan, next_zone}
use reedos.Zone.Refs.{get_next_lem}
use reedos.Zone.Chunks.{Chunk, Chunks-frame, IsZone, used_count, used_count-le, carve, first_fit}
use reedos.Zone.Rounds.{counted}
use reedos.Zone.FirstFit.{scan-first_fit, used_count-first_fit}
use reedos.Kalloc.{Kalloc, alloc, alloc_loop, alloc_grown, grow_pool}
use reedos.Kalloc.Alloc.{rounded, start}
use reedos.Kalloc.Grow.{IsPool-Apart, Grown, grows}

loop_grow :
    (k : ℕ) (pool pool' : Pool) (size end ptr head : ℕ) (trail zone zone' new : Zone)
    (m m₁ m₃ m' : Mem)
    → zone.base ≤ end
    → scan zone size m ≡ done (none, zone') m₁
    → next_zone zone' m₁ ≡ done none m₁
    → grow_pool pool trail m₁ ≡ done (ok (new, head), pool') m₃
    → alloc_grown size (ok (new, head)) m₃ ≡ done (ok ptr) m'
    → alloc_loop (suc k) pool size end trail zone m ≡ done (ok ptr, pool') m'
unfolding alloc_loop
loop_grow k pool pool' size end ptr head trail zone zone' new m m₁ m₃ m' le ran next grown last =
    rw (leb-true zone.base end le, ran, next, grown, last) refl

-- There is no zone behind the last one.
pub next_zone-none :
    (m : Mem) (base : ℕ) (cs : List Chunk)
    → IsZone m base 0 cs
    → next_zone (record { base = base; next = m base }) m ≡ done none m
unfolding next_zone
next_zone-none m base cs zone =
    let used = used_count-le m (base + 8) (base + page_size) cs zone.chunks in
    let q : m base / page_size * page_size ≡ 0 = omega (arith, zone.refs, zone.page) in
    rw
      (
        get_next_lem (record { base = base; next = m base }) (omega (arith, zone.refs, zone.page)),
        q,
      )
      refl

module _ (kalloc : Kalloc) (pool : Pool) (m : Mem) (c : Chunk) (cs : List Chunk) (size a : ℕ)
    (rest : List ℕ) (one : kalloc.end ≡ kalloc.head + page_size)
    (zone : IsZone m kalloc.head 0 (c ∷ cs)) (pos : 0 < size) (small : size ≤ max_chunk_size)
    (p : IsPool m pool (a ∷ rest))
    (apart : Apart kalloc.head (kalloc.head + page_size) (a ∷ rest)) where
  abbrev fit : Option ℕ × List Chunk
  fit = first_fit (rounded size) (kalloc.head + 8) c cs

  abbrev z : Zone
  z = record { base = kalloc.head; next = m kalloc.head }

  -- The head zone after the new one is linked.
  head_zone :
      (m₁ m' : Mem) (pool' : Pool)
      → fit.0 ≡ none
      → IsZone m₁ kalloc.head 0 fit.1
      → Grown m₁ m' pool' z a (rounded size) rest
      → IsZone m' kalloc.head a fit.1
  head_zone m₁ m' pool' e zone₁ g =
      let used = used_count-le m (kalloc.head + 8) (kalloc.head + page_size) (c ∷ cs) zone.chunks in
      let count : used_count fit.1 ≡ used_count (c ∷ cs) =
        used_count-first_fit (rounded size) (kalloc.head + 8) c cs
        ∙ ap (λ o. counted o (used_count (c ∷ cs))) e in
      record {
        page = zone.page;
        next_aligned = g.zone.page.aligned;
        next_small = omega (arith, g.zone.page);
        refs = g.link ∙ omega (arith, zone.refs, count);
        chunks =
            Chunks-frame m₁ m' (kalloc.head + 8) (kalloc.head + page_size) fit.1
              (λ q x y. g.same q (omega arith) y) zone₁.chunks;
      }

  -- Where the head zone is the only one, first fit for the size, not 0 and at most 4080, rounded
  -- up to a multiple of 8, finds no chunk there, the word behind the page is in RAM and has the
  -- used bit set, and the pool has the free pages `a` and `rest`, none of them the head zone:
  -- `alloc` returns the data of the first chunk in the page `a`. The head zone then has the
  -- chunks that first fit leaves and `a` as its next zone, `a` is the last zone, its chunk carved
  -- to the size, and `rest` are the free pages of the new pool.
  pub alloc-grow :
      fit.0 ≡ none
      → IsPage (kalloc.head + page_size)
      → is_free (m (kalloc.head + page_size)) ≡ false
      → (m' : Mem) × (pool' : Pool) × (alloc kalloc pool size m ≡ done (ok (a + 16), pool') m')
        × IsZone m' kalloc.head a fit.1
        × IsZone m' a 0 (carve (rounded size) (record { size = max_chunk_size; used = false }) [])
        × IsPool m' pool' rest
  alloc-grow e w f =
      let (m₁, ran, zone₁, same) =
        scan-first_fit m kalloc.head 0 c cs (rounded size) zone (omega arith) (omega arith)
          (rw e (omega arith, f)) in
      let z' : Zone = record { base = kalloc.head; next = m₁ kalloc.head } in
      let p₁ =
        IsPool-Apart m m₁ pool kalloc.head (kalloc.head + page_size) (a ∷ rest)
          (omega (arith, zone.page)) (omega (arith, zone.page)) apart same p in
      let used = used_count-le m (kalloc.head + 8) (kalloc.head + page_size) (c ∷ cs) zone.chunks in
      let (m₃, m', pool', grown, last, g) =
        grows m₁ pool z a rest (rounded size) p₁ zone.page apart
          (omega (arith, zone.refs, zone.page)) (omega arith) (omega arith) (omega arith) in
      (
        m',
        pool',
        start kalloc pool m 0 c cs size one zone pos (omega arith)
            ∙ loop_grow 0x8000 pool pool' (rounded size) kalloc.head (a + 16) max_chunk_size z z z'
                (record { base = a; next = 0 }) m m₁ m₃ m' (omega arith)
                (ran ∙ ap (λ o. done (o, z') m₁) e) (next_zone-none m₁ kalloc.head fit.1 zone₁)
                grown last,
        head_zone m₁ m' pool' e zone₁ g,
        g.zone,
        g.pool,
      )
