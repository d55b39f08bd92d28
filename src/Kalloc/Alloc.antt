-- ===== src/Kalloc/Alloc.antt =====
-- `Kalloc::alloc` of src/vm/vmalloc.rs.
use reedos.Common.{
  ℕ, suc, ◌+◌, ◌*◌, ◌/◌, ◌%◌, ◌≤◌, ◌<◌, ◌≡◌, refl, ◌∙◌, ap, inl, inr, false, List, ◌∷◌, arith, ◌==◌,
  ==_gt, leb-true, leb-false, Bool-cases, none, some, ok, err,
}
use reedos.Common.Bits.{bit_and_high}
use reedos.Machine.{Mem, done, page_size, usize_top}
use reedos.Machine.Laws.{IsWord, read-done, add-done, sub-eq}
use reedos.Palloc.{Pool}
use reedos.Palloc.Steps.{IsPage, SameOutside}
use reedos.Header.{is_free}
use reedos.Zone.{Zone, from, oom, void, scan, next_zone}
use reedos.Zone.Chunks.{Chunk, IsZone, used_count-le, first_fit}
use reedos.Zone.Refs.{get_next_lem}
use reedos.Zone.Owned.{SameBlocks}
use reedos.Zone.FirstFit.{scan-first_fit, scan-SameBlocks}
use reedos.Kalloc.{Kalloc, alloc, alloc_loop, round_up, zone_fuel}

-- The next multiple of 8.
abbrev pub rounded : ℕ → ℕ
rounded size = (size + 7) / 8 * 8

-- Sizes that `alloc` rounds without overflow become the next multiple of 8.
pub round_up-done :
    (size : ℕ) (m : Mem) → size + 7 < usize_top → round_up size m ≡ done (rounded size) m
unfolding round_up
round_up-done size m h = elim (Bool-cases (size % 8 == 0)) [
  | inl e ↦ rw e (ap (λ r. done r m) (ground arith))
  | inr e ↦ rw (e, add-done size 7 m h, bit_and_high 3 61 (size + 7) (omega arith)) refl
]

-- `alloc(0)` is an error.
alloc-void :
    (kalloc : Kalloc) (pool : Pool) (m : Mem) → alloc kalloc pool 0 m ≡ done (err void, pool) m
unfolding alloc
alloc-void kalloc pool m = refl

-- The loop at a zone at or below `end` in which `scan` finds a chunk.
loop_found :
    (k : ℕ) (pool : Pool) (size end ptr : ℕ) (trail zone zone' : Zone) (m m' : Mem)
    → zone.base ≤ end
    → scan zone size m ≡ done (some ptr, zone') m'
    → alloc_loop (suc k) pool size end trail zone m ≡ done (ok ptr, pool) m'
unfolding alloc_loop
loop_found k pool size end ptr trail zone zone' m m' le ran =
    rw (leb-true zone.base end le, ran) refl

-- The loop at a zone above `end`.
loop_above :
    (k : ℕ) (pool : Pool) (size end : ℕ) (trail zone : Zone) (m : Mem)
    → end < zone.base
    → alloc_loop (suc k) pool size end trail zone m ≡ done (err oom, pool) m
unfolding alloc_loop
loop_above k pool size end trail zone m lt = rw (leb-false zone.base end lt) refl

loop_next :
    (k : ℕ) (pool : Pool) (size end : ℕ) (trail zone zone' after : Zone) (m m' : Mem)
    → zone.base ≤ end
    → scan zone size m ≡ done (none, zone') m'
    → next_zone zone' m' ≡ done (some after) m'
    → alloc_loop (suc k) pool size end trail zone m ≡ alloc_loop k pool size end trail after m'
unfolding alloc_loop
loop_next k pool size end trail zone zone' after m m' le ran next =
    rw (leb-true zone.base end le, ran, next) refl

pub from-done : (p : ℕ) (m : Mem) → IsWord p → from p m ≡ done (record { base = p; next = m p }) m
unfolding from
from-done p m w = rw (read-done w m) refl

-- The zone behind a zone.
pub next_zone-done :
    (m : Mem) (base next : ℕ) (cs : List Chunk)
    → IsZone m base next cs
    → IsPage next
    → next_zone (record { base = base; next = m base }) m
      ≡ done (some (record { base = next; next = m next })) m
unfolding next_zone
next_zone-done m base next cs zone n =
    let used = used_count-le m (base + 8) (base + page_size) cs zone.chunks in
    let q : m base / page_size * page_size ≡ next =
      omega (arith, zone.refs, zone.next_aligned, zone.page) in
    let w : IsWord next = omega arith in
    rw
      (
        get_next_lem (record { base = base; next = m base })
            (omega (arith, zone.refs, zone.next_small, zone.page)),
        q,
        ==_gt next 0 (omega arith),
        from-done next m w,
      )
      refl

module _ (kalloc : Kalloc) (pool : Pool) (m : Mem) (next : ℕ) (c : Chunk) (cs : List Chunk)
    (size : ℕ) (one : kalloc.end ≡ kalloc.head + page_size)
    (zone : IsZone m kalloc.head next (c ∷ cs)) (pos : 0 < size)
    (small : size + 7 < usize_top) where
  abbrev z : Zone
  z = record { base = kalloc.head; next = m kalloc.head }

  pub start : alloc kalloc pool size m ≡ alloc_loop zone_fuel pool (rounded size) kalloc.head z z m
  unfolding alloc
  start =
      let w : IsWord kalloc.head = omega (arith, zone.page) in
      rw
        (
          ==_gt size 0 pos,
          round_up-done size m small,
          sub-eq kalloc.end 0x1000 kalloc.head m (omega arith),
          from-done kalloc.head m w,
        )
        refl

  -- `alloc` by first fit keeps the data of the blocks in use.
  pub alloc-SameBlocks :
      (ptr : ℕ)
      → (first_fit (rounded size) (kalloc.head + 8) c cs).0 ≡ some ptr
      → (m' : Mem) × (alloc kalloc pool size m ≡ done (ok ptr, pool) m')
        × IsZone m' kalloc.head next (first_fit (rounded size) (kalloc.head + 8) c cs).1
        × SameOutside m m' kalloc.head (kalloc.head + page_size)
        × SameBlocks m m' (kalloc.head + 8) (c ∷ cs)
  alloc-SameBlocks ptr e =
      let (m', ran, zone', same, blocks) =
        scan-SameBlocks m kalloc.head next c cs (rounded size) zone (omega arith) (omega arith)
          (rw e tt) in
      let z' : Zone = record { base = kalloc.head; next = m' kalloc.head } in
      (
        m',
        start
            ∙ loop_found 0x8000 pool (rounded size) kalloc.head ptr z z z' m m' (omega arith)
                (ran ∙ ap (λ o. done (o, z') m') e),
        zone',
        same,
        blocks,
      )

  -- Where the head zone is a zone of the chunks `c ∷ cs`, and first fit for the size, which is
  -- not 0, rounded up to a multiple of 8 without overflow finds a chunk there, `alloc` returns
  -- its address; the page is then the zone of the chunks that first fit leaves, and neither the
  -- pool nor other memory changes.
  pub alloc-first_fit :
      (ptr : ℕ)
      → (first_fit (rounded size) (kalloc.head + 8) c cs).0 ≡ some ptr
      → (m' : Mem) × (alloc kalloc pool size m ≡ done (ok ptr, pool) m')
        × IsZone m' kalloc.head next (first_fit (rounded size) (kalloc.head + 8) c cs).1
        × SameOutside m m' kalloc.head (kalloc.head + page_size)
  alloc-first_fit ptr e =
      let (m', ran, zone', same, blocks) = alloc-SameBlocks ptr e in (m', ran, zone', same)

  -- Where first fit finds no chunk in the head zone, the word in RAM behind that zone has the
  -- used bit set, and the next zone is at a higher address, `alloc` of a size that is not 0 and
  -- is rounded up without overflow is an error of kind OOM, whatever chunks the next zone has
  -- free and whatever pages the pool has free.
  pub alloc-above :
      (first_fit (rounded size) (kalloc.head + 8) c cs).0 ≡ none
      → is_free (m (kalloc.head + page_size)) ≡ false
      → IsPage (kalloc.head + page_size)
      → IsPage next
      → kalloc.head < next
      → (m' : Mem) × (alloc kalloc pool size m ≡ done (err oom, pool) m')
        × IsZone m' kalloc.head next (first_fit (rounded size) (kalloc.head + 8) c cs).1
        × SameOutside m m' kalloc.head (kalloc.head + page_size)
  alloc-above e g p n lt =
      let (m', ran, zone', same) =
        scan-first_fit m kalloc.head next c cs (rounded size) zone (omega arith) (omega arith)
          (rw e (omega arith, g)) in
      let z' : Zone = record { base = kalloc.head; next = m' kalloc.head } in
      let after : Zone = record { base = next; next = m' next } in
      (
        m',
        start
            ∙ loop_next 0x8000 pool (rounded size) kalloc.head z z z' after m m' (omega arith)
                (ran ∙ ap (λ o. done (o, z') m') e)
                (next_zone-done m' kalloc.head next
                  (first_fit (rounded size) (kalloc.head + 8) c cs).1 zone' n)
            ∙ loop_above 0x7FFF pool (rounded size) kalloc.head z after m' lt,
        zone',
        same,
      )
