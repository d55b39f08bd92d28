-- ===== src/Galloc/Zeroed.antt =====
-- `alloc_zeroed` of src/vm/global.rs for sizes that the allocator of chunks takes.
use reedos.Common.{
  ℕ, ◌+◌, ◌*◌, ◌/◌, ◌%◌, ◌≤◌, ◌<◌, ◌≡◌, refl, ◌∙◌, ap, List, ◌∷◌, arith, leb-true, some, subst,
  Option,
}
use reedos.Machine.{Mem, done, page_size}
use reedos.Palloc.{Pool}
use reedos.Palloc.Steps.{SameOutside}
use reedos.Zone.Chunks.{Chunk, IsZone, first_fit}
use reedos.Zone.Owned.{Owned, SameBlocks, first_fit-gives}
use reedos.Zone.Blocks.{Owned-within, IsZone-block}
use reedos.Kalloc.Alloc.{rounded, alloc-SameBlocks}
use reedos.Galloc.{Galloc, Layout, alloc, alloc_pages, alloc_zeroed, decide_internal_scheme, expect}
use reedos.Galloc.Pages.{decide-done, pages_for}
use reedos.Galloc.Bytes.{byte, within-true}
use reedos.Galloc.Copies.{zero_bytes-Writes}

pub pages_for-small :
    (layout : Layout) → layout.size ≤ 4080 → layout.align ≤ 8 → pages_for layout ≡ 0
pages_for-small layout s a = rw (leb-true layout.size 4080 s, leb-true layout.align 8 a) refl

module _ (galloc : Galloc) (pool : Pool) (layout : Layout) (m : Mem) (next : ℕ) (c : Chunk)
    (cs : List Chunk) (one : galloc.small_pool.end ≡ galloc.small_pool.head + page_size)
    (zone : IsZone m galloc.small_pool.head next (c ∷ cs)) (pos : 0 < layout.size)
    (small : layout.size ≤ 4080) (aligned : layout.align ≤ 8) where
  abbrev head : ℕ
  head = galloc.small_pool.head

  abbrev fit : (Option ℕ) × List Chunk
  fit = first_fit (rounded layout.size) (head + 8) c cs

  decided : (m' : Mem) → decide_internal_scheme layout m' ≡ done 0 m'
  decided m' =
      decide-done layout m' pos (omega arith)
      ∙ ap (λ n. done n m') (pages_for-small layout small aligned)

  -- A layout of at most 4080 bytes, and not of 0, that is aligned to at most 8 is taken from the chunks.
  pub alloc-small :
      (ptr : ℕ)
      → fit.0 ≡ some ptr
      → (m' : Mem) × (alloc galloc pool layout m ≡ done (ptr, pool) m')
        × IsZone m' head next fit.1
        × SameOutside m m' head (head + page_size)
        × SameBlocks m m' (head + 8) (c ∷ cs)
  unfolding alloc alloc_pages expect
  alloc-small ptr e =
      let (m', ran, zone', same, blocks) =
        alloc-SameBlocks galloc.small_pool pool m next c cs layout.size one zone pos (omega arith)
          ptr e in
      (
        m',
        rw (leb-true layout.align page_size (omega arith), decided m, ran) refl,
        zone',
        same,
        blocks,
      )

  -- Where the allocator of chunks has one zone, of the chunks `c ∷ cs`, and first fit for the size
  -- rounded up to a multiple of 8 finds a chunk there, `alloc_zeroed` of a layout of at most 4080
  -- bytes, and not of 0, that is aligned to at most 8 returns its address; every byte of the block
  -- is zero, the page is the zone of the chunks that first fit leaves, and neither the pool nor
  -- memory outside the page changes.
  pub alloc_zeroed-first_fit :
      (ptr : ℕ)
      → fit.0 ≡ some ptr
      → (m' : Mem) × (alloc_zeroed galloc pool layout m ≡ done (ptr, pool) m')
        × ((q : ℕ) → ptr ≤ q → q < ptr + layout.size → byte m' q ≡ 0)
        × IsZone m' head next fit.1
        × SameOutside m m' head (head + page_size)
  unfolding alloc_zeroed
  alloc_zeroed-first_fit ptr e =
      let (m₁, ran, zone₁, same₁, blocks) = alloc-small ptr e in
      let owned : Owned (head + 8) fit.1 ptr (rounded layout.size) =
        first_fit-gives (rounded layout.size) (head + 8) c cs ptr e in
      let (lower, upper, al) =
        Owned-within m₁ (head + 8) (head + page_size) fit.1 ptr (rounded layout.size)
          (omega (arith, zone.page)) zone₁.chunks owned in
      let n : 8 * (layout.size / 8) + layout.size % 8 ≡ layout.size = omega arith in
      let (m₂, wrote, writes, same₂) =
        zero_bytes-Writes (layout.size / 8) (layout.size % 8) ptr m₁ (omega (arith, zone.page))
          (omega (arith, zone.page)) al (omega arith) in
      (
        m₂,
        rw (ran, decided m₁, wrote) refl,
        (λ q l h. writes q ∙ rw (n, within-true ptr layout.size q l h) refl),
        IsZone-block m₁ m₂ head next ptr layout.size ptr (rounded layout.size) fit.1 zone₁ owned
            (omega arith) (omega arith) (subst (λ k. SameOutside m₁ m₂ ptr (ptr + k)) n same₂),
        λ q out. same₂ q (omega arith) ∙ same₁ q out,
      )
