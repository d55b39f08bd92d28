-- ===== src/Galloc/Moved.antt =====
-- `realloc` of src/vm/global.rs where the allocator of chunks has the old block and gives the new one.
use Prim.Native.Nat.{bit_and}
use reedos.Common.{
  true, ◌++◌, ℕ, ◌+◌, ◌-◌, ◌*◌, ◌/◌, ◌%◌, ◌^◌, ◌≤◌, ◌<◌, ◌≡◌, refl, ◌∙◌, ap, List, ◌∷◌, arith,
  ==_gt, leb-true, some, subst, Option,
}
use reedos.Machine.{and_then, Mem, done, page_size, pure, ◌>>=◌}
use reedos.Palloc.{Pool}
use reedos.Palloc.Steps.{SameOutside}
use reedos.Zone.Chunks.{Chunk, IsZone, first_fit, used_count}
use reedos.Zone.Owned.{Owned, Aligned, SameBlocks, first_fit-gives, first_fit-keeps}
use reedos.Zone.Apart.{Apart, first_fit-Apart}
use reedos.Machine.Laws.{IsWord}
use reedos.Zone.Rounds.{counted}
use reedos.Zone.Span.{span}
use reedos.Zone.FirstFit.{used_count-first_fit}
use reedos.Kalloc.{free}
use reedos.Kalloc.Freed.{freed, free-Freed}
use reedos.Galloc.{dealloc_pages, Galloc, Layout, from_size_align, dealloc, realloc}
use reedos.Galloc.Pages.{decide-done}
use reedos.Zone.Blocks.{Owned-split, Owned-other, Owned-counted, Owned-within, IsZone-block}
use reedos.Kalloc.Alloc.{rounded}
use reedos.Galloc.Bytes.{byte_of, byte, within-true}
use reedos.Galloc.Copies.{copy_bytes-Writes}
use reedos.Galloc.Zeroed.{alloc-small, pages_for-small}

-- `from_size_align` accepts a power of two and a size that leaves room for it.
from_size_align-done :
    (size align : ℕ) (m : Mem)
    → 0 < align
    → align ≤ 8
    → bit_and align (align - 1) ≡ 0
    → size ≤ 4080
    → from_size_align size align m ≡ done (record { size = size; align = align }) m
unfolding from_size_align
from_size_align-done size align m pos al power s =
    rw (==_gt align 0 pos, power, leb-true (size + (align - 1)) (2 ^ 63 - 1) (omega arith)) refl

-- A byte of a block in use, in a word that is kept.
byte-kept :
    (m m' : Mem) (at : ℕ) (cs : List Chunk) (ptr size q : ℕ)
    → SameBlocks m m' at cs
    → Owned at cs ptr size
    → ptr % 8 ≡ 0
    → ptr ≤ q
    → q < ptr + size
    → byte m' q ≡ byte m q
unfolding byte
byte-kept m m' at cs ptr size q same o al l h =
    ap (λ w. byte_of (q % 8) w) (same ptr size (q / 8 * 8) o (omega arith) (omega arith))

byte-same : (m m' : Mem) (q : ℕ) → m' (q / 8 * 8) ≡ m (q / 8 * 8) → byte m' q ≡ byte m q
unfolding byte
byte-same m m' q e = ap (λ w. byte_of (q % 8) w) e

module _ (galloc : Galloc) (pool : Pool) (ptr : ℕ) (layout : Layout) (new_size : ℕ) (m : Mem)
    (next : ℕ) (c : Chunk) (cs : List Chunk)
    (one : galloc.small_pool.end ≡ galloc.small_pool.head + page_size)
    (zone : IsZone m galloc.small_pool.head next (c ∷ cs)) (pos : 0 < layout.size)
    (grows : layout.size ≤ new_size) (small : new_size ≤ 4080) (align_pos : 0 < layout.align)
    (aligned : layout.align ≤ 8) (power : bit_and layout.align (layout.align - 1) ≡ 0) where
  abbrev head : ℕ
  head = galloc.small_pool.head

  abbrev fit : Option ℕ × List Chunk
  fit = first_fit (rounded new_size) (head + 8) c cs

  abbrev new_layout : Layout
  new_layout = record { size = new_size; align = layout.align }

  -- `realloc` comes to its `dealloc` of the old block with the bytes of the old block in the new one.
  realloc-moves :
      (old out : ℕ)
      → Owned (head + 8) (c ∷ cs) ptr old
      → layout.size ≤ old
      → Aligned (c ∷ cs)
      → fit.0 ≡ some out
      → (m' : Mem) × (realloc galloc pool ptr layout new_size m
          ≡ (dealloc galloc pool ptr layout >>= λ pool'. pure (out, pool')) m')
        × ((i : ℕ) → i < layout.size → byte m' (out + i) ≡ byte m (ptr + i))
        × IsZone m' head next fit.1
        × Owned (head + 8) fit.1 ptr old
        × SameOutside m m' head (head + page_size)
  unfolding realloc
  realloc-moves old out owned room al e =
      let (m₁, ran, zone₁, same₁, blocks) =
        alloc-small galloc pool new_layout m next c cs one zone (omega arith) small aligned out e in
      let size = rounded new_size in
      let new : Owned (head + 8) fit.1 out size = first_fit-gives size (head + 8) c cs out e in
      let kept = first_fit-keeps size (head + 8) c cs ptr old (omega arith) al owned in
      let apart : Apart ptr old out size =
        first_fit-Apart size (head + 8) c cs out ptr old e owned in
      let (new_low, new_high, new_al) =
        Owned-within m₁ (head + 8) (head + page_size) fit.1 out size (omega (arith, zone.page))
          zone₁.chunks new in
      let (low, high, old_al) =
        Owned-within m (head + 8) (head + page_size) (c ∷ cs) ptr old (omega (arith, zone.page))
          zone.chunks owned in
      let n : 8 * (layout.size / 8) + layout.size % 8 ≡ layout.size = omega arith in
      let (m₂, copied, writes, same₂) =
        copy_bytes-Writes (layout.size / 8) (layout.size % 8) ptr out m₁ (omega (arith, zone.page))
          (omega (arith, zone.page)) old_al (omega (arith, zone.page)) (omega (arith, zone.page))
          new_al (omega arith) (omega arith) in
      let same₃ : SameOutside m₁ m₂ out (out + layout.size) =
        subst (λ k. SameOutside m₁ m₂ out (out + k)) n same₂ in
      (
        m₂,
        rw (from_size_align-done new_size layout.align m align_pos aligned power small, ran, copied)
            refl,
        (λ i h.
            (let place : ptr + (out + i - out) ≡ ptr + i = omega arith in
              writes (out + i)
              ∙ rw (n, within-true out layout.size (out + i) (omega arith) (omega arith), place)
                  (byte-kept m m₁ (head + 8) (c ∷ cs) ptr old (ptr + i) blocks owned old_al
                    (omega arith) (omega arith)))),
        IsZone-block m₁ m₂ head next out layout.size out size fit.1 zone₁ new (omega arith)
            (omega arith) same₃,
        kept,
        λ q x. same₃ q (omega arith) ∙ same₁ q x,
      )

  dealloc-small :
      (m₁ : Mem) → dealloc galloc pool ptr layout m₁ ≡ free galloc.small_pool pool ptr m₁
  unfolding dealloc dealloc_pages
  dealloc-small m₁ =
      rw
        (
          leb-true layout.align page_size (omega arith),
          decide-done layout m₁ pos (omega arith),
          pages_for-small layout (omega arith) aligned,
        )
        refl

  -- Two blocks of the zone are in use where one was and first fit has found another.
  two_used :
      (old out : ℕ) → Owned (head + 8) (c ∷ cs) ptr old → fit.0 ≡ some out → 1 < used_count fit.1
  two_used old out owned e =
      let count = used_count-first_fit (rounded new_size) (head + 8) c cs in
      let one_used = Owned-counted (head + 8) (c ∷ cs) ptr old owned in
      let more : used_count fit.1 ≡ used_count (c ∷ cs) + 1 =
        count ∙ ap (λ o. counted o (used_count (c ∷ cs))) e in
      omega arith

  -- Where the allocator of chunks has one zone, of the chunks `c ∷ cs` with sizes that are multiples of
  -- 8, one of which is the old block at `ptr` with room for its layout, which is not of size 0, first
  -- fit for the new size, which is not smaller and at most 4080, finds a chunk at `out`, and the word
  -- behind the page is in RAM, `realloc` for an alignment of 1, 2, 4 or 8 returns `out`, with the bytes
  -- of the old block in the new one. The page is then the zone of the chunks that first fit leaves, with
  -- the old block free, and merged with the chunk behind if that is free; the pool and memory outside
  -- the page are as they were.
  pub realloc-first_fit :
      (old out : ℕ)
      → Owned (head + 8) (c ∷ cs) ptr old
      → layout.size ≤ old
      → Aligned (c ∷ cs)
      → fit.0 ≡ some out
      → IsWord (head + page_size)
      → (m' : Mem) × (front : List Chunk) × (back : List Chunk) × (realloc galloc pool ptr layout
            new_size m
          ≡ done (out, pool) m')
        × ((i : ℕ) → i < layout.size → byte m' (out + i) ≡ byte m (ptr + i))
        × (fit.1 ≡ front ++ record { size = old; used = true } ∷ back)
        × (ptr ≡ head + 8 + span front + 8)
        × IsZone m' head next (front ++ freed old back)
        × SameOutside m m' head (head + page_size)
  realloc-first_fit old out owned room al e behind =
      let (m₂, moved, bytes, zone₂, kept, same₂) = realloc-moves old out owned room al e in
      let size = rounded new_size in
      let new : Owned (head + 8) fit.1 out size = first_fit-gives size (head + 8) c cs out e in
      let apart : Apart ptr old out size =
        first_fit-Apart size (head + 8) c cs out ptr old e owned in
      let (front, back, split, place) = Owned-split (head + 8) fit.1 ptr old kept in
      let two = two_used old out owned e in
      let (m₃, freed_ptr, zone₃, same₃, words) =
        free-Freed galloc.small_pool pool m₂ head next old front back
          (subst (λ l. IsZone m₂ head next l) split zone₂) (subst (λ l. 1 < used_count l) split two)
          behind in
      let ran : dealloc galloc pool ptr layout m₂ ≡ done pool m₃ =
        dealloc-small m₂ ∙ ap (λ p. free galloc.small_pool pool p m₂) place ∙ freed_ptr in
      let avoids =
        Owned-other (head + 8) old true front back out size
          (subst (λ l. Owned (head + 8) l out size) split new) (omega arith) in
      let (new_low, new_high, new_al) =
        Owned-within m₂ (head + 8) (head + page_size) fit.1 out size (omega (arith, zone.page))
          zone₂.chunks new in
      (
        m₃,
        front,
        back,
        moved ∙ ap (λ r. and_then r (λ pool'. pure (out, pool'))) ran,
        (λ i h.
            byte-same m₂ m₃ (out + i)
              (words ((out + i) / 8 * 8) (omega arith) (omega arith) (omega arith))
            ∙ bytes i h),
        split,
        place,
        zone₃,
        λ q x. same₃ q x ∙ same₂ q x,
      )
