-- ===== src/Zone/Blocks.antt =====
-- Where the blocks of a zone of src/vm/vmalloc.rs lie, and what writing to one keeps.
use reedos.Common.{
  ℕ, ◌<◌, ◌+◌, ◌%◌, ◌≤◌, ◌≡◌, ◌∙◌, inl, inr, ◌⊎◌, List, [], ◌∷◌, arith, sym, ap, ◌++◌, ◌≢◌, Bool,
  true,
}
use reedos.Machine.{Mem, page_size}
use reedos.Palloc.Steps.{SameOutside}
use reedos.Header.{header_size}
use reedos.Zone.Chunks.{Chunk, Chunks, Chunks-le, IsZone, used_count}
use reedos.Zone.Owned.{Owned, Owned-lower}
use reedos.Zone.Span.{span}

-- A block lies behind its header and ends where the chunks end, and it is aligned.
pub Owned-within :
    (m : Mem) (at end : ℕ) (cs : List Chunk) (ptr size : ℕ)
    → at % 8 ≡ 0
    → Chunks m at end cs
    → Owned at cs ptr size
    → (at + 8 ≤ ptr) × (ptr + size ≤ end) × (ptr % 8 ≡ 0)
Owned-within m at end [] ptr size al h o = absurd o
Owned-within m at end (c ∷ cs) ptr size al (e, k, h) (inl (p, s, u)) =
    omega (arith, Chunks-le m (at + header_size + c.size) end cs h)
Owned-within m at end (c ∷ cs) ptr size al (e, k, h) (inr o) = omega (
  arith,
  k.0,
  Owned-within m (at + header_size + c.size) end cs ptr size (omega (arith, k.0)) h o,
)

Chunks-above :
    (m m' : Mem) (at end lo hi : ℕ) (cs : List Chunk)
    → hi ≤ at
    → SameOutside m m' lo hi
    → Chunks m at end cs
    → Chunks m' at end cs
Chunks-above m m' at end lo hi [] above same h = h
Chunks-above m m' at end lo hi (c ∷ cs) above same (e, k, h) = (
  same at (inr above) ∙ e,
  k,
  Chunks-above m m' (at + header_size + c.size) end lo hi cs (omega arith) same h,
)

-- A write to a block leaves the headers as they are.
Chunks-block :
    (m m' : Mem) (at end lo n ptr size : ℕ) (cs : List Chunk)
    → at % 8 ≡ 0
    → ptr ≤ lo
    → lo + n ≤ ptr + size
    → SameOutside m m' lo (lo + n)
    → Owned at cs ptr size
    → Chunks m at end cs
    → Chunks m' at end cs
Chunks-block m m' at end lo n ptr size [] al l h same o is = is
Chunks-block m m' at end lo n ptr size (c ∷ cs) al l h same (inl (p, s, u)) (e, k, is) = (
  same at (inl (omega arith)) ∙ e,
  k,
  Chunks-above m m' (at + header_size + c.size) end lo (lo + n) cs (omega arith) same is,
)
Chunks-block m m' at end lo n ptr size (c ∷ cs) al l h same (inr o) (e, k, is) =
    let at' = at + header_size + c.size in
    let (lower, upper, q) = Owned-within m at' end cs ptr size (omega (arith, k.0)) is o in
    (
      same at (inl (omega arith)) ∙ e,
      k,
      Chunks-block m m' at' end lo n ptr size cs (omega (arith, k.0)) l h same o is,
    )

pub IsZone-block :
    (m m' : Mem) (base next lo n ptr size : ℕ) (cs : List Chunk)
    → IsZone m base next cs
    → Owned (base + 8) cs ptr size
    → ptr ≤ lo
    → lo + n ≤ ptr + size
    → SameOutside m m' lo (lo + n)
    → IsZone m' base next cs
IsZone-block m m' base next lo n ptr size cs zone o l h same =
    let (lower, upper, q) =
      Owned-within m (base + 8) (base + page_size) cs ptr size (omega (arith, zone.page))
        zone.chunks o in
    record {
      page = zone.page;
      next_aligned = zone.next_aligned;
      next_small = zone.next_small;
      refs = same base (inl (omega arith)) ∙ zone.refs;
      chunks =
          Chunks-block m m' (base + 8) (base + page_size) lo n ptr size cs
            (omega (arith, zone.page)) l h same o zone.chunks;
    }

-- A block is one of the chunks.
pub Owned-split :
    (at : ℕ) (cs : List Chunk) (ptr size : ℕ)
    → Owned at cs ptr size
    → (front : List Chunk) × (back : List Chunk) × (cs
        ≡ front ++ record { size = size; used = true } ∷ back)
      × (ptr ≡ at + span front + header_size)
Owned-split at [] ptr size o = absurd o
Owned-split at (c ∷ cs) ptr size (inl (p, s, u)) = (
  [],
  cs,
  sym (
      ap (λ n. record { size = n; used = true } ∷ cs) s
      ∙ ap (λ b. record { size = c.size; used = b } ∷ cs) (sym u)),
  omega arith,
)
Owned-split at (c ∷ cs) ptr size (inr o) =
    let (front, back, e, q) = Owned-split (at + header_size + c.size) cs ptr size o in
    (c ∷ front, back, ap (λ l. c ∷ l) e, omega arith)

-- Another block avoids a chunk and the header behind it.
pub Owned-other :
    (at s : ℕ) (u : Bool) (front back : List Chunk) (ptr size : ℕ)
    → Owned at (front ++ record { size = s; used = u } ∷ back) ptr size
    → ptr ≢ at + span front + header_size
    → (ptr + size ≤ at + span front) ⊎ (at + span front + header_size + s + header_size ≤ ptr)
Owned-other at s u [] back ptr size (inl (p, q, e)) ne = absurd (omega arith)
Owned-other at s u [] back ptr size (inr o) ne =
    inr (omega (arith, Owned-lower (at + header_size + s) back ptr size o))
Owned-other at s u (c ∷ front) back ptr size (inl (p, q, e)) ne = inl (omega arith)
Owned-other at s u (c ∷ front) back ptr size (inr o) ne =
    omega (arith, Owned-other (at + header_size + c.size) s u front back ptr size o (omega arith))

pub Owned-counted :
    (at : ℕ) (cs : List Chunk) (ptr size : ℕ) → Owned at cs ptr size → 0 < used_count cs
Owned-counted at [] ptr size o = absurd o
Owned-counted at (c ∷ cs) ptr size (inl (p, s, u)) = rw u (omega arith)
Owned-counted at (c ∷ cs) ptr size (inr o) =
    omega (arith, Owned-counted (at + header_size + c.size) cs ptr size o)
