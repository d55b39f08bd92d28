-- ===== src/Zone/Chunks.antt =====
-- A zone of src/vm/vmalloc.rs as the list of its chunks, and first fit over that list.
use reedos.Common.{
  ℕ, ◌+◌, ◌-◌, ◌*◌, ◌%◌, ◌≤◌, ◌<◌, ◌≡◌, Bool, true, false, not, ◌&&◌, ◌||◌, List, [], ◌∷◌, Option,
  none, some, arith, ltb, ◌==◌, if◌then◌else◌, length,
}
use reedos.Machine.{Mem, page_size, usize_top}
use reedos.Palloc.Steps.{IsPage}
use reedos.Header.{header_size}
use reedos.Header.Fields.{word}

pub record Chunk : Type 0 where
  pub size : ℕ
  pub used : Bool

abbrev pub header : Chunk → ℕ
header c = word c.size c.used

-- Sizes are multiples of 8, and a chunk in use is not empty.
abbrev pub IsChunk : Chunk → Type 0
IsChunk c = (c.size % 8 ≡ 0) × (c.used ≡ true → 0 < c.size)

-- The chunks `cs` follow one another from `at` to `end`, each behind its header.
abbrev pub Chunks : Mem → ℕ → ℕ → List Chunk → Type 0
Chunks m at end [] = at ≡ end
Chunks m at end (c ∷ cs) =
    (m at ≡ header c) × IsChunk c × Chunks m (at + header_size + c.size) end cs

abbrev pub used_count : List Chunk → ℕ
used_count [] = 0
used_count (c ∷ cs) = (if c.used then 1 else 0) + used_count cs

-- The zone at `base` with the next zone at `next` and the chunks `cs`.
pub record IsZone (m : Mem) (base next : ℕ) (cs : List Chunk) : Type 0 where
  pub page : IsPage base
  pub next_aligned : next % page_size ≡ 0
  pub next_small : next + page_size ≤ usize_top
  pub refs : m base ≡ next + used_count cs
  pub chunks : Chunks m (base + 8) (base + page_size) cs

pub Chunks-le : (m : Mem) (at end : ℕ) (cs : List Chunk) → Chunks m at end cs → at ≤ end
Chunks-le m at end [] h = omega arith
Chunks-le m at end (c ∷ cs) (e, k, h) =
    omega (arith, Chunks-le m (at + header_size + c.size) end cs h)

-- Every chunk in use takes 16 bytes or more.
pub used_count-le :
    (m : Mem) (at end : ℕ) (cs : List Chunk) → Chunks m at end cs → at + 16 * used_count cs ≤ end
used_count-le m at end [] h = omega arith
used_count-le m at end (c ∷ cs) (e, k, h) =
    ground (arith, used_count-le m (at + header_size + c.size) end cs h)

pub length-le :
    (m : Mem) (at end : ℕ) (cs : List Chunk) → Chunks m at end cs → at + 8 * length cs ≤ end
length-le m at end [] h = omega arith
length-le m at end (c ∷ cs) (e, k, h) =
    omega (arith, length-le m (at + header_size + c.size) end cs h)

pub Chunks-frame :
    (m m' : Mem) (at end : ℕ) (cs : List Chunk)
    → ((q : ℕ) → at ≤ q → q < end → m' q ≡ m q)
    → Chunks m at end cs
    → Chunks m' at end cs
Chunks-frame m m' at end [] same h = h
Chunks-frame m m' at end (c ∷ cs) same (e, k, h) =
    let le = Chunks-le m (at + header_size + c.size) end cs h in
    (
      ground (arith, same at),
      k,
      Chunks-frame m m' (at + header_size + c.size) end cs (λ q a b. same q (omega arith) b) h,
    )

-- What `scan` looks for, and what it does with it.
abbrev pub fits : ℕ → Chunk → Bool
fits size c = not (ltb c.size size || c.used)

abbrev pub both_free : Chunk → Chunk → Bool
both_free c d = not c.used && not d.used

abbrev pub joined : Chunk → Chunk → Chunk
joined c d = record { size = c.size + header_size + d.size; used = false }

abbrev pub carve : ℕ → Chunk → List Chunk → List Chunk
carve size c cs =
    if c.size == size
    then record { size = size; used = true } ∷ cs
    else record { size = size; used = true }
      ∷ record { size = c.size - size - header_size; used = false }
      ∷ cs

abbrev pub behind : Chunk → Option ℕ × List Chunk → Option ℕ × List Chunk
behind c (found, cs) = (found, c ∷ cs)

-- First fit from the chunk `c` at `at` on: free neighbours are joined on the way. The result is the
-- address of the data, if a chunk was found, and the new list.
unfoldable pub first_fit : (size at : ℕ) → Chunk → List Chunk → Option ℕ × List Chunk
first_fit size at c [] =
    if fits size c then (some (at + header_size), carve size c []) else (none, c ∷ [])
first_fit size at c (d ∷ ds) =
    let join = first_fit size at (joined c d) ds in
    let skip = first_fit size (at + header_size + c.size) d ds in
    if fits size c
    then (some (at + header_size), carve size c (d ∷ ds))
    else if both_free c d
    then join
    else behind c skip
