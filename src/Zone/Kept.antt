-- ===== src/Zone/Kept.antt =====
-- What a call of `Zone::scan` of src/vm/vmalloc.rs does to the blocks that the zone has handed out, and
-- what its result says of the zone that it leaves.
use reedos.Common.{ℕ, ◌+◌, ◌%◌, ◌≤◌, ◌<◌, ◌≡◌, refl, false, List, [], ◌∷◌, Option, none, some}
use reedos.Machine.{Mem, done, page_size}
use reedos.Machine.Laws.{IsWord}
use reedos.Header.{header_size, is_free}
use reedos.Zone.{Zone, scan}
use reedos.Zone.Chunks.{Chunk, Chunks, IsZone, first_fit}
use reedos.Zone.Owned.{Owned, Aligned, first_fit-keeps, first_fit-gives}
use reedos.Zone.Apart.{Apart, first_fit-Apart}
use reedos.Zone.Rounds.{Guarded}
use reedos.Zone.FirstFit.{Settled, first_fit-none, scan-SameBlocks}

-- A new block of `size` bytes, if there is one, has no byte in common with the block at `ptr`.
abbrev pub Beside : (ptr old size : ℕ) → Option ℕ → Type 0
Beside ptr old size none = Unit
Beside ptr old size (some out) = Apart ptr old out size

-- A new block is in use with the size asked for; without one no chunk fits, and no two free chunks are
-- neighbours.
abbrev pub Outcome : (at size : ℕ) → List Chunk → Option ℕ → Type 0
Outcome at size cs none = Settled size false cs
Outcome at size cs (some out) = Owned at cs out size

Chunks-Aligned : (m : Mem) (at end : ℕ) (cs : List Chunk) → Chunks m at end cs → Aligned cs
Chunks-Aligned m at end [] h = tt
Chunks-Aligned m at end (c ∷ cs) (e, k, h) =
    (k.0, Chunks-Aligned m (at + header_size + c.size) end cs h)

guarded-any :
    (m : Mem) (end : ℕ) (o : Option ℕ) → IsWord end → is_free (m end) ≡ false → Guarded m end o
guarded-any m end none w used = (w, used)
guarded-any m end (some _) w used = tt

Beside-first_fit :
    (size at : ℕ) (c : Chunk) (cs : List Chunk) (ptr old : ℕ) (o : Option ℕ)
    → (first_fit size at c cs).0 ≡ o
    → Owned at (c ∷ cs) ptr old
    → Beside ptr old size o
Beside-first_fit size at c cs ptr old none e owned = tt
Beside-first_fit size at c cs ptr old (some out) e owned =
    first_fit-Apart size at c cs out ptr old e owned

Outcome-first_fit :
    (size at : ℕ) (c : Chunk) (cs : List Chunk) (o : Option ℕ)
    → (first_fit size at c cs).0 ≡ o
    → Outcome at size (first_fit size at c cs).1 o
Outcome-first_fit size at c cs none e = first_fit-none size at false c cs refl e
Outcome-first_fit size at c cs (some out) e = first_fit-gives size at c cs out e

module _ (m : Mem) (base next : ℕ) (c : Chunk) (cs : List Chunk) (size : ℕ)
    (zone : IsZone m base next (c ∷ cs)) (sal : size % 8 ≡ 0) (pos : 0 < size)
    (word_behind : IsWord (base + page_size))
    (used_behind : is_free (m (base + page_size)) ≡ false) where
  abbrev z : Zone
  z = record { base = base; next = m base }

  abbrev fit : Option ℕ × List Chunk
  fit = first_fit size (base + 8) c cs

  guard : Guarded m (base + page_size) fit.0
  guard = guarded-any m (base + page_size) fit.0 word_behind used_behind

  -- On a page of RAM that is a zone, with a word behind it that is in RAM and has the used bit set, and
  -- for a size that is a positive multiple of 8, `scan` ends and leaves a zone in which a block that was
  -- in use is still in use at its place with its size, and every word of it is as it was; if `scan`
  -- returns an address, the block of the size asked for there has no byte in common with it.
  pub scan-keeps :
      (ptr old : ℕ)
      → Owned (base + 8) (c ∷ cs) ptr old
      → (result : Option ℕ) × (z' : Zone) × (m' : Mem) × (cs' : List Chunk) × (scan z size m
          ≡ done (result, z') m')
        × IsZone m' base next cs'
        × Owned (base + 8) cs' ptr old
        × ((q : ℕ) → ptr ≤ q → q < ptr + old → m' q ≡ m q)
        × Beside ptr old size result
  scan-keeps ptr old owned =
      let (m', ran, zone', same, blocks) =
        scan-SameBlocks m base next c cs size zone sal pos guard in
      (
        fit.0,
        record { base = base; next = m' base },
        m',
        fit.1,
        ran,
        zone',
        first_fit-keeps size (base + 8) c cs ptr old sal
            (Chunks-Aligned m (base + 8) (base + page_size) (c ∷ cs) zone.chunks) owned,
        (λ q l h. blocks ptr old q owned l h),
        Beside-first_fit size (base + 8) c cs ptr old fit.0 refl owned,
      )

  -- On a page of RAM that is a zone, with a word behind it that is in RAM and has the used bit set, and
  -- for a size that is a positive multiple of 8, `scan` ends and leaves a zone. If it returns an address,
  -- that is the data of a chunk in use of the size asked for; if it returns none, no chunk of the zone is
  -- free and large enough, and no two free chunks are neighbours.
  pub scan-answers :
      (result : Option ℕ) × (z' : Zone) × (m' : Mem) × (cs' : List Chunk) × (scan z size m
        ≡ done (result, z') m')
      × IsZone m' base next cs'
      × Outcome (base + 8) size cs' result
  scan-answers =
      let (m', ran, zone', same, blocks) =
        scan-SameBlocks m base next c cs size zone sal pos guard in
      (
        fit.0,
        record { base = base; next = m' base },
        m',
        fit.1,
        ran,
        zone',
        Outcome-first_fit size (base + 8) c cs fit.0 refl,
      )
