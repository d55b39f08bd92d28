-- ===== src/Kalloc/New.antt =====
-- `Kalloc::new` of src/vm/vmalloc.rs.
use reedos.Common.{ℕ, ◌+◌, ◌%◌, ◌≡◌, refl, ◌∙◌, false, [], ◌∷◌, arith, ==_true}
use reedos.Common.Bits.{bit_and_low}
use reedos.Machine.{Mem, done, update, page_size}
use reedos.Machine.Laws.{IsWord, write-done, add-done, update_self, update_ne}
use reedos.Palloc.Steps.{IsPage, SameOutside}
use reedos.Header
use reedos.Header.{header_size, max_chunk_size}
use reedos.Zone
use reedos.Zone.{Zone, write_zone_header_pair}
use reedos.Zone.Chunks.{IsZone}
use reedos.Kalloc.{new}

module _ (m : Mem) (start : ℕ) (page : IsPage start) where
  abbrev m₁ : Mem
  m₁ = update m start 0

  abbrev m₂ : Mem
  m₂ = update m₁ (start + 8) max_chunk_size

  -- The header pair of an empty zone.
  pub header_pair-done : write_zone_header_pair (Zone.new start) max_chunk_size m ≡ done tt m₂
  unfolding write_zone_header_pair
  header_pair-done =
      let w : IsWord start = omega arith in
      let w' : IsWord (start + 8) = omega arith in
      rw (write-done w m 0, write-done w' m₁ max_chunk_size) refl

  pub header_pair-IsZone : IsZone m₂ start 0 (record { size = max_chunk_size; used = false } ∷ [])
  header_pair-IsZone = record {
    page = page;
    next_aligned = refl;
    next_small = omega arith;
    refs = update_ne m₁ (start + 8) start max_chunk_size (omega arith) ∙ update_self m start 0;
    chunks = (update_self m₁ (start + 8) max_chunk_size, (refl, λ u. cc), omega arith);
  }

  pub header_pair-same : SameOutside m m₂ start (start + page_size)
  header_pair-same q x =
      update_ne m₁ (start + 8) q max_chunk_size (omega arith) ∙ update_ne m start q 0 (omega arith)

  -- On a page of RAM, `Kalloc::new` builds one zone with one free chunk of 4080 bytes and no next
  -- zone, which is both head and last zone; memory outside the page stays as it was.
  pub new-IsZone :
      (m' : Mem) × (new start m ≡ done (record { head = start; end = start + page_size }) m')
      × IsZone m' start 0 (record { size = max_chunk_size; used = false } ∷ [])
      × SameOutside m m' start (start + page_size)
  unfolding new Header.new
  new-IsZone = (
    m₂,
    rw
        (
          bit_and_low 12 start,
          ==_true (start % page_size) 0 (omega arith),
          header_pair-done,
          add-done start page_size m₂ (omega arith),
        )
        refl,
    header_pair-IsZone,
    header_pair-same,
  )
