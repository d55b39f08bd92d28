-- ===== src/Zone/Overrun.antt =====
-- `Zone::scan` of src/vm/vmalloc.rs at the end of a zone, where the page behind it starts with zeros.
use reedos.Common.{
  ℕ, suc, ◌+◌, ◌%◌, ◌≤◌, ◌<◌, ◌≡◌, refl, ◌∙◌, true, false, arith, ltb-true, ltb-false, ==_true,
  some,
}
use reedos.Machine.{Mem, done, update, page_size, usize_top}
use reedos.Machine.Laws.{IsWord, read-done, write-done, add-done, update_self}
use reedos.Palloc.Steps.{IsPage}
use reedos.Header.{header_size}
use reedos.Header.Fields.{word, chunk_size-word, is_free-word, set_used-word}
use reedos.Zone.{Zone, scan_loop, alloc_chunk, expect_refs}
use reedos.Zone.Refs.{increment_refs-done}
use reedos.Zone.Rounds.{merge-done}

module _ (z : Zone) (page : IsPage z.base) (few : z.next % page_size < 510)
    (small : z.next < usize_top) (m : Mem) (at s : ℕ) (al : at % 8 ≡ 0) (low : z.base + 8 ≤ at)
    (last : at + header_size + s ≡ z.base + page_size) (behind : IsWord (z.base + page_size))
    (zero_behind : m (z.base + page_size) ≡ 0) where
  abbrev end : ℕ
  end = z.base + page_size

  abbrev size : ℕ
  size = s + header_size + 0

  -- The merged header is written.
  abbrev m₂ : Mem
  m₂ = update (update m end 0) at (word size false)

  abbrev m₄ : Mem
  m₄ = update (update m₂ z.base (z.next + 1)) at (word size true)

  merges :
      (k : ℕ)
      → scan_loop (suc k) size end at (word s false) z m
        ≡ scan_loop k size end at (word size false) z m₂
  unfolding scan_loop
  merges k =
      let w : IsWord at = omega arith in
      rw
        (
          ltb-true at end (omega arith),
          chunk_size-word s (omega arith) false,
          ltb-true s size (omega arith),
          add-done at header_size m (omega arith),
          add-done (at + header_size) s m (omega arith),
          last,
          read-done behind m,
          zero_behind,
          is_free-word s (omega arith) false,
          is_free-word 0 (omega arith) false,
          merge-done s 0 end m (omega arith) behind,
          write-done w (update m end 0) (word size false),
        )
        refl

  hands_out :
      (k : ℕ)
      → scan_loop (suc k) size end at (word size false) z m₂
        ≡ done (some (at + header_size), record z { next = z.next + 1 }) m₄
  unfolding scan_loop alloc_chunk expect_refs
  hands_out k =
      let w : IsWord at = omega arith in
      let wb : IsWord z.base = omega arith in
      rw
        (
          ltb-true at end (omega arith),
          chunk_size-word size (omega arith) false,
          ltb-false size size (omega arith),
          is_free-word size (omega arith) false,
          increment_refs-done z small wb m₂ few,
          set_used-word size (omega arith),
          write-done w (update m₂ z.base (z.next + 1)) (word size true),
          chunk_size-word size (omega arith) true,
          ==_true size size refl,
          add-done at header_size m₄ (omega arith),
        )
        refl

  -- At the last chunk of a zone, free and of `s` bytes, where the zone has fewer than 510 chunks
  -- in use and the word behind its page is in RAM and 0: in two rounds or more, the loop of
  -- `scan` for `s` + 8 bytes hands the chunk out as one of `s` + 8 bytes, whose data ends 8 bytes
  -- behind the page.
  pub scan_loop-overrun :
      (k : ℕ)
      → (m' : Mem) × (scan_loop (suc (suc k)) size end at (word s false) z m
          ≡ done (some (at + header_size), record z { next = z.next + 1 }) m')
        × (m' at ≡ word size true)
        × (at + header_size + size ≡ end + header_size)
  scan_loop-overrun k = (
    m₄,
    merges (suc k) ∙ hands_out k,
    update_self (update m₂ z.base (z.next + 1)) at (word size true),
    omega arith,
  )
