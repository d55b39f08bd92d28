-- ===== src/Zone/Alloc.antt =====
-- `alloc_chunk` of src/vm/vmalloc.rs on the chunks of a zone.
use reedos.Common.{
  ℕ, ◌+◌, ◌-◌, ◌%◌, ◌≤◌, ◌<◌, ◌≡◌, ◌≢◌, refl, ◌∙◌, ◌⊎◌, inl, inr, true, false, List, arith, ◌==◌,
  Bool-cases, ==_true, ==_gt,
}
use reedos.Machine.{Mem, done, update, page_size, usize_top}
use reedos.Machine.Laws.{IsWord, write-done, add-done, sub-eq, update_self, update_ne}
use reedos.Palloc.Steps.{IsPage}
use reedos.Header
use reedos.Header.{header_size, chunk_size, is_free, set_used, set_size}
use reedos.Header.Fields.{word, chunk_size-word, set_used-word, set_size-word}
use reedos.Zone.{Zone, alloc_chunk, expect_refs}
use reedos.Zone.Refs.{increment_refs-done}
use reedos.Zone.Chunks.{Chunk, Chunks, Chunks-frame, carve}

-- `Header::split` of a chunk in use that has room for one more header.
split-done :
    (old size at : ℕ) (m : Mem)
    → old < 4096
    → size + header_size ≤ old
    → IsWord at
    → IsWord (at + header_size + size)
    → Header.split (word old true) size at m
      ≡ done
          (word size true, old - size - header_size, at + header_size + size)
          (update
            (update m at (word size true))
            (at + header_size + size)
            (old - size - header_size))
unfolding Header.split
split-done old size at m small fit w w' =
    let m₁ = update m at (word size true) in
    rw
      (
        chunk_size-word old small true,
        sub-eq old size (old - size) m (omega arith),
        set_size-word old small true size (omega arith),
        write-done w m (word size true),
        add-done at header_size m₁ (omega arith),
        add-done (at + header_size) size m₁ (omega arith),
        sub-eq (old - size) header_size (old - size - header_size) m₁ (omega arith),
        write-done w' m₁ (old - size - header_size),
      )
      refl

-- The chunk `c` at `at` became one in use of `size` bytes, and a free one behind it if bytes remain.
pub record Carved (m m' : Mem) (z : Zone) (size at : ℕ) (c : Chunk) (cs : List Chunk) : Type 0 where
  pub chunks : Chunks m' at (z.base + page_size) (carve size c cs)
  pub count : m' z.base ≡ z.next + 1
  pub same : (q : ℕ) → q ≢ z.base → (q < at) ⊎ (at + header_size + c.size ≤ q) → m' q ≡ m q

module _ (z : Zone) (size at total : ℕ) (cs : List Chunk) (m : Mem) where
  abbrev free_chunk : Chunk
  free_chunk = record { size = total; used = false }

  module _ (page : IsPage z.base) (al : at % 8 ≡ 0) (lo : z.base + 8 ≤ at)
      (hi : at + header_size + total ≤ z.base + page_size) (al' : total % 8 ≡ 0)
      (sal : size % 8 ≡ 0) (pos : 0 < size) (fit : size ≤ total)
      (h : Chunks m (at + header_size + total) (z.base + page_size) cs) where
    abbrev m₂ : Mem
    m₂ = update (update m z.base (z.next + 1)) at (word total true)

    kept : (q : ℕ) → q ≢ z.base → q ≢ at → m₂ q ≡ m q
    kept q a b =
        update_ne (update m z.base (z.next + 1)) at q (word total true) b
        ∙ update_ne m z.base q (z.next + 1) a

    kept_base : m₂ z.base ≡ z.next + 1
    kept_base =
        update_ne (update m z.base (z.next + 1)) at z.base (word total true) (omega arith)
        ∙ update_self m z.base (z.next + 1)

    rest_kept : Chunks m₂ (at + header_size + total) (z.base + page_size) cs
    rest_kept =
        Chunks-frame m m₂ (at + header_size + total) (z.base + page_size) cs
          (λ q a b. kept q (omega arith) (omega arith)) h

    Carved-whole : size ≡ total → Carved m m₂ z size at free_chunk cs
    Carved-whole e = record {
      chunks = rw (==_true total size (omega arith)) (
        update_self (update m z.base (z.next + 1)) at (word total true) ∙ omega arith,
        (sal, λ u. pos),
        rw e rest_kept,
      );
      count = kept_base;
      same = λ q a b. kept q a (omega arith);
    }

    abbrev m₃ : Mem
    m₃ = update m₂ at (word size true)

    abbrev m₄ : Mem
    m₄ = update m₃ (at + header_size + size) (total - size - header_size)

    kept₄ : (q : ℕ) → q ≢ at → q ≢ at + header_size + size → m₄ q ≡ m₂ q
    kept₄ q a b =
        update_ne m₃ (at + header_size + size) q (total - size - header_size) b
        ∙ update_ne m₂ at q (word size true) a

    Carved-split : size < total → Carved m m₄ z size at free_chunk cs
    Carved-split lt =
        let e : at + header_size + size + header_size + (total - size - header_size)
            ≡ at + header_size + total =
          omega arith in
        let rest =
          Chunks-frame m₂ m₄ (at + header_size + total) (z.base + page_size) cs
            (λ q a b. kept₄ q (omega arith) (omega arith)) rest_kept in
        record {
          chunks = rw (==_gt total size lt) (
            update_ne m₃ (at + header_size + size) at (total - size - header_size) (omega arith)
                ∙ update_self m₂ at (word size true),
            (sal, λ u. pos),
            (
              update_self m₃ (at + header_size + size) (total - size - header_size),
              (omega arith, λ u. cc),
              rw e rest,
            ),
          );
          count = kept₄ z.base (omega arith) (omega arith) ∙ kept_base;
          same = λ q a b. kept₄ q (omega arith) (omega arith) ∙ kept q a (omega arith);
        }

    pub alloc_chunk-done :
        z.next % page_size < 510
        → z.next < usize_top
        → (m' : Mem) × (alloc_chunk size at z (word total false) m
            ≡ done (record z { next = z.next + 1 }) m')
          × Carved m m' z size at free_chunk cs
    unfolding alloc_chunk expect_refs
    alloc_chunk-done few small =
        let wb : IsWord z.base = omega arith in
        let w : IsWord at = omega arith in
        let t : total < 4096 = omega arith in
        elim (Bool-cases (size == total)) [
          | inl whole ↦ (
            m₂,
            rw
                (
                  increment_refs-done z small wb m few,
                  set_used-word total t,
                  write-done w (update m z.base (z.next + 1)) (word total true),
                  chunk_size-word total t true,
                  whole,
                )
                refl,
            Carved-whole (ground arith),
          )
          | inr part ↦
              let lt : size < total = ground arith in
              (
                m₄,
                rw
                    (
                      increment_refs-done z small wb m few,
                      set_used-word total t,
                      write-done w (update m z.base (z.next + 1)) (word total true),
                      chunk_size-word total t true,
                      part,
                      split-done total size at m₂ t (omega arith) w (omega arith),
                    )
                    refl,
                Carved-split lt,
              )
        ]
