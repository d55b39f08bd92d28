-- ===== src/Zone/FirstFit.antt =====
-- `Zone::scan` of src/vm/vmalloc.rs on a whole zone, and what first fit does to its chunks.
use reedos.Common.{
  ℕ, ◌+◌, ◌%◌, ◌≤◌, ◌<◌, ◌≡◌, ◌≢◌, refl, ◌∙◌, ap, sym, ◌⊎◌, inl, inr, Bool, true, false, not, ◌&&◌,
  List, [], ◌∷◌, arith, Bool-cases, if◌then◌else◌, Option, none, some,
}
use reedos.Machine.{Mem, Cmd, done, read, ◌>>=◌, page_size, usize_top}
use reedos.Machine.Laws.{IsWord, read-done}
use reedos.Header.{header_size}
use reedos.Zone.{Zone, scan, scan_loop, scan_fuel}
use reedos.Zone.Chunks.{
  Chunk, header, used_count, used_count-le, length-le, IsZone, fits, both_free, joined, carve,
  behind, first_fit,
}
use reedos.Zone.Owned.{SameBlocks}
use reedos.Zone.Rounds.{counted, Guarded, Scanned, At}
use reedos.Zone.Scan.{first_fit-Ends}

counted_add : (o : Option ℕ) (next n : ℕ) → counted o (next + n) ≡ next + counted o n
counted_add none next n = refl
counted_add (some _) next n = omega arith

read_then :
    {A : Type 0}
    → (f : ℕ → Cmd A) (p h : ℕ) (m : Mem) → IsWord p
    → m p ≡ h
    → (read p >>= f) m ≡ f h m
read_then f p h m w e = rw (read-done w m, e) refl

some≢none : {a : ℕ} → some a ≢ none
some≢none e = cc

used_count-carve :
    (size : ℕ) (c : Chunk) (cs : List Chunk)
    → fits size c ≡ true
    → used_count (carve size c cs) ≡ used_count (c ∷ cs) + 1
used_count-carve size c cs e = ground arith

used_count-behind :
    (c : Chunk) (fit : Option ℕ × List Chunk) (n : ℕ)
    → used_count fit.1 ≡ counted fit.0 n
    → used_count (behind c fit).1 ≡ counted (behind c fit).0 ((if c.used then 1 else 0) + n)
used_count-behind c (none, cs) n e = omega arith
used_count-behind c (some a, cs) n e = omega arith

pub used_count-first_fit :
    (size at : ℕ) (c : Chunk) (cs : List Chunk)
    → used_count (first_fit size at c cs).1
      ≡ counted (first_fit size at c cs).0 (used_count (c ∷ cs))
unfolding first_fit
used_count-first_fit size at c [] = elim (Bool-cases (fits size c)) [
  | inl e ↦ rw e (used_count-carve size c [] e)
  | inr e ↦ rw e refl
]
used_count-first_fit size at c (d ∷ ds) =
    let join = used_count-first_fit size at (joined c d) ds in
    let skip = used_count-first_fit size (at + header_size + c.size) d ds in
    elim (Bool-cases (fits size c)) [
      | inl e ↦ rw e (used_count-carve size c (d ∷ ds) e)
      | inr e ↦ elim (Bool-cases (both_free c d)) [
        | inl f ↦
            rw (e, f) (join ∙ ap (counted (first_fit size at (joined c d) ds).0) (ground arith))
        | inr f ↦
            rw (e, f)
              (used_count-behind c (first_fit size (at + header_size + c.size) d ds)
                (used_count (d ∷ ds)) skip)
      ]
    ]

-- No chunk fits, and no free chunk stands behind a free one; `free` says whether one stands before.
abbrev pub Settled : ℕ → Bool → List Chunk → Type 0
Settled size free [] = Unit
Settled size free (c ∷ cs) =
    (fits size c ≡ false) × ((free && not c.used) ≡ false) × Settled size (not c.used) cs

Settled-behind :
    (size : ℕ) (free : Bool) (c : Chunk) (fit : Option ℕ × List Chunk)
    → fits size c ≡ false
    → (free && not c.used) ≡ false
    → ((behind c fit).0 ≡ none → Settled size (not c.used) fit.1)
    → (behind c fit).0 ≡ none
    → Settled size free (behind c fit).1
Settled-behind size free c (o, cs) e g s n = (e, g, s n)

-- If first fit finds no chunk, then in the list that it leaves no chunk fits, and no free chunk
-- stands behind a free one; `free` says whether a free chunk stands before the list, and then its
-- first chunk is in use.
pub first_fit-none :
    (size at : ℕ) (free : Bool) (c : Chunk) (cs : List Chunk)
    → (free && not c.used) ≡ false
    → (first_fit size at c cs).0 ≡ none
    → Settled size free (first_fit size at c cs).1
unfolding first_fit
first_fit-none size at free c [] g n = elim (Bool-cases (fits size c)) [
  | inl e ↦ absurd (some≢none (rw e at n))
  | inr e ↦ rw e (e, g, tt)
]
first_fit-none size at free c (d ∷ ds) g n = elim (Bool-cases (fits size c)) [
  | inl e ↦ absurd (some≢none (rw e at n))
  | inr e ↦
      let n' = rw e at n in
      elim (Bool-cases (both_free c d)) [
        | inl f ↦
            rw (e, f) (first_fit-none size at free (joined c d) ds (ground arith) (rw f at n'))
        | inr f ↦
            rw (e, f)
              (Settled-behind size free c (first_fit size (at + header_size + c.size) d ds) e g
                (first_fit-none size (at + header_size + c.size) (not c.used) d ds f) (rw f at n'))
      ]
]

module _ (m : Mem) (base next : ℕ) (c : Chunk) (cs : List Chunk) (size : ℕ)
    (zone : IsZone m base next (c ∷ cs)) (sal : size % 8 ≡ 0) (pos : 0 < size)
    (guard : Guarded m (base + page_size) (first_fit size (base + 8) c cs).0) where
  abbrev fit : Option ℕ × List Chunk
  fit = first_fit size (base + 8) c cs

  abbrev z : Zone
  z = record { base = base; next = m base }

  few : m base % page_size < 510
  few = omega (
    arith,
    used_count-le m (base + 8) (base + page_size) (c ∷ cs) zone.chunks,
    zone.next_aligned,
    zone.refs,
  )

  small : m base < usize_top
  small = omega (
    arith,
    used_count-le m (base + 8) (base + page_size) (c ∷ cs) zone.chunks,
    zone.next_small,
    zone.refs,
  )

  Scans : Mem → Type 0
  Scans m' =
      (scan z size m ≡ done (fit.0, record { base = base; next = m' base }) m')
      × IsZone m' base next fit.1
      × ((q : ℕ) → (q < base) ⊎ (base + page_size ≤ q) → m' q ≡ m q)
      × SameBlocks m m' (base + 8) (c ∷ cs)

  scanned :
      (z' : Zone) (m' : Mem)
      → scan z size m ≡ done (fit.0, z') m'
      → Scanned m m' z z' (base + 8) (base + page_size) (c ∷ cs) fit
      → Scans m'
  unfolding Scans
  scanned z' m' ran s = (
    ran
        ∙ ap (λ x. done (fit.0, x) m')
            (s.zone ∙ ap (λ n. record { base = base; next = n }) (sym s.refs)),
    record {
      page = zone.page;
      next_aligned = zone.next_aligned;
      next_small = zone.next_small;
      refs =
          s.refs
          ∙ ap (counted fit.0) zone.refs
          ∙ counted_add fit.0 next (used_count (c ∷ cs))
          ∙ ap (λ n. next + n) (sym (used_count-first_fit size (base + 8) c cs));
      chunks = s.chunks;
    },
    (λ q x. s.same q (omega (arith, zone.page)) (omega arith)),
    s.blocks,
  )

  -- `scan` is first fit, and it keeps the data of the blocks in use.
  pub scan-SameBlocks :
      (m' : Mem) × (scan z size m ≡ done (fit.0, record { base = base; next = m' base }) m')
      × IsZone m' base next fit.1
      × ((q : ℕ) → (q < base) ⊎ (base + page_size ≤ q) → m' q ≡ m q)
      × SameBlocks m m' (base + 8) (c ∷ cs)
  unfolding scan Scans
  scan-SameBlocks =
      let (here, sized, rest) = zone.chunks in
      let len = length-le m (base + 8) (base + page_size) (c ∷ cs) zone.chunks in
      let w : IsWord (base + 8) = omega (arith, zone.page) in
      let at : At size z zone.page sal pos few small m (base + 8) c cs = record {
        refs = refl;
        aligned = omega (arith, zone.page);
        low = omega arith;
        here = here;
        sized = sized;
        rest_chunks = rest;
      } in
      let start =
        read_then (λ head. scan_loop scan_fuel size (base + page_size) (base + 8) head z) (base + 8)
          (header c) m w here in
      let (z', m', ran, s) =
        first_fit-Ends size z zone.page sal pos few small scan_fuel m (base + 8) c cs at
          (omega arith) guard in
      let (run, zone', same, blocks) = scanned z' m' (start ∙ ran) s in
      (m', run, zone', same, blocks)

  -- On a page of RAM that is a zone of the chunks `c ∷ cs`, and a size that is a positive
  -- multiple of 8, `scan` has the result of first fit, and the page is a zone of the chunks that
  -- first fit leaves, with the same next zone and the count of its chunks in use; other memory
  -- stays as it was. Where first fit finds no chunk, the word behind the page must be a word of
  -- RAM with the used bit set.
  pub scan-first_fit :
      (m' : Mem) × (scan z size m ≡ done (fit.0, record { base = base; next = m' base }) m')
      × IsZone m' base next fit.1
      × ((q : ℕ) → (q < base) ⊎ (base + page_size ≤ q) → m' q ≡ m q)
  scan-first_fit = let (m', ran, zone', same, blocks) = scan-SameBlocks in (m', ran, zone', same)
