-- ===== src/Zone/Rounds.antt =====
-- The rounds of the loop of `Zone::scan` of src/vm/vmalloc.rs on the chunks of the zone.
use reedos.Common.{
  ℕ, suc, ◌+◌, ◌%◌, ◌≤◌, ◌<◌, ◌≡◌, ◌≢◌, refl, ◌∙◌, ap, ◌⊎◌, inr, Bool, true, false, not, ◌&&◌, ◌||◌,
  List, [], ◌∷◌, arith, ltb, ltb-true, ltb-false, Option, none, some,
}
use reedos.Machine.{Mem, done, update, page_size, usize_top}
use reedos.Machine.Laws.{IsWord, read-done, write-done, add-done, update_self, update_ne}
use reedos.Palloc.Steps.{IsPage}
use reedos.Header
use reedos.Header.{header_size, chunk_size, is_free, set_size}
use reedos.Header.Fields.{word, chunk_size-word, is_free-word, set_size-word}
use reedos.Zone.{Zone, scan_loop}
use reedos.Zone.Chunks.{
  Chunk, header, IsChunk, Chunks, Chunks-le, Chunks-frame, fits, both_free, joined, carve,
}
use reedos.Zone.Owned.{Owned-lower, Owned-behind, SameBlocks}
use reedos.Zone.Alloc.{alloc_chunk-done}

-- The tests of the loop, on the headers of two chunks.
passes-fits :
    (size : ℕ) (c : Chunk)
    → c.size < 4096
    → (ltb (chunk_size (header c)) size || not (is_free (header c))) ≡ not (fits size c)
passes-fits size c s =
    rw (chunk_size-word c.size s c.used, is_free-word c.size s c.used) (ground arith)

both_free-header :
    (c d : Chunk)
    → c.size < 4096
    → d.size < 4096
    → (is_free (header c) && is_free (header d)) ≡ both_free c d
both_free-header c d s t = rw (is_free-word c.size s c.used, is_free-word d.size t d.used) refl

pub merge-done :
    (a b at : ℕ) (m : Mem)
    → a + header_size + b < 4096
    → IsWord at
    → Header.merge (word a false) (word b false) at m
      ≡ done (word (a + header_size + b) false) (update m at 0)
unfolding Header.merge
merge-done a b at m s w =
    rw
      (
        is_free-word b (omega arith) false,
        is_free-word a (omega arith) false,
        chunk_size-word a (omega arith) false,
        chunk_size-word b (omega arith) false,
        add-done a header_size m (omega arith),
        add-done (a + header_size) b m (omega arith),
        set_size-word a (omega arith) false (a + header_size + b) s,
        write-done w m 0,
      )
      refl

pub and_false : (b : Bool) → (b && false) ≡ false
and_false true = refl
and_false false = refl

-- One more chunk in use if one was found.
abbrev pub counted : Option ℕ → ℕ → ℕ
counted none n = n
counted (some _) n = n + 1

pub record Scanned (m m' : Mem) (z z' : Zone) (at end : ℕ) (before : List Chunk)
    (fit : Option ℕ × List Chunk) : Type 0 where
  pub chunks : Chunks m' at end fit.1
  pub zone : z' ≡ record z { next = counted fit.0 z.next }
  pub refs : m' z.base ≡ counted fit.0 (m z.base)
  pub same : (q : ℕ) → q ≢ z.base → (q < at) ⊎ (end ≤ q) → m' q ≡ m q
  pub blocks : SameBlocks m m' at before

-- Where the scan runs to the end of the zone, it reads the word behind it, and must find it in use.
abbrev pub Guarded : Mem → ℕ → Option ℕ → Type 0
Guarded m end none = IsWord end × (is_free (m end) ≡ false)
Guarded m end (some _) = Unit

pub guarded :
    (m m' : Mem) (end : ℕ) (o : Option ℕ) → m' end ≡ m end → Guarded m end o → Guarded m' end o
guarded m m' end none e (w, g) = (w, ap is_free e ∙ g)
guarded m m' end (some _) e g = tt

abbrev chunk : ℕ → Bool → Chunk
chunk size used = record { size = size; used = used }

module _ (size : ℕ) (z : Zone) (page : IsPage z.base) (sal : size % 8 ≡ 0) (pos : 0 < size)
    (few : z.next % page_size < 510) (small : z.next < usize_top) where
  abbrev end : ℕ
  end = z.base + page_size

  -- The scan stands at the chunk `c`, with the chunks `rest` behind it.
  pub record At (m : Mem) (at : ℕ) (c : Chunk) (rest : List Chunk) : Type 0 where
    pub refs : m z.base ≡ z.next
    pub aligned : at % 8 ≡ 0
    pub low : z.base + 8 ≤ at
    pub here : m at ≡ header c
    pub sized : IsChunk c
    pub rest_chunks : Chunks m (at + header_size + c.size) end rest

  abbrev pub Ends : ℕ → Mem → ℕ → Chunk → List Chunk → Option ℕ × List Chunk → Type 0
  Ends k m at c rest fit =
      (z' : Zone) × (m' : Mem) × (scan_loop k size end at (header c) z m ≡ done (fit.0, z') m')
      × Scanned m m' z z' at end (c ∷ rest) fit

  pub found :
      (k : ℕ) (m : Mem) (at total : ℕ) (used : Bool) (rest : List Chunk)
      → At m at (chunk total used) rest
      → fits size (chunk total used) ≡ true
      → Ends
          (suc k)
          m
          at
          (chunk total used)
          rest
          (some (at + header_size), carve size (chunk total used) rest)
  unfolding scan_loop
  found k m at total true rest a e = absurd (ground arith)
  found k m at total false rest a e =
      let le = Chunks-le m (at + header_size + total) end rest a.rest_chunks in
      let t : total < 4096 = omega (arith, a.low) in
      let f : size ≤ total = ground arith in
      let (m', ran, carved) =
        alloc_chunk-done z size at total rest m page a.aligned a.low le a.sized.0 sal pos f
          a.rest_chunks few small in
      (
        record z { next = z.next + 1 },
        m',
        rw
            (
              ltb-true at end (omega arith),
              passes-fits size (chunk total false) t,
              e,
              ran,
              add-done at header_size m' (omega arith),
            )
            refl,
        record {
          chunks = carved.chunks;
          zone = refl;
          refs = carved.count ∙ omega (arith, a.refs);
          same = λ q b d. carved.same q b (omega arith);
          blocks = λ ptr old q o l h.
              (let lower =
                  Owned-lower (at + header_size + total) rest ptr old
                    (Owned-behind at total rest ptr old o) in
                carved.same q (omega (arith, a.low)) (inr (omega arith)));
        },
      )

  -- At the last chunk, which does not fit, the word behind the zone is read.
  pub exhausted :
      (k : ℕ) (m : Mem) (at : ℕ) (c : Chunk)
      → At m at c []
      → fits size c ≡ false
      → Guarded m end none
      → Ends (suc (suc k)) m at c [] (none, c ∷ [])
  unfolding scan_loop
  exhausted k m at c a e (w, g) =
      let b : at + header_size + c.size ≡ end = a.rest_chunks in
      let t : c.size < 4096 = omega (arith, a.low) in
      (
        z,
        m,
        rw
            (
              ltb-true at end (omega arith),
              passes-fits size c t,
              e,
              add-done at header_size m (omega arith),
              chunk_size-word c.size t c.used,
              add-done (at + header_size) c.size m (omega arith),
              b,
              read-done w m,
              g,
              and_false (is_free (header c)),
              ltb-false end end (omega arith),
            )
            refl,
        record {
          chunks = (a.here, a.sized, b);
          zone = refl;
          refs = refl;
          same = λ q x y. refl;
          blocks = λ ptr old q o l h. refl;
        },
      )

  pub joins :
      (k : ℕ) (m : Mem) (at : ℕ) (s t : ℕ) (u v : Bool) (ds : List Chunk)
      → At m at (chunk s u) (chunk t v ∷ ds)
      → fits size (chunk s u) ≡ false
      → both_free (chunk s u) (chunk t v) ≡ true
      → (m' : Mem) × (scan_loop (suc k) size end at (word s u) z m
          ≡ scan_loop k size end at (header (joined (chunk s u) (chunk t v))) z m')
        × At m' at (joined (chunk s u) (chunk t v)) ds
        × ((q : ℕ) → (q < at) ⊎ (end ≤ q) → m' q ≡ m q)
        × SameBlocks m m' at (chunk s u ∷ chunk t v ∷ ds)
  unfolding scan_loop
  joins k m at s t true v ds a e f = absurd (ground arith)
  joins k m at s t false true ds a e f = absurd (ground arith)
  joins k m at s t false false ds a e f =
      let (here', sized', rest) = a.rest_chunks in
      let at' = at + header_size + s in
      let le = Chunks-le m (at' + header_size + t) end ds rest in
      let w : IsWord at = omega (arith, a.low, a.aligned) in
      let w' : IsWord at' = omega (arith, a.low, a.aligned, a.sized.0) in
      let same_place : at + header_size + (s + header_size + t) ≡ at' + header_size + t =
        omega arith in
      let m₁ = update m at' 0 in
      let m₂ = update m₁ at (word (s + header_size + t) false) in
      let kept : (q : ℕ) → q ≢ at → q ≢ at' → m₂ q ≡ m q =
        λ q x y. update_ne m₁ at q (word (s + header_size + t) false) x ∙ update_ne m at' q 0 y in
      (
        m₂,
        rw
            (
              ltb-true at end (omega arith),
              passes-fits size (chunk s false) (omega (arith, a.low)),
              e,
              add-done at header_size m (omega arith),
              chunk_size-word s (omega (arith, a.low)) false,
              add-done (at + header_size) s m (omega arith),
              read-done w' m,
              here',
              is_free-word s (omega (arith, a.low)) false,
              is_free-word t (omega (arith, a.low)) false,
              merge-done s t at' m (omega (arith, a.low)) w',
              write-done w m₁ (word (s + header_size + t) false),
            )
            refl,
        record {
          refs = kept z.base (omega (arith, a.low)) (omega (arith, a.low)) ∙ a.refs;
          aligned = a.aligned;
          low = a.low;
          here = update_self m₁ at (word (s + header_size + t) false);
          sized = (omega (arith, a.sized.0, sized'.0), λ u. cc);
          rest_chunks = rw (same_place) (
              Chunks-frame m m₂ (at' + header_size + t) end ds
                (λ q x y. kept q (omega (arith, a.low)) (omega (arith, a.low))) rest);
        },
        (λ q x. kept q (omega arith) (omega arith)),
        λ ptr old q o l h.
            (let o' =
                Owned-behind at' t ds ptr old (Owned-behind at s (chunk t false ∷ ds) ptr old o) in
              let lower = Owned-lower (at' + header_size + t) ds ptr old o' in
              kept q (omega arith) (omega arith)),
      )

  pub skips :
      (k : ℕ) (m : Mem) (at : ℕ) (c d : Chunk) (ds : List Chunk)
      → At m at c (d ∷ ds)
      → fits size c ≡ false
      → both_free c d ≡ false
      → (scan_loop (suc k) size end at (header c) z m
          ≡ scan_loop k size end (at + header_size + c.size) (header d) z m)
        × At m (at + header_size + c.size) d ds
  unfolding scan_loop
  skips k m at c d ds a e f =
      let (here', sized', rest) = a.rest_chunks in
      let at' = at + header_size + c.size in
      let le = Chunks-le m (at' + header_size + d.size) end ds rest in
      let w' : IsWord at' = omega (arith, a.low, a.aligned, a.sized.0) in
      (
        rw
            (
              ltb-true at end (omega arith),
              passes-fits size c (omega (arith, a.low)),
              e,
              add-done at header_size m (omega arith),
              chunk_size-word c.size (omega (arith, a.low)) c.used,
              add-done (at + header_size) c.size m (omega arith),
              read-done w' m,
              here',
              both_free-header c d (omega (arith, a.low)) (omega (arith, a.low)),
              f,
            )
            refl,
        record {
          refs = a.refs;
          aligned = omega (arith, a.aligned, a.sized.0);
          low = omega (arith, a.low);
          here = here';
          sized = sized';
          rest_chunks = rest;
        },
      )
