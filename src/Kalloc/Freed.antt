-- ===== src/Kalloc/Freed.antt =====
-- `Kalloc::free` of src/vm/vmalloc.rs on the chunks of a zone.
use reedos.Common.{
  ℕ, ◌+◌, ◌-◌, ◌≤◌, ◌<◌, ◌≡◌, ◌≢◌, refl, ◌∙◌, sym, subst, Bool, true, false, ◌&&◌, List, [], ◌∷◌,
  ◌++◌, arith, ltb, ltb-false, if◌then◌else◌,
}
use reedos.Machine.{Mem, done, update, page_size}
use reedos.Machine.Laws.{IsWord, update_self, update_ne}
use reedos.Palloc.{Pool}
use reedos.Palloc.Steps.{SameOutside}
use reedos.Header.{header_size, is_free}
use reedos.Header.Fields.{word, is_free-word}
use reedos.Zone.Chunks.{
  Chunk, Chunks, Chunks-frame, Chunks-le, IsZone, used_count, used_count-le, joined,
}
use reedos.Zone.Rounds.{and_false}
use reedos.Zone.Span.{span, Chunks-split, Chunks-append, span-mod, used_count-append}
use reedos.Kalloc.{Kalloc, free}
use reedos.Kalloc.Free.{Owner, alone, merged}

abbrev chunk : ℕ → Bool → Chunk
chunk size used = record { size = size; used = used }

-- A chunk of `s` bytes in use is freed: it is merged with a free chunk behind it.
abbrev pub freed : ℕ → List Chunk → List Chunk
freed s [] = chunk s false ∷ []
freed s (d ∷ ds) = if d.used then chunk s false ∷ d ∷ ds else joined (chunk s false) d ∷ ds

module _ (kalloc : Kalloc) (pool : Pool) (m : Mem) (base next s : ℕ) (front back : List Chunk)
    (zone : IsZone m base next (front ++ chunk s true ∷ back))
    (more : 1 < used_count (front ++ chunk s true ∷ back))
    (word_behind : IsWord (base + page_size)) where
  abbrev at : ℕ
  at = base + 8 + span front

  abbrev old : List Chunk
  old = chunk s true ∷ back

  owner : Owner m base next (used_count (front ++ old)) at s
  owner =
      let (l, (here, (al, pos), r)) =
        Chunks-split m (base + 8) (base + page_size) front old zone.chunks in
      record {
        page = zone.page;
        next_aligned = zone.next_aligned;
        next_small = zone.next_small;
        refs = zone.refs;
        few =
            omega (arith, used_count-le m (base + 8) (base + page_size) (front ++ old) zone.chunks);
        here = here;
        aligned = omega (arith, zone.page, span-mod m (base + 8) at front l);
        low = omega arith;
        size_aligned = al;
        pos = pos refl;
        high = Chunks-le m (at + header_size + s) (base + page_size) back r;
      }

  IsZone-after :
      (m' : Mem) (new : List Chunk)
      → m' base ≡ m base - 1
      → Chunks m' at (base + page_size) new
      → used_count new + 1 ≡ used_count old
      → ((q : ℕ) → base + 8 ≤ q → q < at → m' q ≡ m q)
      → IsZone m' base next (front ++ new)
  IsZone-after m' new refs chunks count same =
      let (l, r) = Chunks-split m (base + 8) (base + page_size) front old zone.chunks in
      record {
        page = zone.page;
        next_aligned = zone.next_aligned;
        next_small = zone.next_small;
        refs = omega (arith, zone.refs, used_count-append front old, used_count-append front new);
        chunks =
            Chunks-append m' (base + 8) at (base + page_size) front new
              (Chunks-frame m m' (base + 8) at front same l) chunks;
      }

  abbrev m₁ : Mem
  m₁ = update m base (m base - 1)

  Frees : Mem → List Chunk → Type 0
  Frees m' new =
      (free kalloc pool (at + header_size) m ≡ done pool m')
      × IsZone m' base next (front ++ new)
      × SameOutside m m' base (base + page_size)
      × ((q : ℕ) → q ≢ base → q ≢ at → q ≢ at + header_size + s → m' q ≡ m q)

  -- The chunk stays by itself.
  Frees-alone :
      (is_free (m (at + header_size + s)) && ltb (at + header_size + s) (base + page_size)) ≡ false
      → IsWord (at + header_size + s)
      → Frees (update m₁ at (word s false)) (chunk s false ∷ back)
  unfolding Frees
  Frees-alone e w =
      let (l, (here, (al, pos), r)) =
        Chunks-split m (base + 8) (base + page_size) front old zone.chunks in
      let le = Chunks-le m (at + header_size + s) (base + page_size) back r in
      let v = word s false in
      let kept : (q : ℕ) → q ≢ base → q ≢ at → update m₁ at v q ≡ m q =
        λ q x y. update_ne m₁ at q v y ∙ update_ne m base q (m base - 1) x in
      (
        alone kalloc pool m base next (used_count (front ++ old)) at s owner more w e,
        IsZone-after (update m₁ at v) (chunk s false ∷ back)
            (update_ne m₁ at base v (omega arith) ∙ update_self m base (m base - 1))
            (
              update_self m₁ at v,
              (al, λ u. cc),
              Chunks-frame m (update m₁ at v) (at + header_size + s) (base + page_size) back
                  (λ q x y. kept q (omega arith) (omega arith)) r,
            )
            (omega arith) (λ q x y. kept q (omega arith) (omega arith)),
        (λ q x. kept q (omega arith) (omega arith)),
        λ q x y y'. kept q x y,
      )

  -- The chunk behind, of `t` bytes, is merged.
  Frees-merged :
      (t : ℕ) (ds : List Chunk)
      → back ≡ chunk t false ∷ ds
      → Frees
          (update (update m₁ (at + header_size + s) 0) at (word (s + header_size + t) false))
          (chunk (s + header_size + t) false ∷ ds)
  unfolding Frees
  Frees-merged t ds b =
      let (l, (here, (al, pos), r)) =
        Chunks-split m (base + 8) (base + page_size) front old zone.chunks in
      let behind = at + header_size + s in
      let (here', (al', pos'), r') = subst (Chunks m behind (base + page_size)) b r in
      let le = Chunks-le m (behind + header_size + t) (base + page_size) ds r' in
      let v = word (s + header_size + t) false in
      let m₂ = update m₁ behind 0 in
      let kept : (q : ℕ) → q ≢ base → q ≢ behind → q ≢ at → update m₂ at v q ≡ m q = λ q x y x'.
        update_ne m₂ at q v x' ∙ update_ne m₁ behind q 0 y ∙ update_ne m base q (m base - 1) x in
      let place : at + header_size + (s + header_size + t) ≡ behind + header_size + t =
        omega arith in
      (
        merged kalloc pool m base next (used_count (front ++ old)) at s owner more t here' le,
        IsZone-after (update m₂ at v) (chunk (s + header_size + t) false ∷ ds)
            (update_ne m₂ at base v (omega arith)
              ∙ update_ne m₁ behind base 0 (omega arith)
              ∙ update_self m base (m base - 1))
            (
              update_self m₂ at v,
              (omega arith, λ u. cc),
              subst (λ q. Chunks (update m₂ at v) q (base + page_size) ds) (sym place)
                  (Chunks-frame m (update m₂ at v) (behind + header_size + t) (base + page_size) ds
                    (λ q x y. kept q (omega arith) (omega arith) (omega arith)) r'),
            )
            (rw b (omega arith)) (λ q x y. kept q (omega arith) (omega arith) (omega arith)),
        (λ q x. kept q (omega arith) (omega arith) (omega arith)),
        λ q x y y'. kept q x y' y,
      )

abbrev pub Freed : Kalloc → Pool → Mem → (base next s : ℕ) → (front back : List Chunk) → Type 0
Freed kalloc pool m base next s front back =
    (m' : Mem) × (free kalloc pool (base + 8 + span front + header_size) m ≡ done pool m')
    × IsZone m' base next (front ++ freed s back)
    × SameOutside m m' base (base + page_size)
    × ((q : ℕ)
        → q ≢ base
        → q ≢ base + 8 + span front
        → q ≢ base + 8 + span front + header_size + s
        → m' q ≡ m q)

Freed-next :
    (kalloc : Kalloc) (pool : Pool) (m : Mem) (base next s : ℕ) (front : List Chunk) (t : ℕ)
    (used : Bool) (ds : List Chunk)
    → IsZone m base next (front ++ chunk s true ∷ chunk t used ∷ ds)
    → 1 < used_count (front ++ chunk s true ∷ chunk t used ∷ ds)
    → IsWord (base + page_size)
    → Freed kalloc pool m base next s front (chunk t used ∷ ds)
unfolding Frees
Freed-next kalloc pool m base next s front t true ds zone more w =
    let (l, (here, (al, pos), (here', (al', pos'), r))) =
      Chunks-split m (base + 8) (base + page_size) front (chunk s true ∷ chunk t true ∷ ds)
        zone.chunks in
    let behind = base + 8 + span front + header_size + s in
    let le = Chunks-le m (behind + header_size + t) (base + page_size) ds r in
    let f : is_free (m behind) ≡ false = rw here' (is_free-word t (omega arith) true) in
    let (ran, zone', same, kept) =
      Frees-alone kalloc pool m base next s front (chunk t true ∷ ds) zone more w (rw f refl)
        (omega (arith, zone.page, span-mod m (base + 8) (base + 8 + span front) front l)) in
    (_, ran, zone', same, kept)
Freed-next kalloc pool m base next s front t false ds zone more w =
    let (ran, zone', same, kept) =
      Frees-merged kalloc pool m base next s front (chunk t false ∷ ds) zone more w t ds refl in
    (_, ran, zone', same, kept)

-- `free` takes the chunk out of use, and writes to no word but the count and two headers.
pub free-Freed :
    (kalloc : Kalloc) (pool : Pool) (m : Mem) (base next s : ℕ) (front back : List Chunk)
    → IsZone m base next (front ++ chunk s true ∷ back)
    → 1 < used_count (front ++ chunk s true ∷ back)
    → IsWord (base + page_size)
    → Freed kalloc pool m base next s front back
unfolding Frees
free-Freed kalloc pool m base next s front [] zone more w =
    let (l, (here, (al, pos), r)) =
      Chunks-split m (base + 8) (base + page_size) front (chunk s true ∷ []) zone.chunks in
    let (ran, zone', same, kept) =
      Frees-alone kalloc pool m base next s front [] zone more w
        (rw (r, ltb-false (base + page_size) (base + page_size) (omega arith)) (and_false _))
        (subst IsWord (sym r) w) in
    (_, ran, zone', same, kept)
free-Freed kalloc pool m base next s front (d ∷ ds) zone more w =
    Freed-next kalloc pool m base next s front d.size d.used ds zone more w

-- Where a zone has the chunks `front`, one in use of `s` bytes, and `back`, and 1 < the number of
-- its chunks in use, `free` of the data of that chunk succeeds: the page is the zone of the same
-- chunks, but that one is free, merged with the first of `back` if that is free; the count of the
-- chunks in use is right again, and neither the pool nor memory outside the page changes. The
-- word behind the page must be in RAM.
pub free-freed :
    (kalloc : Kalloc) (pool : Pool) (m : Mem) (base next s : ℕ) (front back : List Chunk)
    → IsZone m base next (front ++ chunk s true ∷ back)
    → 1 < used_count (front ++ chunk s true ∷ back)
    → IsWord (base + page_size)
    → (m' : Mem) × (free kalloc pool (base + 8 + span front + header_size) m ≡ done pool m')
      × IsZone m' base next (front ++ freed s back)
      × SameOutside m m' base (base + page_size)
free-freed kalloc pool m base next s front back zone more w =
    let (m', ran, zone', same, kept) =
      free-Freed kalloc pool m base next s front back zone more w in
    (m', ran, zone', same)
