-- ===== src/Zone/Span.antt =====
-- Chunks of a zone of src/vm/vmalloc.rs in two parts.
use reedos.Common.{ℕ, ◌+◌, ◌%◌, ◌≡◌, refl, sym, subst, List, [], ◌∷◌, ◌++◌, arith}
use reedos.Machine.{Mem}
use reedos.Header.{header_size}
use reedos.Zone.Chunks.{Chunk, Chunks, used_count}

-- The bytes of chunks and their headers.
abbrev pub span : List Chunk → ℕ
span [] = 0
span (c ∷ cs) = header_size + c.size + span cs

pub Chunks-split :
    (m : Mem) (at end : ℕ) (front back : List Chunk)
    → Chunks m at end (front ++ back)
    → Chunks m at (at + span front) front × Chunks m (at + span front) end back
Chunks-split m at end [] back h = (omega arith, subst (λ q. Chunks m q end back) (omega arith) h)
Chunks-split m at end (c ∷ front) back (e, k, h) =
    let (l, r) = Chunks-split m (at + header_size + c.size) end front back h in
    let q : at + header_size + c.size + span front ≡ at + (header_size + c.size + span front) =
      omega arith in
    (
      (e, k, subst (λ q. Chunks m (at + header_size + c.size) q front) q l),
      subst (λ q. Chunks m q end back) q r,
    )

pub Chunks-append :
    (m : Mem) (at mid end : ℕ) (front back : List Chunk)
    → Chunks m at mid front
    → Chunks m mid end back
    → Chunks m at end (front ++ back)
Chunks-append m at mid end [] back l r = subst (λ q. Chunks m q end back) (sym l) r
Chunks-append m at mid end (c ∷ front) back (e, k, l) r =
    (e, k, Chunks-append m (at + header_size + c.size) mid end front back l r)

pub span-mod : (m : Mem) (at end : ℕ) (cs : List Chunk) → Chunks m at end cs → span cs % 8 ≡ 0
span-mod m at end [] h = refl
span-mod m at end (c ∷ cs) (e, (al, pos), h) =
    omega (arith, span-mod m (at + header_size + c.size) end cs h)

pub used_count-append :
    (front back : List Chunk) → used_count (front ++ back) ≡ used_count front + used_count back
used_count-append [] back = omega arith
used_count-append (c ∷ front) back = omega (arith, used_count-append front back)
