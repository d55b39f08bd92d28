-- ===== src/Kalloc/Free.antt =====
-- `Kalloc::free` of src/vm/vmalloc.rs on a zone that keeps other chunks in use.

use reedos.Common.{
  ℕ, ◌+◌, ◌-◌, ◌*◌, ◌/◌, ◌%◌, ◌≤◌, ◌<◌, ◌≡◌, refl, ◌∙◌, true, false, ◌&&◌, arith, ltb, ==_gt,
  ltb-true,
}
use reedos.Common.Bits.{bit_and_high}
use reedos.Machine.{Mem, done, pure, panic, update, write, ◌>>=◌, ◌>>◌, page_size, usize_top}
use reedos.Machine.Laws.{IsWord, write-done, read-done, add-done, sub-eq, update_ne}
use reedos.Palloc.{Pool}
use reedos.Palloc.Steps.{IsPage}
use reedos.Header.{header_size, is_free}
use reedos.Header.Fields.{word, chunk_size-word, is_free-word, set_unused-word}
use reedos.Zone.{Zone}
use reedos.Zone.Refs.{decrement_refs-done}
use reedos.Zone.Rounds.{merge-done}
use reedos.Kalloc.{Kalloc, free, release, merge_behind}
use reedos.Kalloc.Alloc.{from-done}

-- The chunk of `s` bytes in use at `at`, in a zone with `u` chunks in use.
pub record Owner (m : Mem) (base next u at s : ℕ) : Type 0 where
  pub page : IsPage base
  pub next_aligned : next % page_size ≡ 0
  pub next_small : next + page_size ≤ usize_top
  pub refs : m base ≡ next + u
  pub few : u < page_size
  pub here : m at ≡ word s true
  pub aligned : at % 8 ≡ 0
  pub low : base + 8 ≤ at
  pub size_aligned : s % 8 ≡ 0
  pub pos : 0 < s
  pub high : at + header_size + s ≤ base + page_size

module _ (kalloc : Kalloc) (pool : Pool) (m : Mem) (base next u at s : ℕ)
    (o : Owner m base next u at s) (more : 1 < u) where
  abbrev m₁ : Mem
  m₁ = update m base (m base - 1)

  abbrev z₁ : Zone
  z₁ = record { base = base; next = m base - 1 }

  -- `free` up to the merge.
  start :
      free kalloc pool (at + header_size) m
      ≡ ((merge_behind (at + header_size) z₁ (word s false) >>= λ head. pure (head, pool))
            >>= λ (head, pool'). write at head >> pure pool')
          m₁
  unfolding free release
  start =
      let w : IsWord base = omega (arith, o.page) in
      let w' : IsWord at = omega (arith, o.page, o.low, o.high, o.aligned) in
      let zone_at : (at + header_size) / page_size * page_size ≡ base =
        omega (arith, o.page, o.low, o.high, o.pos) in
      let z : Zone = record { base = base; next = m base } in
      rw
        (
          bit_and_high 12 52 (at + header_size) (omega (arith, o.page, o.high)),
          zone_at,
          from-done base m w,
          sub-eq (at + header_size) header_size at m (omega arith),
          read-done w' m,
          o.here,
          is_free-word s (omega (arith, o.low, o.high)) true,
          decrement_refs-done z (omega (arith, o.refs, o.next_small, o.few)) w m
              (omega (arith, o.refs, o.next_aligned, o.few)),
          ==_gt (m base % page_size - 1) 0 (omega (arith, o.refs, o.next_aligned, o.few)),
          set_unused-word s (omega (arith, o.low, o.high)),
        )
        refl

  ends :
      (head : ℕ) (m₂ : Mem)
      → merge_behind (at + header_size) z₁ (word s false) m₁ ≡ done head m₂
      → free kalloc pool (at + header_size) m ≡ done pool (update m₂ at head)
  ends head m₂ e =
      let w' : IsWord at = omega (arith, o.page, o.low, o.high, o.aligned) in
      start ∙ rw (e, write-done w' m₂ head) refl

  abbrev behind : ℕ
  behind = at + header_size + s

  -- The word behind the chunk is the header of a chunk in use, or no header of this zone.
  pub alone :
      IsWord behind
      → (is_free (m behind) && ltb behind (base + page_size)) ≡ false
      → free kalloc pool (at + header_size) m ≡ done pool (update m₁ at (word s false))
  unfolding merge_behind
  alone w e =
      let kept : m₁ behind ≡ m behind =
        update_ne m base behind (m base - 1) (omega (arith, o.low)) in
      ends (word s false) m₁ (
        rw
          (
            chunk_size-word s (omega (arith, o.low, o.high)) false,
            add-done (at + header_size) s m₁ (omega (arith, o.page, o.high)),
            read-done w m₁,
            add-done base 0x1000 m₁ (omega (arith, o.page)),
            kept,
            e,
          )
          refl)

  -- A free chunk of `t` bytes behind the chunk is merged.
  pub merged :
      (t : ℕ)
      → m behind ≡ word t false
      → behind + header_size + t ≤ base + page_size
      → free kalloc pool (at + header_size) m
        ≡ done pool (update (update m₁ behind 0) at (word (s + header_size + t) false))
  unfolding merge_behind
  merged t b h =
      let w : IsWord behind = omega (arith, o.page, o.low, o.aligned, o.size_aligned) in
      let kept : m₁ behind ≡ m behind =
        update_ne m base behind (m base - 1) (omega (arith, o.low)) in
      ends (word (s + header_size + t) false) (update m₁ behind 0) (
        rw
          (
            chunk_size-word s (omega (arith, o.low, o.high)) false,
            add-done (at + header_size) s m₁ (omega (arith, o.page, o.high)),
            read-done w m₁,
            add-done base 0x1000 m₁ (omega (arith, o.page)),
            kept,
            b,
            is_free-word t (omega (arith, o.low)) false,
            ltb-true behind (base + page_size) (omega arith),
            merge-done s t behind m₁ (omega (arith, o.low)) w,
          )
          refl)

-- `free` panics at an address behind a header that is not in use, where the header and the first
-- word of its page are in RAM.
pub free-double :
    (kalloc : Kalloc) (pool : Pool) (m : Mem) (ptr : ℕ)
    → IsPage (ptr / page_size * page_size)
    → IsWord (ptr - header_size)
    → header_size ≤ ptr
    → is_free (m (ptr - header_size)) ≡ true
    → free kalloc pool ptr m ≡ panic
unfolding free
free-double kalloc pool m ptr p w h e =
    let base = ptr / page_size * page_size in
    let w' : IsWord base = omega (arith, p) in
    rw
      (
        bit_and_high 12 52 ptr (omega arith),
        from-done base m w',
        sub-eq ptr header_size (ptr - header_size) m (omega arith),
        read-done w m,
        e,
      )
      refl
