-- ===== src/Header/Fields.antt =====
-- The fields of a chunk header (src/vm/vmalloc.rs), as arithmetic: the size, the flag and the
-- reserved bits above do not interfere.
use reedos.Common.{
  ℕ, ◌+◌, ◌*◌, ◌/◌, ◌%◌, ◌<◌, ◌≡◌, ◌∙◌, Bool, true, false, not, arith, ◌==◌, if◌then◌else◌,
}
use reedos.Common.Bits.{
  bit_and_low, bit_and_high, bit_and_bit, bit_or_bit, bit_or_low, bit_and_clear,
}
use reedos.Machine.{usize_top}
use reedos.Header.{chunk_size, is_free, set_used, set_unused, set_size}

pub chunk_size-mod : (f : ℕ) → chunk_size f ≡ f % 4096
unfolding chunk_size
chunk_size-mod f = bit_and_low 12 f

pub is_free-bit : (f : ℕ) → is_free f ≡ (f / 4096 % 2 == 0)
unfolding is_free
is_free-bit f = rw (bit_and_bit 12 f) (ground arith)

pub set_used_lem : (f : ℕ) → set_used f ≡ (f / 4096 / 2 * 2 + 1) * 4096 + f % 4096
unfolding set_used
set_used_lem f = bit_or_bit 12 f

pub set_unused_lem : (f : ℕ) → f < usize_top → set_unused f ≡ f / 4096 / 2 * 2 * 4096 + f % 4096
unfolding set_unused
set_unused_lem f h = bit_and_clear 12 51 f (omega arith)

pub set_size_lem :
    (f size : ℕ) → f < usize_top → size < 4096 → set_size f size ≡ f / 4096 * 4096 + size
unfolding set_size
set_size_lem f size h s = rw (bit_and_high 12 52 f (omega arith)) (bit_or_low 12 (f / 4096) size s)

-- On a header of 64 bits and a size below 4096, `set_size` sets the size and keeps all other
-- bits; `set_used` and `set_unused` set the flag, and keep the size and the bits above the flag.
pub header_fields :
    (f size : ℕ)
    → f < usize_top
    → size < 4096
    → ((chunk_size (set_size f size) ≡ size)
        × (is_free (set_size f size) ≡ is_free f)
        × (set_size f size / 4096 ≡ f / 4096))
      × ((chunk_size (set_used f) ≡ chunk_size f)
          × (is_free (set_used f) ≡ false)
          × (set_used f / 8192 ≡ f / 8192))
      × ((chunk_size (set_unused f) ≡ chunk_size f)
          × (is_free (set_unused f) ≡ true)
          × (set_unused f / 8192 ≡ f / 8192))
header_fields f size h s =
    rw (set_size_lem f size h s, set_used_lem f, set_unused_lem f h)
      (simp (chunk_size-mod, is_free-bit)
        (
          (omega arith, ground arith, omega arith),
          (omega arith, ground arith, omega arith),
          (omega arith, ground arith, omega arith),
        ))

-- The header of a chunk with no reserved bit set.
abbrev pub word : ℕ → Bool → ℕ
word size used = if used then size + 4096 else size

module _ (size : ℕ) (small : size < 4096) where
  pub chunk_size-word : (used : Bool) → chunk_size (word size used) ≡ size
  chunk_size-word true = chunk_size-mod (size + 4096) ∙ omega arith
  chunk_size-word false = chunk_size-mod size ∙ omega arith

  pub is_free-word : (used : Bool) → is_free (word size used) ≡ not used
  is_free-word true = is_free-bit (size + 4096) ∙ ground arith
  is_free-word false = is_free-bit size ∙ ground arith

  pub set_used-word : set_used (word size false) ≡ word size true
  set_used-word = set_used_lem size ∙ omega arith

  pub set_unused-word : set_unused (word size true) ≡ word size false
  set_unused-word = set_unused_lem (size + 4096) (omega arith) ∙ omega arith

  pub set_size-word :
      (used : Bool) (size' : ℕ) → size' < 4096 → set_size (word size used) size' ≡ word size' used
  set_size-word true size' s = set_size_lem (size + 4096) size' (omega arith) s ∙ omega arith
  set_size-word false size' s = set_size_lem size size' (omega arith) s ∙ omega arith
