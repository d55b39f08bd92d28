-- ===== src/Ptable/Ranges.antt =====
-- The ranges that `kpage_init` of src/vm/ptable.rs maps, and an empty page table.
use reedos.Common.{
  ℕ, ◌+◌, ◌*◌, ◌/◌, ◌%◌, ◌≤◌, ◌<◌, ◌≡◌, refl, sym, subst, false, none, some, List, [], ◌∷◌, arith,
  ◌⊎◌, if◌then◌else◌, ◌==◌, Result, ok, err,
}
use reedos.Machine.{Mem, page_size}
use reedos.Palloc.{Pool, VmError}
use reedos.Palloc.Steps.{IsPage}
use reedos.Palloc.FreeList.{IsPool, Apart}
use reedos.Ptable.{PageTable, va_top, Mapping}
use reedos.Ptable.Entries.{valid_lem}
use reedos.Ptable.Map.{entry}
use reedos.Ptable.Tree.{is_valid, lookup, Within}
use reedos.Ptable.Grow.{slot-Within}
use reedos.Ptable.Walk.{slot}
use reedos.Ptable.MapPage.{IsSpace}

-- A range from a page on that is not empty, below the first address out of reach.
pub record IsRange (mapping : Mapping) : Type 0 where
  pub aligned : mapping.base % page_size ≡ 0
  pub whole : mapping.stop % page_size ≡ 0
  pub size : mapping.base < mapping.stop
  pub top : mapping.stop + page_size ≤ va_top
  pub flags : mapping.flag < 1024

abbrev pub Ranges : List Mapping → Type 0
Ranges [] = Unit
Ranges (mapping ∷ mappings) = IsRange mapping × Ranges mappings

-- The pages of the range and those of the ranges in the list have none in common.
abbrev pub Clear : Mapping → List Mapping → Type 0
Clear mapping [] = Unit
Clear mapping (other ∷ mappings) =
    ((mapping.stop ≤ other.base) ⊎ (other.stop ≤ mapping.base)) × Clear mapping mappings

abbrev pub AllClear : List Mapping → Type 0
AllClear [] = Unit
AllClear (mapping ∷ mappings) = Clear mapping mappings × AllClear mappings

-- No address of the pages of the ranges is mapped.
abbrev pub Unmapped : Mem → PageTable → List Mapping → Type 0
Unmapped m pt [] = Unit
Unmapped m pt (mapping ∷ mappings) =
    ((va : ℕ) → va < va_top → mapping.base ≤ va → va < mapping.stop → lookup m pt va ≡ none)
    × Unmapped m pt mappings

-- Every address of each range has an entry for itself, with the flags of the range.
abbrev pub Identity : Mem → PageTable → List Mapping → Type 0
Identity m pt [] = Unit
Identity m pt (mapping ∷ mappings) =
    ((va : ℕ)
      → mapping.base ≤ va
      → va < mapping.stop
      → lookup m pt va ≡ some (entry (va / page_size * page_size) mapping.flag))
    × Identity m pt mappings

-- Nothing that was mapped has changed.
abbrev pub KeepsMap : Mem → Mem → PageTable → Type 0
KeepsMap m m' pt = (va e : ℕ) → va < va_top → lookup m pt va ≡ some e → lookup m' pt va ≡ some e

-- An address of none of the ranges.
abbrev pub Uncovered : ℕ → List Mapping → Type 0
Uncovered va [] = Unit
Uncovered va (mapping ∷ mappings) =
    ((va < mapping.base) ⊎ (mapping.stop ≤ va)) × Uncovered va mappings

-- Where no range is, nothing has changed.
abbrev pub SameBeside : Mem → Mem → PageTable → List Mapping → Type 0
SameBeside m m' pt mappings =
    (va : ℕ) → va < va_top → Uncovered va mappings → lookup m' pt va ≡ lookup m pt va

abbrev pub MappedAll :
    Mem → PageTable → List Mapping → Result VmError (Unit {0}) × Pool → Mem → Type 0
MappedAll m pt mappings (ok _, pool') m' =
    IsSpace pt pool' m' × Identity m' pt mappings × KeepsMap m m' pt × SameBeside m m' pt mappings
MappedAll m pt mappings (err _, pool') m' = IsSpace pt pool' m' × (pool'.free ≡ none)

-- A page of zeros is a tree that maps nothing.
module _ {m : Mem} {pool : Pool} {free : List ℕ} (a : ℕ) (p : IsPool m pool free) (page : IsPage a)
    (apart : Apart a (a + page_size) free)
    (zeros : (q : ℕ) → a ≤ q → q < a + page_size → q % 8 ≡ 0 → m q ≡ 0) where
  abbrev only : ℕ → ℕ
  only x = if x == a then 3 else 0

  only-root : (x : ℕ) → 0 < only x → x ≡ a
  only-root x r = ground arith

  no-entry : (t q : ℕ) → 1 < only t → Within t q → is_valid m q ≡ false
  no-entry t q r w =
      let e = only-root t (omega arith) in
      rw (zeros q (omega (arith, e, w.low)) (omega (arith, e, w.high)) w.aligned) (valid_lem 0)

  pub root-none : (va : ℕ) → lookup m a va ≡ none
  unfolding lookup
  root-none va = rw (no-entry a (slot a va 2) (ground arith) (slot-Within a va 2 page)) refl

  pub Unmapped-root : (mappings : List Mapping) → Unmapped m a mappings
  Unmapped-root [] = tt
  Unmapped-root (mapping ∷ mappings) = (λ va low l h. root-none va, Unmapped-root mappings)

  pub IsSpace-root : IsSpace a pool m
  IsSpace-root = record {
    free = free;
    rank = only;
    is_pool = p;
    tree = record {
      root = ground arith;
      page = λ t r. subst IsPage (sym (only-root t r)) page;
      apart = λ t r. subst (λ x. Apart x (x + page_size) free) (sym (only-root t r)) apart;
      below = λ t q r w v. absurd (cc (no-entry t q r w, v));
      single = λ t t' q q' r r' w w' v v' e. absurd (cc (no-entry t q r w, v));
    };
  }
