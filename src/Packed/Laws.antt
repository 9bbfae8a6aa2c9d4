-- ===== src/Packed/Laws.antt =====
-- The type invariant of `PackedArray`, the map that an array stands for, and reading.
use arity_arrays.Common.{
  ℕ, ◌<◌, ◌≡◌, refl, true, Option, none, some, if◌then◌else◌, arith, Bool-cases, inl, inr,
}
use arity_arrays.Memory.{read_in}
use arity_arrays.Bitmap.{Bitmap}
use arity_arrays.Bitmap.Laws.{rank-lt-count_ones}
use arity_arrays.Packed.{Inner, PackedArray, get}

-- An allocated block has exactly one initialised slot for each set bit, and at least one.
pub record IsValidInner {T : Type 0} (b : Bitmap) (p : Inner b T) : Type 0 where
  pub sized : p.elements.size ≡ b.count_ones p.bitmap
  pub occupied : 0 < b.count_ones p.bitmap
  pub filled : (r : ℕ) → r < p.elements.size → (v : T) × (p.elements.slot r ≡ some v)

module _ (b : Bitmap) {T : Type 0} where
  open b use {Bits, width, zero_bits, count_ones, test, rank}

  abbrev pub IsValid : PackedArray b T → Type 0
  IsValid none = Unit
  IsValid (some p) = IsValidInner b p

  -- The map from indices that the array stands for: a present index reads the slot of its rank.
  abbrev pub lookup_inner : Inner b T → ℕ → Option T
  lookup_inner p i = if test p.bitmap i then p.elements.slot (rank p.bitmap i) else none

  abbrev pub lookup : PackedArray b T → ℕ → Option T
  lookup none i = none
  lookup (some p) i = lookup_inner p i

  -- The slot of a present index is inside the block, and holds its value.
  pub rank_in :
      (p : Inner b T) (i : ℕ)
      → IsValidInner b p
      → i < width
      → test p.bitmap i ≡ true
      → rank p.bitmap i < p.elements.size
  rank_in p i v h e = omega (arith, v.sized, rank-lt-count_ones b p.bitmap i h e)

  pub value_of :
      (p : Inner b T) (i : ℕ)
      → IsValidInner b p
      → i < width
      → test p.bitmap i ≡ true
      → (x : T) × (lookup_inner p i ≡ some x) × (p.elements.slot (rank p.bitmap i) ≡ some x)
  value_of p i v h e =
      let (x, held) = v.filled (rank p.bitmap i) (rank_in p i v h e) in (x, rw e held, held)

  -- For a valid array and an index below the width, `get` has no undefined behaviour and reads the
  -- map: the value of a present index, and none of an absent one.
  pub get_lem :
      (a : PackedArray b T) (i : ℕ) → IsValid a → i < width → get b a i ≡ some (lookup a i)
  unfolding get
  get_lem none i v h = refl
  get_lem (some p) i v h = elim (Bool-cases (test p.bitmap i)) [
    | inl e ↦
        let (x, reads, held) = value_of p i v h e in
        rw (e, read_in p.elements (rank p.bitmap i) (rank_in p i v h e), held)
    | inr e ↦ rw e
  ]
