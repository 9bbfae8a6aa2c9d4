-- ===== src/Packed/OnlyChild.antt =====
-- `PackedArray::take_only_child`.
use arity_arrays.Common.{
  ℕ, ◌<◌, ◌≡◌, ◌∙◌, ap, false, Option, none, some, ◌==◌, arith, Bool-cases, inl, inr, ◌⊎◌, ◌≢◌,
  ==_iff,
}
use arity_arrays.Niche.Laws.{try_from_usize_index}
use arity_arrays.Bitmap.{Bitmap}
use arity_arrays.Bitmap.Laws.{count_ones-zero_bits}
use arity_arrays.Bitmap.BitIter.{bit_next}
use arity_arrays.Packed.{Inner, PackedArray, bitmap, count, remove, remove_present, take_only_child}
use arity_arrays.Packed.Laws.{IsValidInner, IsValid, lookup, value_of}
use arity_arrays.Packed.Remove.{remove_last-returns}

-- The only element of an array.
pub record Takes {T : Type 0} (b : Bitmap) (before : PackedArray b T)
    (result : Option (Option (ℕ × T) × PackedArray b T)) : Type 0 where
  pub only : ℕ
  pub value : T
  pub inside : only < b.width
  pub held : lookup b before only ≡ some value
  pub returns : result ≡ some (some (only, value), none)

module _ (b : Bitmap) where
  open b use {count_ones, is_zero, is_zero_iff}

  nonzero : (x : b.Bits) → count_ones x ≡ 1 → is_zero x ≡ false
  nonzero x e = elim (Bool-cases (is_zero x)) [
    | inl z ↦ absurd (omega (arith, ap count_ones ((is_zero_iff x).0 z), count_ones-zero_bits b))
    | inr n ↦ n
  ]

module _ (b : Bitmap) {T : Type 0} where
  open b use {
    Bits, width, width_small, zero_bits, count_ones, test, is_zero, is_zero_iff, lowest_lem,
    raw_lowest_pos,
  }

  take_single :
      (p : Inner b T)
      → IsValidInner b p
      → count_ones p.bitmap ≡ 1
      → Takes b (some p) (take_only_child b (some p))
  unfolding take_only_child bitmap bit_next remove
  take_single p valid one =
      let n = nonzero b p.bitmap one in
      let (inside, set, _) = lowest_lem p.bitmap n in
      let i = raw_lowest_pos p.bitmap in
      let (x, reads, held) = value_of b p i valid inside set in
      let gone : remove_present b p i ≡ some (some x, none) =
        remove_last-returns b p i valid inside set one
        ∙ ap (λ (t : Option T). some (t, none)) reads in
      record {
        only = i;
        value = x;
        inside = inside;
        held = reads;
        returns = rw (
          (==_iff (count_ones p.bitmap) 1).1 one,
          n,
          try_from_usize_index width i width_small inside,
          set,
          gone,
        );
      }

  -- For a valid array, `take_only_child` returns without a panic. Either the count is 1, and it
  -- gives the one index with its value and leaves the array empty, or the count is not 1, and it
  -- gives none and leaves the array as it is.
  pub take_only_child_lem :
      (a : PackedArray b T)
      → IsValid b a
      → (count b a ≡ 1) × Takes b a (take_only_child b a)
        ⊎ (count b a ≢ 1) × (take_only_child b a ≡ some (none, a))
  unfolding take_only_child count bitmap
  take_only_child_lem none valid =
      let empty : (count_ones zero_bits == 1) ≡ false =
        let z = count_ones-zero_bits b in ground arith in
      inr (λ e. omega (arith, e, count_ones-zero_bits b), rw empty)
  take_only_child_lem (some p) valid = elim (Bool-cases (count_ones p.bitmap == 1)) [
    | inl e ↦ let one = (==_iff (count_ones p.bitmap) 1).0 e in inl (one, take_single p valid one)
    | inr e ↦ inr (λ one. ground (arith, one), rw e)
  ]
