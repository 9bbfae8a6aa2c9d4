-- ===== src/Bitmap/Native/Holes.antt =====
-- The searches for a clear bit: `raw_nearest_clear_at_or_below` and `raw_nearest_clear_in`.
use native.Mathlib.Nat.{mod-lt}
use arity_arrays.Common.{
  ==_iff, ℕ, ◌+◌, ◌-◌, ◌^◌, ◌≤◌, ◌<◌, bit_and, ◌≡◌, ◌≢◌, sym, ◌∙◌, ap, arith, true, false, not,
  ◌&&◌, ltb, leb, ◌==◌, Bool-cases, inl, inr, Option, none, some,
}
use arity_arrays.Bits.{bit}
use arity_arrays.Bits.Logic.{
  two_pow_pos, bit-bit_and, bit-complement, bit-low_mask, bit-zero, bit_and-lt,
}
use arity_arrays.Bits.Words.{complement, shl}
use arity_arrays.Bits.Words.Laws.{shl-one, two_pow_lt, wrapping_sub-one}
use arity_arrays.Bitmap.Native.{
  low_bits, raw_lowest_pos, raw_highest_pos, raw_nearest_clear_at_or_below, raw_nearest_clear_in,
  nearest_hole_below, nearest_hole_in,
}
use arity_arrays.Bitmap.Native.Digits.{IsWord, lowest_lem, highest_lem}

module _ (w : ℕ) where
  complement-lt : (x : ℕ) → complement w x < 2 ^ w
  complement-lt x = omega (arith, two_pow_pos w)

  -- The saturating mask has the digits below k.
  bit-low_bits : (k i : ℕ) → i < w → bit (low_bits w k) i ≡ ltb i k
  bit-low_bits k i h = elim (Bool-cases (leb w k)) [
    | inl beyond ↦ rw (beyond, bit-complement w 0 i (two_pow_pos w) h, bit-zero i) (ground arith)
    | inr within ↦
        let p : k < w = ground arith in
        rw
          (
            within,
            shl-one w k p,
            wrapping_sub-one w (2 ^ k) (two_pow_lt k w p) (omega (arith, two_pow_pos k)),
          )
          (bit-low_mask k i)
  ]

  low_bits-lt : (k : ℕ) → low_bits w k < 2 ^ w
  low_bits-lt k = ground (arith, complement-lt 0, mod-lt (shl w 1 k + 2 ^ w - 1) (two_pow_pos w))

  -- The highest set bit of the holes at or below `from` is the nearest hole.
  highest_hole :
      (x from y : ℕ)
      → y < 2 ^ w
      → y ≢ 0
      → ((i : ℕ) → i < w → bit y i ≡ (not (bit x i) && leb i from))
      → from < w
      → let p = raw_highest_pos w y in
        (p ≤ from) × (bit x p ≡ false) × ((i : ℕ) → p < i → i ≤ from → bit x i ≡ true)
  highest_hole x from y h n d f =
      let (inside, set, above) = highest_lem w y h n in
      let p = raw_highest_pos w y in
      let hole : (not (bit x p) && leb p from) ≡ true = sym (d p inside) ∙ set in
      (ground arith, ground arith, λ i q r. ground (arith, d i, above i))

  -- The lowest set bit of the holes in [from, limit) is the nearest hole.
  lowest_hole :
      (x from limit y : ℕ)
      → y < 2 ^ w
      → y ≢ 0
      → ((i : ℕ) → i < w → bit y i ≡ (not (bit x i) && ltb i limit && not (ltb i from)))
      → limit ≤ w
      → let p = raw_lowest_pos w y in
        (from ≤ p) × (p < limit) × (bit x p ≡ false) × ((i : ℕ) → from ≤ i → i < p → bit x i ≡ true)
  lowest_hole x from limit y h n d f =
      let (inside, set, below) = lowest_lem w y h n in
      let p = raw_lowest_pos w y in
      let hole : (not (bit x p) && ltb p limit && not (ltb p from)) ≡ true =
        sym (d p inside) ∙ set in
      (ground arith, ground arith, ground arith, λ i q r. ground (arith, d i, below i))

  abbrev holes_below : ℕ → ℕ → ℕ
  holes_below x from = bit_and (complement w x) (low_bits w (from + 1))

  bit-holes_below :
      (x from i : ℕ)
      → IsWord w x
      → i < w
      → bit (holes_below x from) i ≡ (not (bit x i) && leb i from)
  bit-holes_below x from i h p =
      rw
        (
          bit-bit_and (complement w x) (low_bits w (from + 1)) i,
          bit-complement w x i h p,
          bit-low_bits (from + 1) i p,
        )
        (ground arith)

  abbrev holes_in : ℕ → ℕ → ℕ → ℕ
  holes_in x from limit =
      bit_and (bit_and (complement w x) (low_bits w limit)) (complement w (low_bits w from))

  bit-holes_in :
      (x from limit i : ℕ)
      → IsWord w x
      → i < w
      → bit (holes_in x from limit) i ≡ (not (bit x i) && ltb i limit && not (ltb i from))
  bit-holes_in x from limit i h p =
      rw
        (
          bit-bit_and (bit_and (complement w x) (low_bits w limit)) (complement w (low_bits w from))
              i,
          bit-bit_and (complement w x) (low_bits w limit) i,
          bit-complement w x i h p,
          bit-complement w (low_bits w from) i (low_bits-lt from) p,
          bit-low_bits limit i p,
          bit-low_bits from i p,
        )
        (ground arith)

  -- The greatest clear bit at or below `from`, or none if all of them are set.
  abbrev pub IsNearestBelow : ℕ → ℕ → Option ℕ → Type 0
  IsNearestBelow x from none = (i : ℕ) → i ≤ from → bit x i ≡ true
  IsNearestBelow x from (some p) =
      (p ≤ from) × (bit x p ≡ false) × ((i : ℕ) → p < i → i ≤ from → bit x i ≡ true)

  nearest_hole_below_lem :
      (x from : ℕ) → IsWord w x → from < w → IsNearestBelow x from (nearest_hole_below w x from)
  unfolding nearest_hole_below raw_highest_pos
  nearest_hole_below_lem x from h f = elim (Bool-cases (holes_below x from == 0)) [
    | inl full ↦ rw full (λ i p. ground (
      arith,
      bit-holes_below x from i h,
      bit-zero i,
      ap (λ (t : ℕ). bit t i) ((==_iff (holes_below x from) 0).0 full),
    ))
    | inr hole ↦ rw hole (
        highest_hole x from (holes_below x from) (bit_and-lt w (complement w x) _ (complement-lt x))
          (ground arith) (λ i. bit-holes_below x from i h) f)
  ]

  -- For a word x and `from` below the width, `raw_nearest_clear_at_or_below` passes its debug
  -- assertion and returns the greatest clear bit of x at or below `from`, or none if all of those
  -- bits are set.
  pub nearest_clear_at_or_below_lem :
      (x from : ℕ)
      → IsWord w x
      → from < w
      → (r : Option ℕ) × (raw_nearest_clear_at_or_below w x from ≡ some r) × IsNearestBelow x from r
  unfolding raw_nearest_clear_at_or_below
  nearest_clear_at_or_below_lem x from h f =
      (nearest_hole_below w x from, ground arith, nearest_hole_below_lem x from h f)

  -- The least clear bit in [from, limit), or none if all of them are set.
  abbrev pub IsNearestIn : ℕ → ℕ → ℕ → Option ℕ → Type 0
  IsNearestIn x from limit none = (i : ℕ) → from ≤ i → i < limit → bit x i ≡ true
  IsNearestIn x from limit (some p) =
      (from ≤ p) × (p < limit) × (bit x p ≡ false) × ((i : ℕ) → from ≤ i → i < p → bit x i ≡ true)

  nearest_hole_in_lem :
      (x from limit : ℕ)
      → IsWord w x
      → limit ≤ w
      → IsNearestIn x from limit (nearest_hole_in w x from limit)
  unfolding nearest_hole_in raw_lowest_pos
  nearest_hole_in_lem x from limit h f = elim (Bool-cases (holes_in x from limit == 0)) [
    | inl full ↦ rw full (λ i p q. ground (
      arith,
      bit-holes_in x from limit i h,
      bit-zero i,
      ap (λ (t : ℕ). bit t i) ((==_iff (holes_in x from limit) 0).0 full),
    ))
    | inr hole ↦ rw hole (
        lowest_hole x from limit (holes_in x from limit)
          (bit_and-lt w _ _ (bit_and-lt w (complement w x) _ (complement-lt x))) (ground arith)
          (λ i. bit-holes_in x from limit i h) f)
  ]

  -- For a word x and `from ≤ limit ≤ w`, `raw_nearest_clear_in` passes its debug assertion and
  -- returns the least clear bit of x in [from, limit), or none if all of those bits are set.
  pub nearest_clear_in_lem :
      (x from limit : ℕ)
      → IsWord w x
      → from ≤ limit
      → limit ≤ w
      → (r : Option ℕ) × (raw_nearest_clear_in w x from limit ≡ some r) × IsNearestIn x from limit r
  unfolding raw_nearest_clear_in
  nearest_clear_in_lem x from limit h e f =
      (nearest_hole_in w x from limit, ground arith, nearest_hole_in_lem x from limit h f)
