-- ===== src/Bitmap/Native/Digits.antt =====
-- The single-bit operations and the scans of the native bitmaps, by the digits of the number.
use native.Mathlib.Nat.{mod-lt}
use arity_arrays.Common.{
  ℕ, ◌-◌, ◌^◌, ◌≤◌, ◌<◌, bit_and, ◌≡◌, ◌≢◌, ◌∙◌, arith, true, false, not, ◌&&◌, ◌||◌, ltb, ◌==◌,
  Bool-cases, inl, inr, count_below, count_below_cut, count_below_ext,
}
use arity_arrays.Bits.{bit}
use arity_arrays.Bits.Logic.{
  two_pow_pos, ne_zero_of_bit, eq_zero_of_bits, bit-bit_and, bit-bit_or, bit-two_pow, bit-low_mask,
  bit-complement, bit_and-lt, bit_or-lt,
}
use arity_arrays.Bits.Words.{complement, shl, ilog2}
use arity_arrays.Bits.Words.Laws.{
  shl-one, two_pow_lt, wrapping_sub-one, count_ones_lem as word_count_ones_lem, trailing_zeros_lem,
  trailing_zeros_lowest, leading_zeros_lem, leading_zeros_highest, clear_lowest,
}
use arity_arrays.Bitmap.Native.{
  raw_lowest_pos, raw_highest_pos, raw_clear_lowest, raw_clear_highest, count_ones, test, with_bit,
  rank, without_bit,
}

module _ (w : ℕ) where
  single : (x i j : ℕ) → bit (bit_and x (2 ^ i)) j ≡ (bit x j && (i == j))
  single x i j = rw (bit-bit_and x (2 ^ i) j, bit-two_pow i j)

  -- Met with the single digit i, a number is 0 exactly where its digit i is.
  pub test-bit : (x i : ℕ) → i < w → test w x i ≡ bit x i
  unfolding test
  test-bit x i h = rw (shl-one w i h) (elim (Bool-cases (bit x i)) [
    | inl e ↦
        let n = ne_zero_of_bit (bit_and x (2 ^ i)) i (single x i i ∙ ground arith) in ground arith
    | inr e ↦
        let z = eq_zero_of_bits (bit_and x (2 ^ i)) (λ j. single x i j ∙ ground arith) in rw (z, e)
  ])

  pub bit-with_bit : (x i j : ℕ) → i < w → bit (with_bit w x i) j ≡ (bit x j || (i == j))
  unfolding with_bit
  bit-with_bit x i j h = rw (shl-one w i h, bit-bit_or x (2 ^ i) j, bit-two_pow i j)

  pub bit-without_bit :
      (x i j : ℕ) → i < w → j < w → bit (without_bit w x i) j ≡ (bit x j && not (i == j))
  unfolding without_bit
  bit-without_bit x i j h k = rw (
    shl-one w i h,
    bit-bit_and x (complement w (2 ^ i)) j,
    bit-complement w (2 ^ i) j (two_pow_lt i w h) k,
    bit-two_pow i j,
  )

  pub count_ones_lem : (x : ℕ) → count_ones w x ≡ count_below (bit x) w
  unfolding count_ones
  count_ones_lem x = word_count_ones_lem w x

  -- The population count of a number cut off at i.
  pub count_ones-mask :
      (x i : ℕ) → i ≤ w → count_ones w (bit_and x (2 ^ i - 1)) ≡ count_below (bit x) i
  count_ones-mask x i h =
      count_ones_lem (bit_and x (2 ^ i - 1))
      ∙ count_below_ext _ (λ j. bit x j && ltb j i) w
          (λ j p. rw (bit-bit_and x (2 ^ i - 1) j, bit-low_mask i j))
      ∙ count_below_cut (bit x) i w h

  pub rank_lem : (x i : ℕ) → i < w → rank w x i ≡ count_below (bit x) i
  unfolding rank count_ones
  rank_lem x i h = rw (shl-one w i h) (count_ones-mask x i (omega arith))

  abbrev pub IsWord : ℕ → Type 0
  IsWord x = x < 2 ^ w

  pub lowest_lem :
      (x : ℕ)
      → IsWord x
      → x ≢ 0
      → (raw_lowest_pos w x < w)
        × (bit x (raw_lowest_pos w x) ≡ true)
        × ((i : ℕ) → i < raw_lowest_pos w x → bit x i ≡ false)
  unfolding raw_lowest_pos
  lowest_lem x h n =
      let (inside, set) = trailing_zeros_lem w x h n in (inside, set, trailing_zeros_lowest w x)

  pub highest_lem :
      (x : ℕ)
      → IsWord x
      → x ≢ 0
      → (raw_highest_pos w x < w)
        × (bit x (raw_highest_pos w x) ≡ true)
        × ((i : ℕ) → i < w → raw_highest_pos w x < i → bit x i ≡ false)
  unfolding raw_highest_pos
  highest_lem x h n =
      let (some_zeros, set) = leading_zeros_lem w x h n in
      (omega arith, set, leading_zeros_highest w x)

  pub bit-clear_lowest :
      (x i : ℕ)
      → IsWord x
      → x ≢ 0
      → bit (raw_clear_lowest w x) i ≡ (bit x i && not (i == raw_lowest_pos w x))
  unfolding raw_clear_lowest raw_lowest_pos
  bit-clear_lowest x i h n =
      rw (wrapping_sub-one w x h n, bit-bit_and x (x - 1) i) (clear_lowest w x i h n)

  pub bit-clear_highest :
      (x i : ℕ)
      → IsWord x
      → x ≢ 0
      → i < w
      → bit (raw_clear_highest w x) i ≡ (bit x i && not (i == raw_highest_pos w x))
  unfolding raw_clear_highest raw_highest_pos without_bit
  bit-clear_highest x i h n k =
      let p = (highest_lem x h n).0 in
      let cleared : raw_clear_highest w x ≡ without_bit w x (raw_highest_pos w x) = ground arith in
      rw cleared (bit-without_bit x (raw_highest_pos w x) i p k ∙ ground arith)

  -- Every operation stays within the width.
  pub with_bit-IsWord : (x i : ℕ) → IsWord x → IsWord (with_bit w x i)
  unfolding with_bit
  with_bit-IsWord x i h = bit_or-lt w x _ h (mod-lt _ (two_pow_pos w))

  pub without_bit-IsWord : (x i : ℕ) → IsWord x → IsWord (without_bit w x i)
  unfolding without_bit
  without_bit-IsWord x i h = bit_and-lt w x _ h

  pub raw_clear_lowest-IsWord : (x : ℕ) → IsWord x → IsWord (raw_clear_lowest w x)
  unfolding raw_clear_lowest
  raw_clear_lowest-IsWord x h = bit_and-lt w x _ h

  pub raw_clear_highest-IsWord : (x : ℕ) → IsWord x → IsWord (raw_clear_highest w x)
  unfolding raw_clear_highest
  raw_clear_highest-IsWord x h =
      ground (arith, two_pow_pos w, bit_and-lt w x (complement w (shl w 1 (ilog2 w x))) h)
