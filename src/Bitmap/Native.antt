-- ===== src/Bitmap/Native.antt =====
-- crates/arity-bitmap/src/native.rs: `impl_native_bitmap!`, for every width w. A value of the
-- integer type of width w is a number below 2 ^ w, and an index is a number below w.
pub mod Digits
pub mod Select
pub mod Holes
pub mod Bytes
use arity_arrays.Common.{
  ℕ, zero, suc, ◌+◌, ◌-◌, ◌*◌, ◌/◌, ◌%◌, ◌≤◌, bit_and, bit_or, Bool, not, Option, none, some,
  debug_assert, ◌&&◌, List, [], ◌∷◌, ◌==◌, leb, ltb, if◌then◌else◌,
}
use arity_arrays.Bits.Words.{
  complement, shl, shr, wrapping_sub, ilog2, count_ones as word_count_ones, trailing_zeros,
  leading_zeros,
}

module _ (w : ℕ) where
  -- `Raw`
  unfoldable pub raw_is_zero : ℕ → Bool
  raw_is_zero x = x == 0

  unfoldable pub raw_popcount : ℕ → ℕ
  unfolding word_count_ones
  raw_popcount x = word_count_ones w x

  unfoldable pub raw_lowest_pos : ℕ → ℕ
  unfolding trailing_zeros
  raw_lowest_pos x = trailing_zeros w x

  unfoldable pub raw_highest_pos : ℕ → ℕ
  unfolding leading_zeros
  raw_highest_pos x = ilog2 w x

  unfoldable pub raw_clear_lowest : ℕ → ℕ
  raw_clear_lowest x = bit_and x (wrapping_sub w x 1)

  unfoldable pub raw_clear_highest : ℕ → ℕ
  unfolding leading_zeros
  raw_clear_highest x = if x == 0 then 0 else bit_and x (complement w (shl w 1 (ilog2 w x)))

  -- The `loop` of `raw_select`. `none` means that the fuel ran out.
  unfoldable pub select_loop : ℕ → ℕ → ℕ → ℕ → ℕ → Option ℕ
  unfolding word_count_ones
  select_loop zero n x pos size = none
  select_loop (suc fuel) n x pos size =
      let lo_mask = wrapping_sub w (shl w 1 size) 1 in
      let lo_count = word_count_ones w (bit_and x lo_mask) in
      let n' = if leb lo_count n then n - lo_count else n in
      let x' = if leb lo_count n then shr x size else x in
      let pos' = if leb lo_count n then pos + size else pos in
      let rest = select_loop fuel n' x' pos' (size / 2) in if size == 1 then some pos' else rest

  -- The loop halves its size from w / 2 to 1, so w rounds are enough.
  unfoldable pub raw_select : ℕ → ℕ → Option ℕ
  unfolding select_loop raw_popcount
  raw_select x n = if leb (raw_popcount x) n then none else select_loop w n x 0 (w / 2)

  -- The mask of the bits below k, all ones from the width on.
  abbrev pub low_bits : ℕ → ℕ
  low_bits k = if leb w k then complement w 0 else wrapping_sub w (shl w 1 k) 1

  unfoldable pub nearest_hole_below : ℕ → ℕ → Option ℕ
  unfolding leading_zeros
  nearest_hole_below x from =
      let holes = bit_and (complement w x) (low_bits (from + 1)) in
      if holes == 0 then none else some (ilog2 w holes)

  -- `none` outside is the failed `debug_assert!`, here and below.
  unfoldable pub raw_nearest_clear_at_or_below : ℕ → ℕ → Option (Option ℕ)
  unfolding nearest_hole_below
  raw_nearest_clear_at_or_below x from =
      debug_assert (ltb from w) (some (nearest_hole_below x from))

  unfoldable pub nearest_hole_in : ℕ → ℕ → ℕ → Option ℕ
  unfolding trailing_zeros
  nearest_hole_in x from limit =
      let holes =
        bit_and (bit_and (complement w x) (low_bits limit)) (complement w (low_bits from)) in
      if holes == 0 then none else some (trailing_zeros w holes)

  unfoldable pub raw_nearest_clear_in : ℕ → ℕ → ℕ → Option (Option ℕ)
  unfolding nearest_hole_in
  raw_nearest_clear_in x from limit =
      debug_assert (leb from limit && leb limit w) (some (nearest_hole_in x from limit))

  -- `Bitmap`
  unfoldable pub is_zero : ℕ → Bool
  is_zero x = x == 0

  unfoldable pub count_ones : ℕ → ℕ
  unfolding word_count_ones
  count_ones x = word_count_ones w x

  unfoldable pub test : ℕ → ℕ → Bool
  test x i = not (bit_and x (shl w 1 i) == 0)

  unfoldable pub with_bit : ℕ → ℕ → ℕ
  with_bit x i = bit_or x (shl w 1 i)

  unfoldable pub rank : ℕ → ℕ → ℕ
  unfolding word_count_ones
  rank x i = let below = shl w 1 i - 1 in word_count_ones w (bit_and x below)

  unfoldable pub without_bit : ℕ → ℕ → ℕ
  without_bit x i = bit_and x (complement w (shl w 1 i))

-- `to_le_bytes`, with the number of bytes.
unfoldable pub to_le_bytes : ℕ → ℕ → List ℕ
to_le_bytes zero x = []
to_le_bytes (suc n) x = (x % 256) ∷ to_le_bytes n (x / 256)

-- `from_le_bytes`
unfoldable pub from_le_bytes : List ℕ → ℕ
from_le_bytes [] = 0
from_le_bytes (b ∷ bs) = b + 256 * from_le_bytes bs

unfoldable pub to_bytes : ℕ → ℕ → List ℕ
unfolding to_le_bytes
to_bytes w x = to_le_bytes (w / 8) x

unfoldable pub from_bytes : List ℕ → ℕ
unfolding from_le_bytes
from_bytes bs = from_le_bytes bs
