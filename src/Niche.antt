-- ===== src/Niche.antt =====
-- crates/arity-index/src/niche.rs: the index types `U3` to `U7` of `niche_int!`, and `u8`. An index
-- of a type with `count` values is the number that `as_u8` and `as_usize` return.
pub mod Laws
pub mod Range
use arity_arrays.Common.{
  ℕ, ◌-◌, ◌<◌, bit_and, Bool, true, false, Option, none, some, List, [], ◌∷◌, ltb, leb,
  if◌then◌else◌,
}

-- `TryFrom<u8>` and its error.
pub data TryFromResult : Type 0 where
  ok : ℕ → TryFromResult
  try_from_int_error : TryFromResult

module _ (count : ℕ) where
  -- The generated `match` has an arm for each value below `count`.
  unfoldable pub try_new : ℕ → Option ℕ
  try_new v = if ltb v count then some v else none

  -- `none` is undefined behaviour: the unreachable arm.
  unfoldable pub new_unchecked : ℕ → Option ℕ
  unfolding try_new
  new_unchecked v = elim (try_new v) [ some x ↦ some x | none ↦ none ]

  unfoldable pub new_masked : ℕ → Option ℕ
  unfolding new_unchecked
  new_masked v = new_unchecked (bit_and v (count - 1))

  -- `MAX`
  unfoldable pub max_value : Option ℕ
  unfolding new_unchecked
  max_value = new_unchecked (count - 1)

  unfoldable pub bytes_in_range : List ℕ → Bool
  bytes_in_range [] = true
  bytes_in_range (b ∷ bs) = if leb count b then false else bytes_in_range bs

  -- The bytes are reinterpreted in place: the slice is the same numbers.
  unfoldable pub try_from_slice : List ℕ → Option (List ℕ)
  unfolding bytes_in_range
  try_from_slice slice = if bytes_in_range slice then some slice else none

  -- `none` is the failed `debug_assert!`, and undefined behaviour in release builds.
  unfoldable pub from_slice_unchecked : List ℕ → Option (List ℕ)
  unfolding bytes_in_range
  from_slice_unchecked slice = if bytes_in_range slice then some slice else none

  -- `u8::try_from(i)` fails from 256 on.
  unfoldable pub try_from_usize : ℕ → Option ℕ
  unfolding try_new
  try_from_usize i = if leb i 255 then try_new i else none

  unfoldable pub try_from : ℕ → TryFromResult
  unfolding try_new
  try_from v = elim (try_new v) [ some x ↦ ok x | none ↦ try_from_int_error ]

unfoldable pub as_u8_slice : List ℕ → List ℕ
as_u8_slice slice = slice
