-- ===== src/Niche/Laws.antt =====
-- The range contract of the index types: every constructor gives a value below `count`, the
-- checked ones exactly where the argument is one, and the slice casts lose nothing.
use native.Mathlib.Nat.{mod-lt}
use arity_arrays.Common.{
  ℕ, ◌%◌, ◌^◌, ◌≤◌, ◌<◌, true, none, some, List, [], ◌∷◌, ltb, ◌≡◌, ◌↔◌, refl, arith, All, ◌⊎◌, inl,
  inr, Bool-cases,
}
use arity_arrays.Bits.Logic.{bit_and_low_mask, two_pow_pos}
use arity_arrays.Niche.{
  try_new, new_unchecked, new_masked, bytes_in_range, try_from_slice, from_slice_unchecked,
  try_from_usize, as_u8_slice,
}

module _ (count : ℕ) where
  pub try_new_cases :
      (v : ℕ) → (v < count) × (try_new count v ≡ some v) ⊎ (count ≤ v) × (try_new count v ≡ none)
  unfolding try_new
  try_new_cases v = elim (Bool-cases (ltb v count)) [
    | inl e ↦ inl (ground arith, rw e)
    | inr e ↦ inr (ground arith, rw e)
  ]

  -- An index converts to a `usize` and back.
  pub try_from_usize_index : (i : ℕ) → count ≤ 256 → i < count → try_from_usize count i ≡ some i
  unfolding try_from_usize try_new
  try_from_usize_index i h p = ground arith

  pub try_from_usize_beyond : (i : ℕ) → count ≤ i → try_from_usize count i ≡ none
  unfolding try_from_usize try_new
  try_from_usize_beyond i h = ground arith

  bytes_in_range_iff : (bs : List ℕ) → (bytes_in_range count bs ≡ true) ↔ All (λ b. b < count) bs
  unfolding bytes_in_range
  bytes_in_range_iff [] = (λ _. tt, λ _. refl)
  bytes_in_range_iff (b ∷ bs) = ground (arith, bytes_in_range_iff bs)

  -- Either each byte is below `count`, and then `try_from_slice` and `from_slice_unchecked` both
  -- give a slice whose bytes, by `as_u8_slice`, are the given ones, or some byte is not, and then
  -- `try_from_slice` is none and `from_slice_unchecked` faults.
  pub try_from_slice_lem :
      (bs : List ℕ)
      → All (λ b. b < count) bs
          × ((xs : List ℕ) × (try_from_slice count bs ≡ some xs)
              × (from_slice_unchecked count bs ≡ some xs)
              × (as_u8_slice xs ≡ bs))
        ⊎ (¬ All (λ b. b < count) bs)
          × (try_from_slice count bs ≡ none)
          × (from_slice_unchecked count bs ≡ none)
  unfolding try_from_slice from_slice_unchecked as_u8_slice
  try_from_slice_lem bs = elim (Bool-cases (bytes_in_range count bs)) [
    | inl e ↦ inl ((bytes_in_range_iff bs).0 e, (bs, rw e, rw e, refl))
    | inr e ↦ inr (λ h. (let t = (bytes_in_range_iff bs).1 h in cc), rw e, rw e)
  ]

-- `new_masked` of an index type with 2 ^ bits values keeps the low bits of any byte, and never
-- reaches the unreachable arm of `new_unchecked`.
pub new_masked_lem : (bits v : ℕ) → new_masked (2 ^ bits) v ≡ some (v % 2 ^ bits)
unfolding new_masked new_unchecked try_new
new_masked_lem bits v = rw (bit_and_low_mask bits v) (ground (arith, mod-lt v (two_pow_pos bits)))
