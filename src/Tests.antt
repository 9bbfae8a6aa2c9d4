-- ===== src/Tests.antt =====
-- Runs of the models, and the theorems at concrete inputs.
mod Gaps
mod Tries
mod Walks
mod Hashes
use arity_arrays.Common.{
  true, false, ◌∙◌, sym, ℕ, zero, suc, ◌+◌, ◌-◌, ◌*◌, ◌^◌, ◌%◌, ◌<◌, ◌≤◌, ◌≡◌, ◌≢◌, ◌⊎◌, refl,
  Option, none, some, ◌>>=◌, ◌==◌, if◌then◌else◌, List, [], ◌∷◌, arith, All, length, ascending,
}
use arity_arrays.Niche.{new_masked, try_from_slice, from_slice_unchecked, as_u8_slice}
use mathlib.Core.List.{foldl, reverse}
use arity_arrays.Iteration.Draws.{front, back, run, draws}
use arity_arrays.Niche.Laws.{new_masked_lem, try_from_slice_lem}
use arity_arrays.Niche.Range.{
  NicheRange, NicheRangeInclusive, range, range_new, range_len, inclusive, inclusive_new,
  inclusive_len,
}
use arity_arrays.Niche.Range.Laws.{range-draws, inclusive-draws}
use arity_arrays.Bits.Logic.{bit_beyond}
use arity_arrays.Bitmap.{Bitmap, select}
use arity_arrays.Bitmap.Native.Digits.{test-bit}
use arity_arrays.Bitmap.Native.{to_bytes, from_bytes}
use arity_arrays.Bitmap.Native.Select.{IsNth, raw_select_lem}
use arity_arrays.Bitmap.Native.Holes.{
  IsNearestBelow, IsNearestIn, nearest_clear_at_or_below_lem, nearest_clear_in_lem,
}
use arity_arrays.Bitmap.Native.Bytes.{IsByte, from_bytes-to_bytes, to_bytes-from_bytes}
use arity_arrays.Bitmap.Laws.{select-rank}
use arity_arrays.Bitmap.BitIter.{bit_iter, bit_len, fold, rfold}
use arity_arrays.Bitmap.BitIter.Laws.{set_bits, fold_lem, bit_draws}
use arity_arrays.Bitmap.Native
use arity_arrays.Bitmap.Words.{word_bitmap}
use arity_arrays.Packed.{PackedArray, insert, remove, get, count, take_only_child}
use arity_arrays.Packed.Laws.{IsValid, lookup, get_lem}
use arity_arrays.Packed.Insert.{Inserts, insert-Inserts}
use arity_arrays.Packed.Remove.{Removes, remove-Removes}
use arity_arrays.Packed.Iter.{
  PresentIter, IntoIter, iter_present, present_iter, present_len, into_iter, moving_iter, into_len,
}
use arity_arrays.Packed.Iter.Draws.{Entries, iter_present-draws, into_iter-draws}
use arity_arrays.Gapped
use arity_arrays.Gapped.Laws
use arity_arrays.Gapped.{GappedArray}
use arity_arrays.Gapped.Laws.{get-lookup}
use arity_arrays.Gapped.Remove.{Removal, remove-Removal}
use arity_arrays.Packed.Extend.{assigned, extend, extend-assigned}
use arity_arrays.Packed.OnlyChild.{Takes, take_only_child_lem}

-- The bitmap of arity 16.
abbrev pub u16 : Bitmap
u16 = word_bitmap 3 (omega arith)

-- 20 at index 2 and 50 at index 5.
abbrev two_elements : PackedArray u16 ℕ
unfolding word_bitmap
two_elements = some (record {
  bitmap = (36, omega arith);
  elements = record {
    size = 2;
    slot = λ r. if r == 0 then some 20 else (if r == 1 then some 50 else none);
  };
})

slots_filled :
    (r : ℕ)
    → r < 2
    → (v : ℕ) × ((if r == 0 then some 20 else (if r == 1 then some 50 else none)) ≡ some v)
slots_filled zero h = (20, refl)
slots_filled (suc zero) h = (50, refl)
slots_filled (suc (suc r)) h = absurd (omega arith)

two_elements-IsValid : IsValid u16 two_elements
unfolding word_bitmap Native.count_ones
two_elements-IsValid = record { sized = refl; occupied = omega arith; filled = slots_filled }

-- Runs of the arrays: the new element goes between the two, the removal of index 2 moves the other
-- one down, and the removal of the last element leaves the empty array.
inserted : Option (Option ℕ × Option ℕ × Option ℕ × Option ℕ)
unfolding word_bitmap insert get Native.count_ones Native.test Native.rank Native.with_bit
inserted = do
  (old, a) ← insert u16 two_elements 3 30
  x ← get u16 a 2
  y ← get u16 a 3
  z ← get u16 a 5
  some (old, x, y, z)

inserted_run : inserted ≡ some (none, some 20, some 30, some 50)
unfolding inserted
inserted_run = refl

insert-Inserts_example : Inserts u16 two_elements 3 30 (insert u16 two_elements 3 30)
unfolding word_bitmap
insert-Inserts_example = insert-Inserts u16 two_elements 3 30 two_elements-IsValid (omega arith)

remove-Removes_example : Removes u16 two_elements 2 (remove u16 two_elements 2)
unfolding word_bitmap
remove-Removes_example = remove-Removes u16 two_elements 2 two_elements-IsValid (omega arith)

get_lem_example : get u16 two_elements 5 ≡ some (lookup u16 two_elements 5)
unfolding word_bitmap
get_lem_example = get_lem u16 two_elements 5 two_elements-IsValid (omega arith)

abbrev one_element : PackedArray u16 ℕ
unfolding word_bitmap
one_element =
    some (record { bitmap = (4, omega arith); elements = record { size = 1; slot = λ _. some 20 } })

one_element-IsValid : IsValid u16 one_element
unfolding word_bitmap Native.count_ones
one_element-IsValid = record { sized = refl; occupied = omega arith; filled = λ _ _. (20, refl) }

take_only_child_lem_example :
    (count u16 one_element ≡ 1) × Takes u16 one_element (take_only_child u16 one_element)
    ⊎ (count u16 one_element ≢ 1) × (take_only_child u16 one_element ≡ some (none, one_element))
take_only_child_lem_example = take_only_child_lem u16 one_element one_element-IsValid

raw_select_lem_example :
    (Native.count_ones 16 36 ≤ 1) × (Native.raw_select 16 36 1 ≡ none)
    ⊎ ((q : ℕ) × (Native.raw_select 16 36 1 ≡ some q)
        × (q < 16)
        × (1 < Native.count_ones 16 36)
        × IsNth 36 1 q)
raw_select_lem_example = raw_select_lem 16 3 36 1 refl

nearest_clear_at_or_below_lem_example :
    (r : Option ℕ) × (Native.raw_nearest_clear_at_or_below 8 247 7 ≡ some r)
    × IsNearestBelow 8 247 7 r
nearest_clear_at_or_below_lem_example =
    nearest_clear_at_or_below_lem 8 247 7 (omega arith) (omega arith)

nearest_clear_in_lem_example :
    (r : Option ℕ) × (Native.raw_nearest_clear_in 8 247 1 8 ≡ some r) × IsNearestIn 8 247 1 8 r
nearest_clear_in_lem_example =
    nearest_clear_in_lem 8 247 1 8 (omega arith) (omega arith) (omega arith)

from_bytes-to_bytes_example :
    (from_bytes (to_bytes (8 * 2) 700) ≡ 700)
    × (length (to_bytes (8 * 2) 700) ≡ 2)
    × All IsByte (to_bytes (8 * 2) 700)
from_bytes-to_bytes_example = from_bytes-to_bytes 2 700 (omega arith)

to_bytes-from_bytes_example : to_bytes (8 * 2) (from_bytes (188 ∷ 2 ∷ [])) ≡ 188 ∷ 2 ∷ []
to_bytes-from_bytes_example =
    to_bytes-from_bytes 2 (188 ∷ 2 ∷ []) refl (omega arith, (omega arith, tt))

new_masked_lem_example : new_masked (2 ^ 4) 37 ≡ some (37 % 2 ^ 4)
new_masked_lem_example = new_masked_lem 4 37

try_from_slice_lem_example :
    All (λ b. b < 16) (3 ∷ 15 ∷ [])
      × ((xs : List ℕ) × (try_from_slice 16 (3 ∷ 15 ∷ []) ≡ some xs)
          × (from_slice_unchecked 16 (3 ∷ 15 ∷ []) ≡ some xs)
          × (as_u8_slice xs ≡ 3 ∷ 15 ∷ []))
    ⊎ (¬ All (λ b. b < 16) (3 ∷ 15 ∷ []))
      × (try_from_slice 16 (3 ∷ 15 ∷ []) ≡ none)
      × (from_slice_unchecked 16 (3 ∷ 15 ∷ []) ≡ none)
try_from_slice_lem_example = try_from_slice_lem 16 (3 ∷ 15 ∷ [])

-- Bits 2 and 5 of 16.
abbrev two_bits : u16.Bits
unfolding word_bitmap
two_bits = (36, omega arith)

select-rank_example : select u16 two_bits (u16.rank two_bits 5) ≡ some (some 5)
unfolding word_bitmap Native.test
select-rank_example = select-rank u16 two_bits 5 (omega arith) refl

fold_lem_example :
    (fold u16 ◌+◌ u16.width two_bits 1 ≡ some (foldl ◌+◌ 1 (set_bits u16 two_bits)))
    × (rfold u16 ◌+◌ u16.width two_bits 1 ≡ some (foldl ◌+◌ 1 (reverse (set_bits u16 two_bits))))
fold_lem_example = fold_lem u16 ◌+◌ two_bits 1

bit_draws_example :
    (s : u16.Bits) × (run (bit_iter u16) (front ∷ back ∷ back ∷ []) two_bits
      ≡ some ((draws (front ∷ back ∷ back ∷ []) (set_bits u16 two_bits)).0, s))
    × (bit_len u16 s ≡ length (draws (front ∷ back ∷ back ∷ []) (set_bits u16 two_bits)).1)
bit_draws_example = bit_draws u16 two_bits (front ∷ back ∷ back ∷ [])

range-draws_example :
    (r : NicheRange) × (run (range 16) (front ∷ back ∷ []) (range_new 16 3 6)
      ≡ some ((draws (front ∷ back ∷ []) (ascending 3 (6 - 3))).0, r))
    × (range_len 16 r ≡ length (draws (front ∷ back ∷ []) (ascending 3 (6 - 3))).1)
range-draws_example =
    range-draws 16 3 6 (front ∷ back ∷ []) (omega arith) (omega arith) (omega arith)

inclusive-draws_example :
    (r : NicheRangeInclusive) × (run (inclusive 16) (front ∷ back ∷ []) (inclusive_new 16 3 15)
      ≡ some ((draws (front ∷ back ∷ []) (ascending 3 (15 + 1 - 3))).0, r))
    × (inclusive_len 16 r ≡ length (draws (front ∷ back ∷ []) (ascending 3 (15 + 1 - 3))).1)
inclusive-draws_example =
    inclusive-draws 16 3 15 (front ∷ back ∷ []) (omega arith) (omega arith) (omega arith)

iter_present-draws_example :
    (xs : List (ℕ × ℕ)) × Entries u16 two_elements xs
    × ((it : PresentIter u16 ℕ) × (run
            (present_iter u16)
            (back ∷ front ∷ [])
            (iter_present u16 two_elements)
          ≡ some ((draws (back ∷ front ∷ []) xs).0, it))
        × (present_len u16 it ≡ length (draws (back ∷ front ∷ []) xs).1))
iter_present-draws_example =
    iter_present-draws u16 two_elements (back ∷ front ∷ []) two_elements-IsValid

into_iter-draws_example :
    (xs : List (ℕ × ℕ)) × Entries u16 two_elements xs
    × ((it : IntoIter u16 ℕ) × (run
            (moving_iter u16)
            (back ∷ front ∷ [])
            (into_iter u16 two_elements)
          ≡ some ((draws (back ∷ front ∷ []) xs).0, it))
        × (into_len u16 it ≡ length (draws (back ∷ front ∷ []) xs).1))
into_iter-draws_example = into_iter-draws u16 two_elements (back ∷ front ∷ []) two_elements-IsValid

extend-assigned_example :
    (a' : PackedArray u16 ℕ) × (extend u16 two_elements ((3, 30) ∷ (5, 55) ∷ (3, 33) ∷ [])
      ≡ some a')
    × IsValid u16 a'
    × ((j : ℕ)
        → j < u16.width
        → lookup u16 a' j
          ≡ assigned ((3, 30) ∷ (5, 55) ∷ (3, 33) ∷ []) j (lookup u16 two_elements j))
unfolding word_bitmap
extend-assigned_example =
    extend-assigned u16 two_elements ((3, 30) ∷ (5, 55) ∷ (3, 33) ∷ []) two_elements-IsValid
      (omega arith, (omega arith, (omega arith, tt)))
