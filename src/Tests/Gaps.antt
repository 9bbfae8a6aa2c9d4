-- ===== src/Tests/Gaps.antt =====
-- The theorems on the gapped array at concrete inputs.
use arity_arrays.Common.{
  true, false, ◌∙◌, sym, ℕ, zero, suc, ◌<◌, ◌≡◌, refl, Option, none, some, ◌>>=◌, ◌==◌,
  if◌then◌else◌, arith,
}
use arity_arrays.Bits.Logic.{bit_beyond}
use arity_arrays.Bitmap.Native.Digits.{test-bit}
use arity_arrays.Bitmap.Native.{to_bytes, from_bytes}
use arity_arrays.Bitmap.Native
use arity_arrays.Bitmap.Words.{word_bitmap}
use arity_arrays.Gapped
use arity_arrays.Gapped.Laws
use arity_arrays.Gapped.{GappedArray}
use arity_arrays.Gapped.Laws.{get-lookup}
use arity_arrays.Gapped.Remove.{Removal, remove-Removal}
use arity_arrays.Common.{◌>>=◌}
use arity_arrays.Common.{◌^◌}
use arity_arrays.Gapped.Place.{neighbor_bounds}
use arity_arrays.Gapped.Place.Bounds.{Gap, neighbor_bounds-Gap}
use arity_arrays.Tests.{u16}
use arity_arrays.Gapped.Update
use arity_arrays.Gapped.Update.Overwrite.{Insertion, overwrite-Insertion}
use arity_arrays.Gapped.{Inner}
use arity_arrays.Gapped.Place.Laws.{Placed}
use arity_arrays.Gapped.Update.Absent.{insert-Placed}

-- A gapped array of capacity 4, with 20 at index 2 in slot 1 and 50 at index 5 in slot 3.
abbrev gapped_block : Inner u16 ℕ
unfolding word_bitmap
gapped_block = record {
  occupancy = (36, omega arith);
  live = (10, omega arith);
  cap_exp = 2;
  elements = record {
    size = 4;
    slot = λ q. if q == 1 then some 20 else (if q == 3 then some 50 else none);
  };
}

abbrev gapped_elements : GappedArray u16 ℕ
gapped_elements = some gapped_block

live_slots :
    (q : ℕ)
    → q < 16
    → Native.test 16 10 q ≡ true
    → (q < 4)
      × ((v : ℕ) × ((if q == 1 then some 20 else (if q == 3 then some 50 else none)) ≡ some v))
unfolding Native.test
live_slots zero h e = cc
live_slots (suc zero) h e = (omega arith, (20, refl))
live_slots (suc (suc zero)) h e = cc
live_slots (suc (suc (suc zero))) h e = (omega arith, (50, refl))
live_slots (suc (suc (suc (suc q)))) h e =
    let at = suc (suc (suc (suc q))) in
    let beyond = test-bit 16 10 at h ∙ bit_beyond 4 10 at (omega arith) (omega arith) in
    let clash : false ≡ true = sym beyond ∙ e in cc

gapped_elements-IsValid : Laws.IsValid u16 gapped_elements
unfolding word_bitmap Native.count_ones
gapped_elements-IsValid = record {
  sized = refl;
  fits = omega arith;
  balanced = refl;
  inside = λ q h e. (live_slots q h e).0;
  filled = λ q h e. (live_slots q h e).1;
}

remove-Removal_example : Removal u16 gapped_elements 2 (Gapped.remove u16 gapped_elements 2)
unfolding word_bitmap
remove-Removal_example = remove-Removal u16 gapped_elements 2 gapped_elements-IsValid (omega arith)

get-lookup_example : Gapped.get u16 gapped_elements 5 ≡ some (Laws.lookup u16 gapped_elements 5)
unfolding word_bitmap
get-lookup_example = get-lookup u16 gapped_elements 5 gapped_elements-IsValid (omega arith)

insert-Placed_example :
    (p' : Inner u16 ℕ) × (Update.insert u16 gapped_elements 3 30 ≡ some (none, some p'))
    × Placed u16 gapped_block p' 3 30
unfolding word_bitmap Native.test Native.count_ones
insert-Placed_example =
    insert-Placed u16 gapped_block 3 30 gapped_elements-IsValid (omega arith) refl (omega arith)

overwrite-Insertion_example :
    Insertion u16 (some gapped_block) 5 51 (Update.insert u16 (some gapped_block) 5 51)
unfolding word_bitmap Native.test
overwrite-Insertion_example =
    overwrite-Insertion u16 gapped_block 5 51 gapped_elements-IsValid (omega arith) refl

-- A run of `insert` through the first block, the growth of a full block, twice, and a placement.
grown : Option (Option ℕ × Option ℕ × Option ℕ × Option ℕ × ℕ)
unfolding word_bitmap Update.insert Gapped.get Gapped.new Gapped.capacity Native.count_ones
    Native.test Native.rank Native.with_bit
grown = do
  (_, a) ← Update.insert u16 (Gapped.new u16) 5 50
  (_, a') ← Update.insert u16 a 2 20
  (_, a'') ← Update.insert u16 a' 9 90
  (_, filled) ← Update.insert u16 a'' 3 30
  w ← Gapped.get u16 filled 2
  x ← Gapped.get u16 filled 3
  y ← Gapped.get u16 filled 5
  z ← Gapped.get u16 filled 9
  some (w, x, y, z, Gapped.capacity u16 filled)

grown_run : grown ≡ some (some 20, some 30, some 50, some 90, 4)
unfolding grown Native.is_zero Native.raw_lowest_pos Native.raw_clear_lowest Native.raw_select
    Native.raw_nearest_clear_in Native.raw_nearest_clear_at_or_below
grown_run = refl

neighbor_bounds-Gap_example : Gap u16 gapped_block 3 (
    neighbor_bounds u16 gapped_block.occupancy gapped_block.live
      (2 ^ gapped_block.cap_exp)
      (u16.count_ones gapped_block.occupancy)
      3)
unfolding word_bitmap
neighbor_bounds-Gap_example =
    neighbor_bounds-Gap u16 gapped_block 3 gapped_elements-IsValid (omega arith)
