-- ===== src/Gapped/Update.antt =====
-- crates/arity-arrays/src/gapped.rs: `insert`, with the choice of a placement, and the operations
-- on the capacity.
pub mod Overwrite
mod Holes
pub mod Absent
use arity_arrays.Common.{
  ℕ, zero, suc, ◌+◌, ◌-◌, ◌^◌, min, Bool, true, false, ◌&&◌, Option, none, some, ◌==◌, ltb, leb,
  if◌then◌else◌, ◌>>=◌,
}
use arity_arrays.Memory.{Block, read, write}
use arity_arrays.Niche.{try_from_usize}
use arity_arrays.Bitmap.{Bitmap, nearest_clear_in}
use arity_arrays.Gapped.{Inner, GappedArray, alloc_block, new, capacity, count, slot_of}
use arity_arrays.Gapped.Place.{
  neighbor_bounds, nearest_hole_left, nearest_hole_right, write_into_hole, shift_left_and_write,
  shift_right_and_write,
}
use arity_arrays.Gapped.Grow.{usize_max, pow2_cap_for, cap_exp_of, rebuild_to, rebuild_with_insert}

-- The cost of a shift: its distance, and `usize::MAX` without a hole.
abbrev pub cost : Option (ℕ × ℕ) → ℕ
cost none = usize_max
cost (some (hole, distance)) = distance

-- `p_lo + 1`, where none is the sentinel -1.
abbrev pub above : Option ℕ → ℕ
above none = 0
above (some p_lo) = p_lo + 1

module _ (b : Bitmap) {T : Type 0} where
  open b use {Bits, width, zero_bits, count_ones, test, with_bit}

  -- The neighbours are adjacent: the cheapest of the two shifts and the respread.
  unfoldable pub make_room : Inner b T → ℕ → T → Option ℕ → ℕ → Option (GappedArray b T)
  unfolding nearest_hole_left nearest_hole_right shift_left_and_write shift_right_and_write
      rebuild_with_insert
  make_room p index value p_lo p_hi =
      let cap = 2 ^ p.cap_exp in
      let respread_cost = count_ones p.occupancy in
      do
        left ← nearest_hole_left b p.live p_lo
        right ← nearest_hole_right b p.live p_hi cap
        if leb (cost left) (cost right) && leb (cost left) respread_cost
            then (left >>= λ (hpos, _).
                shift_left_and_write b p index hpos p_hi value >>= λ p'. some (some p'))
            else (if leb (cost right) respread_cost
                then (right >>= λ (hpos, _).
                    shift_right_and_write b p index p_hi hpos value >>= λ p'. some (some p'))
                else rebuild_with_insert b (some p) index value cap)

  unfoldable pub place_absent : GappedArray b T → ℕ → T → Option (GappedArray b T)
  unfolding neighbor_bounds nearest_clear_in write_into_hole make_room
  place_absent none index value = none
  place_absent (some p) index value = do
    (p_lo, p_hi) ←
        neighbor_bounds b p.occupancy p.live (2 ^ p.cap_exp) (count_ones p.occupancy) index
    hole ← nearest_clear_in b p.live (above p_lo) p_hi
    elim hole [
      | some h ↦ write_into_hole b p index h value >>= λ p'. some (some p')
      | none ↦ make_room p index value p_lo p_hi
    ]

  -- `insert` at a present index, in place.
  unfoldable pub overwrite : Inner b T → ℕ → T → Option (Option T × GappedArray b T)
  unfolding slot_of read write
  overwrite p index value = do
    at ← slot_of b p index
    old ← read p.elements at
    m ← write p.elements at value
    some (some old, some (record p { elements = m }))

  unfoldable pub insert : GappedArray b T → ℕ → T → Option (Option T × GappedArray b T)
  unfolding try_from_usize alloc_block write overwrite pow2_cap_for rebuild_with_insert place_absent
  insert none index value = do
    first ← try_from_usize width 0
    let fresh = alloc_block b (with_bit zero_bits index) (with_bit zero_bits first) 0 1
    m ← write fresh.elements 0 value
    some (none, some (record fresh { elements = m }))
  insert (some p) index value =
      if test p.occupancy index
      then overwrite p index value
      else (let count = count_ones p.occupancy in
          if count == 2 ^ p.cap_exp
          then (rebuild_with_insert b (some p) index value (pow2_cap_for width (count + 1)) >>= λ a.
              some (none, a))
          else (place_absent (some p) index value >>= λ a. some (none, a)))

  unfoldable pub with_capacity : ℕ → Option (GappedArray b T)
  unfolding new pow2_cap_for cap_exp_of alloc_block
  with_capacity n =
      let cap = pow2_cap_for width n in
      if cap == 0
      then some (new b)
      else (cap_exp_of cap >>= λ cap_exp.
          some (some (alloc_block b zero_bits zero_bits cap_exp cap)))

  -- The sum saturates.
  unfoldable pub reserve : GappedArray b T → ℕ → Option (GappedArray b T)
  unfolding count capacity pow2_cap_for rebuild_to with_capacity
  reserve a n =
      let want = min (count b a + n) usize_max in
      let target = pow2_cap_for width want in
      if leb target (capacity b a)
      then some a
      else elim a [ none ↦ with_capacity want | some p ↦ rebuild_to b (some p) target ]

  unfoldable pub shrink_to_fit : GappedArray b T → Option (GappedArray b T)
  unfolding new count capacity pow2_cap_for rebuild_to
  shrink_to_fit a =
      let target = pow2_cap_for width (count b a) in
      if count b a == 0
      then some (new b)
      else (if ltb target (capacity b a) then rebuild_to b a target else some a)

  -- The elements are dropped, the allocation stays.
  unfoldable pub clear : GappedArray b T → GappedArray b T
  clear none = none
  clear (some p) = some (record p { occupancy = zero_bits; live = zero_bits })
