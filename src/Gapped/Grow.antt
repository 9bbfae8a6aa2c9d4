-- ===== src/Gapped/Grow.antt =====
-- crates/arity-arrays/src/gapped.rs: the operations that allocate a new block, and `insert`.
use arity_arrays.Common.{
  ℕ, zero, suc, ◌+◌, ◌*◌, ◌/◌, ◌-◌, ◌^◌, Bool, not, ◌&&◌, Option, none, some, ◌==◌, ltb, leb,
  if◌then◌else◌, ◌>>=◌, debug_assert,
}
use arity_arrays.Bits.Words.{shr, count_ones as word_count_ones, trailing_zeros, leading_zeros}
use arity_arrays.Memory.{Block, write, copy}
use arity_arrays.Niche.{try_from_usize}
use arity_arrays.Bitmap.{Bitmap}
use arity_arrays.Bitmap.BitIter.{bit_next}
use arity_arrays.Gapped.{GappedArray, alloc_block, count}

-- `usize` is of 64 bits.
abbrev pub usize_bits : ℕ
usize_bits = 64

abbrev pub usize_max : ℕ
usize_max = 2 ^ 64 - 1

unfoldable pub is_power_of_two : ℕ → Bool
unfolding word_count_ones
is_power_of_two n = word_count_ones usize_bits n == 1

-- `usize::next_power_of_two`
unfoldable pub next_power_of_two : ℕ → ℕ
unfolding leading_zeros
next_power_of_two n = if leb n 1 then 1 else shr usize_max (leading_zeros usize_bits (n - 1)) + 1

-- The length of the arity is the width of its bitmap.
unfoldable pub pow2_cap_for : ℕ → ℕ → ℕ
unfolding next_power_of_two
pow2_cap_for len n = if n == 0 then 0 else (if leb len n then len else next_power_of_two n)

unfoldable pub cap_exp_of : ℕ → Option ℕ
unfolding is_power_of_two trailing_zeros
cap_exp_of cap = debug_assert (is_power_of_two cap) (some (trailing_zeros usize_bits cap))

unfoldable pub spread_pos : ℕ → ℕ → ℕ → Option ℕ
spread_pos r count cap =
    debug_assert (ltb 0 count && leb count cap && ltb r count) (some (r * cap / count))

module _ (b : Bitmap) where
  open b use {Bits, width, zero_bits, with_bit}

  -- The loop over the ranks 0 to n, which sets the spread positions.
  unfoldable pub spread_live : ℕ → ℕ → ℕ → Option Bits
  unfolding spread_pos try_from_usize
  spread_live zero count cap = some zero_bits
  spread_live (suc r) count cap = do
    live ← spread_live r count cap
    at ← spread_pos r count cap
    at_idx ← try_from_usize width at
    some (with_bit live at_idx)

module _ (b : Bitmap) {T : Type 0} where
  open b use {Bits, width, zero_bits, count_ones, test, with_bit, rank}

  -- The loop over the zip of the old and the new live slots, with fuel.
  unfoldable pub move_all : ℕ → Bits → Bits → Block T → Block T → Option (Block T)
  unfolding bit_next copy
  move_all zero old fresh src dst = none
  move_all (suc fuel) old fresh src dst =
      let rest = λ (old' fresh' : Bits) (dst' : Block T). move_all fuel old' fresh' src dst' in
      do
        (from, old') ← bit_next b old
        elim from [
          | none ↦ some dst
          | some op ↦ (do
            (to, fresh') ← bit_next b fresh
            elim to [ none ↦ some dst | some np ↦ copy src op dst np 1 >>= rest old' fresh' ])
        ]

  unfoldable pub rebuild_to : GappedArray b T → ℕ → Option (GappedArray b T)
  unfolding is_power_of_two cap_exp_of spread_live alloc_block move_all
  rebuild_to none new_cap = some none
  rebuild_to (some p) new_cap =
      let count = count_ones p.occupancy in
      debug_assert (leb count new_cap && is_power_of_two new_cap) (do
        new_cap_exp ← cap_exp_of new_cap
        new_live ← spread_live b count count new_cap
        let fresh = alloc_block b p.occupancy new_live new_cap_exp new_cap
        m ← move_all (width + 1) p.live new_live p.elements fresh.elements
        some (some (record fresh { elements = m })))

  -- The loop over the new live slots, with fuel: the rank new_rank takes the value, which is there
  -- once, and every other rank the next old element.
  unfoldable pub fill_all :
      ℕ → ℕ → ℕ → Option T → Bits → Bits → Block T → Block T → Option (Block T)
  unfolding bit_next copy write
  fill_all zero nr new_rank value old fresh src dst = none
  fill_all (suc fuel) nr new_rank value old fresh src dst =
      let rest = λ (value' : Option T) (old' fresh' : Bits) (dst' : Block T).
        fill_all fuel (nr + 1) new_rank value' old' fresh' src dst' in
      do
        (to, fresh') ← bit_next b fresh
        elim to [
          | none ↦ some dst
          | some np ↦
              if nr == new_rank
              then (value >>= λ v. write dst np v >>= rest none old fresh')
              else (do
                (from, old') ← bit_next b old
                op ← from
                copy src op dst np 1 >>= rest value old' fresh')
        ]

  unfoldable pub rebuild_with_insert : GappedArray b T → ℕ → T → ℕ → Option (GappedArray b T)
  unfolding is_power_of_two cap_exp_of spread_live alloc_block fill_all
  rebuild_with_insert none index value new_cap = none
  rebuild_with_insert (some p) index value new_cap =
      let new_occ = with_bit p.occupancy index in
      let new_count = count_ones new_occ in
      debug_assert (not (test p.occupancy index)) (
        debug_assert (leb new_count new_cap && is_power_of_two new_cap) (do
          new_cap_exp ← cap_exp_of new_cap
          new_live ← spread_live b new_count new_count new_cap
          let fresh = alloc_block b new_occ new_live new_cap_exp new_cap
          m ←
              fill_all (width + 1) 0 (rank new_occ index) (some value) p.live new_live p.elements
                fresh.elements
          some (some (record fresh { elements = m }))))
