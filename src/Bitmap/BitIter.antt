-- ===== src/Bitmap/BitIter.antt =====
-- crates/arity-bitmap/src/iter.rs: the iterator over the set bits, for any bitmap.
pub mod Laws
use arity_arrays.Common.{ℕ, zero, suc, Option, none, some, if◌then◌else◌, ◌>>=◌}
use arity_arrays.Iteration.{DoubleEnded}
use arity_arrays.Niche.{try_from_usize}
use arity_arrays.Bitmap.{Bitmap}

module _ (b : Bitmap) where
  open b use {
    Bits, width, is_zero, count_ones, raw_lowest_pos, raw_highest_pos, raw_clear_lowest,
    raw_clear_highest,
  }

  -- The state is `remaining`. The `expect` of the conversion panics: `none`.
  unfoldable pub bit_next : Bits → Option (Option ℕ × Bits)
  unfolding try_from_usize
  bit_next remaining =
      if is_zero remaining
      then some (none, remaining)
      else try_from_usize width (raw_lowest_pos remaining) >>= λ i.
          some (some i, raw_clear_lowest remaining)

  unfoldable pub bit_next_back : Bits → Option (Option ℕ × Bits)
  unfolding try_from_usize
  bit_next_back remaining =
      if is_zero remaining
      then some (none, remaining)
      else try_from_usize width (raw_highest_pos remaining) >>= λ i.
          some (some i, raw_clear_highest remaining)

  unfoldable pub bit_len : Bits → ℕ
  bit_len remaining = count_ones remaining

  abbrev pub bit_iter : DoubleEnded Bits ℕ
  bit_iter = record { next = bit_next; next_back = bit_next_back; len = bit_len }

  -- The `while` loops of `fold` and `rfold`, with fuel; `none` is also the lack of fuel.
  unfoldable pub fold : {Acc : Type 0} → (Acc → ℕ → Acc) → ℕ → Bits → Acc → Option Acc
  unfolding try_from_usize
  fold f zero remaining acc = if is_zero remaining then some acc else none
  fold f (suc fuel) remaining acc =
      let step = λ (i : ℕ). fold f fuel (raw_clear_lowest remaining) (f acc i) in
      if is_zero remaining
      then some acc
      else try_from_usize width (raw_lowest_pos remaining) >>= step

  unfoldable pub rfold : {Acc : Type 0} → (Acc → ℕ → Acc) → ℕ → Bits → Acc → Option Acc
  unfolding try_from_usize
  rfold f zero remaining acc = if is_zero remaining then some acc else none
  rfold f (suc fuel) remaining acc =
      let step = λ (i : ℕ). rfold f fuel (raw_clear_highest remaining) (f acc i) in
      if is_zero remaining
      then some acc
      else try_from_usize width (raw_highest_pos remaining) >>= step
