-- ===== src/Packed/Iter.antt =====
-- crates/arity-arrays/src/packed.rs: `PresentIter`, the iterator over the present elements, and
-- `IntoIter`, the one that moves them out. A null data pointer is none.
pub mod Laws
pub mod Draws
use arity_arrays.Common.{ℕ, ◌+◌, ◌-◌, Option, none, some, ◌>>=◌}
use arity_arrays.Memory.{Block, read}
use arity_arrays.Iteration.{DoubleEnded}
use arity_arrays.Bitmap.{Bitmap}
use arity_arrays.Bitmap.BitIter.{bit_next, bit_next_back, bit_len}
use arity_arrays.Packed.{Inner, PackedArray}

pub record PresentIter (b : Bitmap) (T : Type 0) : Type 0 where
  pub bits : b.Bits
  pub data_ptr : Option (Block T)
  pub count : ℕ
  pub front_rank : ℕ
  pub back_consumed : ℕ

pub record IntoIter (b : Bitmap) (T : Type 0) : Type 0 where
  pub ptr : Option (Block T)
  pub bits : b.Bits
  pub front : ℕ
  pub back : ℕ
  pub count : ℕ

module _ (b : Bitmap) {T : Type 0} where
  open b use {Bits, zero_bits, count_ones}

  -- `iter_present`
  unfoldable pub iter_present : PackedArray b T → PresentIter b T
  iter_present none = record {
    bits = zero_bits;
    data_ptr = none;
    count = 0;
    front_rank = 0;
    back_consumed = 0;
  }
  iter_present (some p) = record {
    bits = p.bitmap;
    data_ptr = some p.elements;
    count = count_ones p.bitmap;
    front_rank = 0;
    back_consumed = 0;
  }

  -- The element at a rank: `none` for a null pointer and outside the initialised slots.
  unfoldable pub elem_at_rank : Option (Block T) → ℕ → ℕ → Option (ℕ × T)
  unfolding read
  elem_at_rank data_ptr index rank = data_ptr >>= λ m. read m rank >>= λ v. some (index, v)

  unfoldable pub present_next : PresentIter b T → Option (Option (ℕ × T) × PresentIter b T)
  unfolding bit_next elem_at_rank
  present_next it = do
    (index, bits) ← bit_next b it.bits
    elim index [
      | none ↦ some (none, record it { bits = bits })
      | some i ↦ elem_at_rank it.data_ptr i it.front_rank >>= λ x.
          some (some x, record it { bits = bits; front_rank = it.front_rank + 1 })
    ]

  unfoldable pub present_next_back : PresentIter b T → Option (Option (ℕ × T) × PresentIter b T)
  unfolding bit_next_back elem_at_rank
  present_next_back it = do
    (index, bits) ← bit_next_back b it.bits
    elim index [
      | none ↦ some (none, record it { bits = bits })
      | some i ↦ elem_at_rank it.data_ptr i (it.count - 1 - it.back_consumed) >>= λ x.
          some (some x, record it { bits = bits; back_consumed = it.back_consumed + 1 })
    ]

  unfoldable pub present_len : PresentIter b T → ℕ
  unfolding bit_len
  present_len it = bit_len b it.bits

  abbrev pub present_iter : DoubleEnded (PresentIter b T) (ℕ × T)
  present_iter = record { next = present_next; next_back = present_next_back; len = present_len }

  -- `IntoIterator::into_iter`
  unfoldable pub into_iter : PackedArray b T → IntoIter b T
  into_iter none = record { ptr = none; bits = zero_bits; front = 0; back = 0; count = 0 }
  into_iter (some p) = record {
    ptr = some p.elements;
    bits = p.bitmap;
    front = 0;
    back = count_ones p.bitmap;
    count = count_ones p.bitmap;
  }

  unfoldable pub into_next : IntoIter b T → Option (Option (ℕ × T) × IntoIter b T)
  unfolding bit_next elem_at_rank
  into_next it = do
    (index, bits) ← bit_next b it.bits
    elim index [
      | none ↦ some (none, record it { bits = bits })
      | some i ↦ elem_at_rank it.ptr i it.front >>= λ x.
          some (some x, record it { bits = bits; front = it.front + 1 })
    ]

  unfoldable pub into_next_back : IntoIter b T → Option (Option (ℕ × T) × IntoIter b T)
  unfolding bit_next_back elem_at_rank
  into_next_back it = do
    (index, bits) ← bit_next_back b it.bits
    elim index [
      | none ↦ some (none, record it { bits = bits })
      | some i ↦ elem_at_rank it.ptr i (it.back - 1) >>= λ x.
          some (some x, record it { bits = bits; back = it.back - 1 })
    ]

  unfoldable pub into_len : IntoIter b T → ℕ
  unfolding bit_len
  into_len it = bit_len b it.bits

  abbrev pub moving_iter : DoubleEnded (IntoIter b T) (ℕ × T)
  moving_iter = record { next = into_next; next_back = into_next_back; len = into_len }
