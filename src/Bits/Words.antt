-- ===== src/Bits/Words.antt =====
-- Rust's unsigned integers of width w, as numbers below 2 ^ w: the operations of `core` that the
-- bitmaps call. The width is the first argument of each.
pub mod Laws
use arity_arrays.Common.{ℕ, zero, suc, ◌+◌, ◌-◌, ◌*◌, ◌/◌, ◌%◌, ◌^◌, ◌==◌, if◌then◌else◌}
use arity_arrays.Bits.{bit}

abbrev pub complement : ℕ → ℕ → ℕ
complement w x = 2 ^ w - 1 - x

abbrev pub shl : ℕ → ℕ → ℕ → ℕ
shl w x k = x * 2 ^ k % 2 ^ w

abbrev pub shr : ℕ → ℕ → ℕ
shr x k = x / 2 ^ k

abbrev pub wrapping_sub : ℕ → ℕ → ℕ → ℕ
wrapping_sub w x y = (x + 2 ^ w - y) % 2 ^ w

unfoldable pub count_ones : ℕ → ℕ → ℕ
count_ones zero x = 0
count_ones (suc w) x = x % 2 + count_ones w (x / 2)

-- w for 0.
unfoldable pub trailing_zeros : ℕ → ℕ → ℕ
trailing_zeros zero x = 0
trailing_zeros (suc w) x = if x % 2 == 1 then 0 else suc (trailing_zeros w (x / 2))

-- w for 0.
unfoldable pub leading_zeros : ℕ → ℕ → ℕ
leading_zeros zero x = 0
leading_zeros (suc w) x = if bit x w then 0 else suc (leading_zeros w x)

-- Panics at 0 in the source; its callers test for that.
abbrev pub ilog2 : ℕ → ℕ → ℕ
ilog2 w x = w - 1 - leading_zeros w x
