-- ===== src/Bits.antt =====
-- A number as its binary digits: `bit x i` is digit i. The laws relate the machine operations of
-- the source (`&`, `|`, `!`, `<<`, `>>`, `wrapping_sub`) to the digits, at every width.
mod Step
pub mod Logic
pub mod Words
use arity_arrays.Common.{ℕ, zero, suc, ◌/◌, ◌%◌, ◌==◌, Bool}

abbrev pub bit : ℕ → ℕ → Bool
bit x zero = x % 2 == 1
bit x (suc i) = bit (x / 2) i
