-- ===== src/Bitmap.antt =====
-- crates/arity-bitmap/src/lib.rs: the traits `Raw` and `Bitmap`, as an interface of operations and
-- of the contract that the arrays rely on, and the default methods of `Bitmap`. An index is a
-- number below the width.
pub mod Native
pub mod Words
pub mod Members
pub mod Laws
pub mod BitIter
use arity_arrays.Common.{
  ℕ, suc, ◌<◌, ◌≤◌, ◌≡◌, ◌↔◌, Bool, true, false, not, ◌&&◌, ◌||◌, ◌==◌, Option, none, some,
  count_below, List, ◌/◌, if◌then◌else◌, length, ◌>>=◌,
}
use arity_arrays.Bitmap.Native.{from_bytes}
use arity_arrays.Niche.{try_from_usize}

pub record Operations : Type 1 where
  pub Bits : Type 0
  pub width : ℕ
  pub zero_bits : Bits
  pub is_zero : Bits → Bool
  pub count_ones : Bits → ℕ
  pub test : Bits → ℕ → Bool
  pub with_bit : Bits → ℕ → Bits
  pub without_bit : Bits → ℕ → Bits
  pub rank : Bits → ℕ → ℕ
  pub raw_lowest_pos : Bits → ℕ
  pub raw_highest_pos : Bits → ℕ
  pub raw_clear_lowest : Bits → Bits
  pub raw_clear_highest : Bits → Bits
  pub raw_select : Bits → ℕ → Option ℕ
  pub raw_nearest_clear_at_or_below : Bits → ℕ → Option (Option ℕ)
  pub raw_nearest_clear_in : Bits → ℕ → ℕ → Option (Option ℕ)

-- Results of the searches, over the membership test f.
abbrev pub IsNth : (ℕ → Bool) → ℕ → ℕ → ℕ → Type 0
IsNth f width n p = (p < width) × (f p ≡ true) × (count_below f p ≡ n)

abbrev pub Selects : (ℕ → Bool) → ℕ → ℕ → Option ℕ → Type 0
Selects f width n none = count_below f width ≤ n
Selects f width n (some p) = IsNth f width n p

abbrev pub NearestBelow : (ℕ → Bool) → ℕ → Option ℕ → Type 0
NearestBelow f from none = (i : ℕ) → i ≤ from → f i ≡ true
NearestBelow f from (some p) =
    (p ≤ from) × (f p ≡ false) × ((i : ℕ) → p < i → i ≤ from → f i ≡ true)

abbrev pub NearestIn : (ℕ → Bool) → ℕ → ℕ → Option ℕ → Type 0
NearestIn f from limit none = (i : ℕ) → from ≤ i → i < limit → f i ≡ true
NearestIn f from limit (some p) =
    (from ≤ p) × (p < limit) × (f p ≡ false) × ((i : ℕ) → from ≤ i → i < p → f i ≡ true)

-- The operations with the documented contract of the two traits.
pub record Bitmap : Type 1 where
  pub operations : Operations
  pub open operations use *
  pub width_pos : 0 < width
  pub width_small : width ≤ 256
  pub bits_ext : (a b : Bits) → ((i : ℕ) → i < width → test a i ≡ test b i) → a ≡ b
  pub test-zero_bits : (i : ℕ) → i < width → test zero_bits i ≡ false
  pub is_zero_iff : (b : Bits) → (is_zero b ≡ true) ↔ (b ≡ zero_bits)
  pub test-with_bit :
      (b : Bits) (i j : ℕ) → i < width → j < width → test (with_bit b i) j ≡ (test b j || (i == j))
  pub test-without_bit :
      (b : Bits) (i j : ℕ)
      → i < width
      → j < width
      → test (without_bit b i) j ≡ (test b j && not (i == j))
  pub rank_lem : (b : Bits) (i : ℕ) → i < width → rank b i ≡ count_below (test b) i
  pub count_ones_lem : (b : Bits) → count_ones b ≡ count_below (test b) width
  pub lowest_lem :
      (b : Bits)
      → is_zero b ≡ false
      → (raw_lowest_pos b < width)
        × (test b (raw_lowest_pos b) ≡ true)
        × ((i : ℕ) → i < raw_lowest_pos b → test b i ≡ false)
  pub highest_lem :
      (b : Bits)
      → is_zero b ≡ false
      → (raw_highest_pos b < width)
        × (test b (raw_highest_pos b) ≡ true)
        × ((i : ℕ) → i < width → raw_highest_pos b < i → test b i ≡ false)
  pub test-clear_lowest :
      (b : Bits) (i : ℕ)
      → is_zero b ≡ false
      → i < width
      → test (raw_clear_lowest b) i ≡ (test b i && not (i == raw_lowest_pos b))
  pub test-clear_highest :
      (b : Bits) (i : ℕ)
      → is_zero b ≡ false
      → i < width
      → test (raw_clear_highest b) i ≡ (test b i && not (i == raw_highest_pos b))
  pub raw_select_lem : (b : Bits) (n : ℕ) → Selects (test b) width n (raw_select b n)
  pub nearest_clear_at_or_below_lem :
      (b : Bits) (from : ℕ)
      → from < width
      → (r : Option ℕ) × (raw_nearest_clear_at_or_below b from ≡ some r)
        × NearestBelow (test b) from r
  pub nearest_clear_in_lem :
      (b : Bits) (from limit : ℕ)
      → from ≤ limit
      → limit ≤ width
      → (r : Option ℕ) × (raw_nearest_clear_in b from limit ≡ some r)
        × NearestIn (test b) from limit r

-- A position from a scan as an index: `try_from_usize(pos).expect(…)`. `none` is the panic.
abbrev expect_index : ℕ → Option ℕ → Option (Option ℕ)
expect_index width none = some none
expect_index width (some p) = elim (try_from_usize width p) [ none ↦ none | some i ↦ some (some i) ]

-- The default methods of `Bitmap`, over the scans of `Raw`.
module _ (b : Bitmap) where
  open b use {Bits, width, raw_select, raw_nearest_clear_at_or_below, raw_nearest_clear_in}

  unfoldable pub select : Bits → ℕ → Option (Option ℕ)
  unfolding try_from_usize
  select x n = expect_index width (raw_select x n)

  unfoldable pub nearest_clear_at_or_below : Bits → ℕ → Option (Option ℕ)
  unfolding try_from_usize
  nearest_clear_at_or_below x from = raw_nearest_clear_at_or_below x from >>= expect_index width

  unfoldable pub nearest_clear_in : Bits → ℕ → ℕ → Option (Option ℕ)
  unfolding try_from_usize
  nearest_clear_in x from limit = raw_nearest_clear_in x from limit >>= expect_index width

-- `try_from_bytes`, over the byte form of width w.
unfoldable pub try_from_bytes : ℕ → List ℕ → Option ℕ
unfolding from_bytes
try_from_bytes w buf = if length buf == w / 8 then some (from_bytes buf) else none
