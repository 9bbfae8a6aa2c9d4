-- ===== src/Bits/Words/Laws.antt =====
-- The word operations by their digits.
use native.Mathlib.Nat.{pow-suc, add-mod_left, mod-eq_of_lt}
use arity_arrays.Common.{
  ℕ, zero, suc, ◌+◌, ◌-◌, ◌*◌, ◌/◌, ◌%◌, ◌^◌, ◌<◌, ◌≡◌, ◌≢◌, refl, ◌∙◌, arith, true, false, not,
  ◌&&◌, ltb, ◌==◌, Bool-cases, inl, inr, count_below, count_below-low,
}
use arity_arrays.Bits.{bit}
use arity_arrays.Bits.Logic.{two_pow_pos}
use arity_arrays.Bits.Words.{shl, wrapping_sub, count_ones, trailing_zeros, leading_zeros, ilog2}

pub two_pow_lt : (i w : ℕ) → i < w → 2 ^ i < 2 ^ w
two_pow_lt i zero h = absurd (omega arith)
two_pow_lt i (suc w) h = elim (Bool-cases (ltb i w)) [
  | inl e ↦ omega (arith, pow-suc 2 w, two_pow_lt i w (ground arith))
  | inr e ↦ let same : i ≡ w = ground arith in rw same (omega (arith, pow-suc 2 w, two_pow_pos w))
]

-- `1 << i` does not overflow.
pub shl-one : (w i : ℕ) → i < w → shl w 1 i ≡ 2 ^ i
shl-one w i h = let e : 1 * 2 ^ i ≡ 2 ^ i = omega arith in rw e (mod-eq_of_lt (two_pow_lt i w h))

add-mod_left' : (w y : ℕ) → y < 2 ^ w → (2 ^ w + y) % 2 ^ w ≡ y
add-mod_left' w y h = rw add-mod_left (mod-eq_of_lt h)

-- `1.wrapping_shl(i).wrapping_sub(1)`
pub wrapping_sub-one : (w x : ℕ) → x < 2 ^ w → x ≢ 0 → wrapping_sub w x 1 ≡ x - 1
wrapping_sub-one w x h n =
    let e : x + 2 ^ w - 1 ≡ 2 ^ w + (x - 1) = omega arith in
    rw e (add-mod_left' w (x - 1) (omega arith))

-- The population count counts the digits.
pub count_ones_lem : (w x : ℕ) → count_ones w x ≡ count_below (bit x) w
unfolding count_ones
count_ones_lem zero x = refl
count_ones_lem (suc w) x = ground (arith, count_below-low (bit x) w, count_ones_lem w (x / 2))

-- The lowest digit that is set, of a number that is not 0.
pub trailing_zeros_lem :
    (w x : ℕ) → x < 2 ^ w → x ≢ 0 → (trailing_zeros w x < w) × (bit x (trailing_zeros w x) ≡ true)
unfolding trailing_zeros
trailing_zeros_lem zero x h n = absurd (omega arith)
trailing_zeros_lem (suc w) x h n = ground (arith, pow-suc 2 w, trailing_zeros_lem w (x / 2))

pub trailing_zeros_lowest : (w x i : ℕ) → i < trailing_zeros w x → bit x i ≡ false
unfolding trailing_zeros
trailing_zeros_lowest zero x i h = absurd (omega arith)
trailing_zeros_lowest (suc w) x zero h = ground arith
trailing_zeros_lowest (suc w) x (suc i) h = ground (arith, trailing_zeros_lowest w (x / 2) i)

-- A word whose top digit is 0 is a word of one digit less.
pub lt_of_top : (w x : ℕ) → x < 2 ^ suc w → bit x w ≡ false → x < 2 ^ w
lt_of_top zero x h b = ground arith
lt_of_top (suc w) x h b = omega (
  arith,
  pow-suc 2 w,
  pow-suc 2 (suc w),
  lt_of_top w (x / 2) (omega (arith, pow-suc 2 (suc w))) b,
)

-- The highest digit that is set.
pub leading_zeros_lem :
    (w x : ℕ) → x < 2 ^ w → x ≢ 0 → (leading_zeros w x < w) × (bit x (ilog2 w x) ≡ true)
unfolding leading_zeros
leading_zeros_lem zero x h n = absurd (omega arith)
leading_zeros_lem (suc w) x h n = elim (Bool-cases (bit x w)) [
  | inl top ↦ rw top (ground arith)
  | inr below ↦
      let r = leading_zeros_lem w x (lt_of_top w x h below) n in
      let same : suc w - 1 - suc (leading_zeros w x) ≡ ilog2 w x = omega arith in
      rw below (omega (arith, r.0), rw same r.1)
]

pub leading_zeros_highest : (w x i : ℕ) → i < w → ilog2 w x < i → bit x i ≡ false
unfolding leading_zeros
leading_zeros_highest zero x i h p = absurd (omega arith)
leading_zeros_highest (suc w) x i h p =
    ground (arith, leading_zeros_highest w x i, Bool-cases (bit x w))

-- `x & (x - 1)` clears the lowest digit that is set.
pub clear_lowest :
    (w x i : ℕ)
    → x < 2 ^ w
    → x ≢ 0
    → (bit x i && bit (x - 1) i) ≡ (bit x i && not (i == trailing_zeros w x))
unfolding trailing_zeros
clear_lowest zero x i h n = absurd (omega arith)
clear_lowest (suc w) x zero h n = ground arith
clear_lowest (suc w) x (suc i) h n = elim (Bool-cases (x % 2 == 1)) [
  | inl odd ↦ let half : (x - 1) / 2 ≡ x / 2 = ground arith in rw (odd, half) (ground arith)
  | inr even ↦
      let half : (x - 1) / 2 ≡ x / 2 - 1 = ground arith in
      rw (even, half)
        (clear_lowest w (x / 2) i (omega (arith, pow-suc 2 w)) (ground arith) ∙ ground arith)
]
