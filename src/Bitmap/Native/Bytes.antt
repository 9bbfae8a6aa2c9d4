-- ===== src/Bitmap/Native/Bytes.antt =====
-- The little-endian byte form: `to_bytes` and `from_bytes` are inverse to each other.
use native.Mathlib.Nat.{pow-suc}
use native.Mathlib.Numerals.{towards_suc}
use arity_arrays.Common.{
  ℕ, zero, suc, ◌+◌, ◌*◌, ◌/◌, ◌%◌, ◌^◌, ◌<◌, ◌≡◌, refl, ap, arith, List, [], ◌∷◌, length, All, ◌∙◌,
}
use arity_arrays.Bitmap.Native.{to_le_bytes, from_le_bytes, to_bytes, from_bytes}

abbrev pub IsByte : ℕ → Type 0
IsByte b = b < 256

to_le_bytes-lem : (n x : ℕ) → (length (to_le_bytes n x) ≡ n) × All IsByte (to_le_bytes n x)
unfolding to_le_bytes
to_le_bytes-lem zero x = (refl, tt)
to_le_bytes-lem (suc n) x =
    let (len, bytes) = to_le_bytes-lem n (x / 256) in (ap suc len, (omega arith, bytes))

from-to_le_bytes : (n x : ℕ) → x < 256 ^ n → from_le_bytes (to_le_bytes n x) ≡ x
unfolding to_le_bytes from_le_bytes
from-to_le_bytes zero x h = omega arith
from-to_le_bytes (suc n) x h =
    omega (arith, from-to_le_bytes n (x / 256) (omega (arith, pow-suc 256 n)))

to-from_le_bytes : (bs : List ℕ) → All IsByte bs → to_le_bytes (length bs) (from_le_bytes bs) ≡ bs
unfolding to_le_bytes from_le_bytes
to-from_le_bytes [] h = refl
to-from_le_bytes (b ∷ bs) (byte, bytes) =
    let low : (b + 256 * from_le_bytes bs) % 256 ≡ b = omega arith in
    let high : (b + 256 * from_le_bytes bs) / 256 ≡ from_le_bytes bs = omega arith in
    rw (low, high) (ap (◌∷◌ b) (to-from_le_bytes bs bytes))

eight : (k : ℕ) → 2 ^ (k + 8) ≡ 256 * 2 ^ k
eight k = simp towards_suc (omega arith)

two_pow_bytes : (n : ℕ) → 2 ^ (8 * n) ≡ 256 ^ n
two_pow_bytes zero = refl
two_pow_bytes (suc n) =
    let e : 8 * suc n ≡ 8 * n + 8 = omega arith in
    rw e (eight (8 * n) ∙ omega (arith, two_pow_bytes n, pow-suc 256 n))

module _ (n : ℕ) where
  -- For a value x of a width of n bytes, `to_bytes` gives n bytes, and `from_bytes` gives x back
  -- from them.
  pub from_bytes-to_bytes :
      (x : ℕ)
      → x < 2 ^ (8 * n)
      → (from_bytes (to_bytes (8 * n) x) ≡ x)
        × (length (to_bytes (8 * n) x) ≡ n)
        × All IsByte (to_bytes (8 * n) x)
  unfolding to_bytes from_bytes
  from_bytes-to_bytes x h =
      let width : 8 * n / 8 ≡ n = omega arith in
      let (len, bytes) = to_le_bytes-lem n x in
      rw width (from-to_le_bytes n x (rw (← two_pow_bytes n) h), len, bytes)

  -- For a list of n bytes, `to_bytes` at the width of n bytes gives back the list from its
  -- `from_bytes`.
  pub to_bytes-from_bytes :
      (bs : List ℕ) → length bs ≡ n → All IsByte bs → to_bytes (8 * n) (from_bytes bs) ≡ bs
  unfolding to_bytes from_bytes
  to_bytes-from_bytes bs e h =
      let width : 8 * n / 8 ≡ length bs = omega arith in rw width (to-from_le_bytes bs h)
