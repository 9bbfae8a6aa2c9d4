-- ===== src/Bits/Step.antt =====
-- One digit of the native `bit_and` and `bit_or`. Their definition recurs on digits with fuel; the
-- fuel is dropped here.
use Prim.Native.Nat.{digits, bit_and-bitwise, bit_or-bitwise}
use native.Mathlib.Nat.{le_refl}
use arity_arrays.Common.{
  ℕ, zero, suc, ◌+◌, ◌*◌, ◌/◌, ◌%◌, ◌≤◌, min, max, bit_and, bit_or, ◌≡◌, refl, arith,
}

module _ (rest : ℕ → ℕ) (op : ℕ → ℕ → ℕ) where
  -- Two amounts of fuel that are enough give the same number.
  digits_agree : (f g x y : ℕ) → x ≤ f → x ≤ g → digits rest op f x y ≡ digits rest op g x y
  digits_agree zero zero x y p q = refl
  digits_agree (suc f) (suc g) zero y p q = refl
  digits_agree (suc f) (suc g) (suc x) y p q =
      rw (digits_agree f g (suc x / 2) (y / 2) (omega arith) (omega arith))
  digits_agree zero (suc g) zero y p q = refl
  digits_agree zero (suc g) (suc x) y p q = absurd (omega arith)
  digits_agree (suc f) zero zero y p q = refl
  digits_agree (suc f) zero (suc x) y p q = absurd (omega arith)

  -- The fuel that one digit leaves over is enough for the others.
  digits_next :
      (x y : ℕ)
      → digits rest op x (suc x / 2) (y / 2) ≡ digits rest op (suc x / 2) (suc x / 2) (y / 2)
  digits_next x y = digits_agree x (suc x / 2) (suc x / 2) (y / 2) (omega arith) (le_refl _)

pub bit_and_step : (x y : ℕ) → bit_and x y ≡ bit_and (x / 2) (y / 2) * 2 + min (x % 2) (y % 2)
bit_and_step zero y = simp bit_and-bitwise (omega arith)
bit_and_step (suc x) y = simp bit_and-bitwise (omega (arith, digits_next (λ _. 0) min x y))

pub bit_or_step : (x y : ℕ) → bit_or x y ≡ bit_or (x / 2) (y / 2) * 2 + max (x % 2) (y % 2)
bit_or_step zero y = simp bit_or-bitwise (omega arith)
bit_or_step (suc x) y = simp bit_or-bitwise (omega (arith, digits_next (λ b. b) max x y))
