-- ===== src/Common/Count.antt =====
-- The number of places below a bound at which a test holds.
use Prim.Native.Nat.{ℕ, zero, suc, ◌+◌, ◌≤◌, ◌<◌}
use mathlib.Core.Path.{◌≡◌, refl, ap, ◌∙◌}
use mathlib.Core.Logic.{◌≢◌, inl, inr}
use mathlib.Core.Bool.{Bool, true, false, ◌&&◌}
use native.Mathlib.Nat.{add-zero, add-suc}
use native.Mathlib.Omega.{arith}
use arity_arrays.Common.Tests.{ltb, Bool-cases}

-- 1 for a test that holds.
abbrev pub indicator : Bool → ℕ
indicator true = 1
indicator false = 0

abbrev pub count_below : (ℕ → Bool) → ℕ → ℕ
count_below f zero = 0
count_below f (suc n) = count_below f n + indicator (f n)

-- The same count, from the low end.
pub count_below-low :
    (f : ℕ → Bool) (n : ℕ)
    → count_below f (suc n) ≡ indicator (f 0) + count_below (λ i. f (suc i)) n
count_below-low f zero = omega arith
count_below-low f (suc n) = omega (arith, count_below-low f n)

pub count_below-le : (f : ℕ → Bool) (n : ℕ) → count_below f n ≤ n
count_below-le f zero = omega arith
count_below-le f (suc n) = ground (arith, count_below-le f n)

pub count_below_mono : (f : ℕ → Bool) (m n : ℕ) → m ≤ n → count_below f m ≤ count_below f n
count_below_mono f m zero h = ground arith
count_below_mono f m (suc n) h = ground (arith, count_below_mono f m n)

-- A place that holds is counted.
pub count_below_lt :
    (f : ℕ → Bool) (m n : ℕ) → f m ≡ true → m < n → count_below f m < count_below f n
count_below_lt f m zero e h = absurd (omega arith)
count_below_lt f m (suc n) e h = ground (arith, count_below_lt f m n)

-- Two places that hold and have the same count below them are the same.
pub count_below_inj :
    (f : ℕ → Bool) (m n : ℕ) → f m ≡ true → f n ≡ true → count_below f m ≡ count_below f n → m ≡ n
count_below_inj f m n p q e = ground (arith, count_below_lt f m n p, count_below_lt f n m q)

pub count_below_ext :
    (f g : ℕ → Bool) (n : ℕ) → ((i : ℕ) → i < n → f i ≡ g i) → count_below f n ≡ count_below g n
count_below_ext f g zero h = refl
count_below_ext f g (suc n) h =
    ground (arith, h n, count_below_ext f g n (λ i p. h i (omega arith)))

pub count_below_none :
    (f : ℕ → Bool) (n : ℕ) → ((i : ℕ) → i < n → f i ≡ false) → count_below f n ≡ 0
count_below_none f zero h = refl
count_below_none f (suc n) h = ground (arith, h n, count_below_none f n (λ i p. h i (omega arith)))

-- What one place that comes to hold adds to the count.
pub count_below_set :
    (f g : ℕ → Bool) (k n : ℕ)
    → f k ≡ false
    → g k ≡ true
    → ((i : ℕ) → i < n → i ≢ k → g i ≡ f i)
    → count_below g n ≡ count_below f n + indicator (ltb k n)
count_below_set f g k zero p q h = ground arith
count_below_set f g k (suc n) p q h =
    ground (arith, h n, count_below_set f g k n p q (λ i r. h i (omega arith)))

-- A count up to a sum splits.
pub count_below-add :
    (f : ℕ → Bool) (a b : ℕ)
    → count_below f (a + b) ≡ count_below f a + count_below (λ i. f (a + i)) b
count_below-add f a zero = rw add-zero (omega arith)
count_below-add f a (suc b) = rw add-suc (omega (arith, count_below-add f a b))

-- A test cut off at k counts up to k.
pub count_below_cut :
    (f : ℕ → Bool) (k n : ℕ) → k ≤ n → count_below (λ i. f i && ltb i k) n ≡ count_below f k
count_below_cut f k zero h = let e : k ≡ 0 = omega arith in rw e
count_below_cut f k (suc n) h = elim (Bool-cases (ltb n k)) [
  | inl e ↦
      let whole : suc n ≡ k = ground arith in
      count_below_ext (λ i. f i && ltb i k) f (suc n) (λ i p. ground arith)
      ∙ ap (count_below f) whole
  | inr e ↦ ground (arith, count_below_cut f k n)
]
