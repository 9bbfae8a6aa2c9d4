-- ===== src/Bitmap/Words.antt =====
-- The native integers of width 2 ^ (k + 1) as an implementation of `Bitmap`: `u8` to `u128` are
-- k = 2 to 6. A value is a number with the proof that it fits.
use mathlib.Core.HLevel.{Σ_prop_path}
use native.Mathlib.Bridge.{le_prop}
use arity_arrays.Common.{
  ℕ, suc, ◌<◌, ◌≤◌, ◌^◌, ◌≡◌, ◌≢◌, true, false, not, ◌&&◌, ◌||◌, ◌==◌, Option, none, some,
  count_below, arith, ◌↔◌, sym, ◌∙◌, inl, inr, ap, count_below_ext, ==_iff, refl,
}
use arity_arrays.Bits.{bit}
use arity_arrays.Bits.Logic.{two_pow_pos, bit_ext, bit-zero}
use arity_arrays.Bitmap.{Operations, Bitmap, Selects, NearestBelow, NearestIn}
use arity_arrays.Bitmap.Native
use arity_arrays.Bitmap.Native.Digits
use arity_arrays.Bitmap.Native.Select.{raw_select_lem}
use arity_arrays.Bitmap.Native.Holes

abbrev pub Word : ℕ → Type 0
Word w = (x : ℕ) × (x < 2 ^ w)

module _ (w : ℕ) where
  abbrev pub word_operations : Operations
  word_operations = record {
    Bits = Word w;
    width = w;
    zero_bits = (0, two_pow_pos w);
    is_zero = λ b. Native.is_zero w b.0;
    count_ones = λ b. Native.count_ones w b.0;
    test = λ b. Native.test w b.0;
    with_bit = λ b i. (Native.with_bit w b.0 i, Digits.with_bit-IsWord w b.0 i b.1);
    without_bit = λ b i. (Native.without_bit w b.0 i, Digits.without_bit-IsWord w b.0 i b.1);
    rank = λ b. Native.rank w b.0;
    raw_lowest_pos = λ b. Native.raw_lowest_pos w b.0;
    raw_highest_pos = λ b. Native.raw_highest_pos w b.0;
    raw_clear_lowest =
        λ b. (Native.raw_clear_lowest w b.0, Digits.raw_clear_lowest-IsWord w b.0 b.1);
    raw_clear_highest =
        λ b. (Native.raw_clear_highest w b.0, Digits.raw_clear_highest-IsWord w b.0 b.1);
    raw_select = λ b. Native.raw_select w b.0;
    raw_nearest_clear_at_or_below = λ b. Native.raw_nearest_clear_at_or_below w b.0;
    raw_nearest_clear_in = λ b. Native.raw_nearest_clear_in w b.0;
  }

  pub test-bit : (b : Word w) (i : ℕ) → i < w → word_operations.test b i ≡ bit b.0 i
  test-bit b i h = Digits.test-bit w b.0 i h

  pub count_below-test :
      (b : Word w) (n : ℕ)
      → n ≤ w
      → count_below (word_operations.test b) n ≡ count_below (bit b.0) n
  count_below-test b n h =
      count_below_ext (word_operations.test b) (bit b.0) n (λ i p. test-bit b i (omega arith))

  pub Word-ext :
      (a b : Word w)
      → ((i : ℕ) → i < w → word_operations.test a i ≡ word_operations.test b i)
      → a ≡ b
  Word-ext a b h =
      Σ_prop_path (λ n. le_prop)
        (bit_ext w a.0 b.0 a.1 b.1 (λ i p. sym (test-bit a i p) ∙ h i p ∙ test-bit b i p))

  pub is_zero_iff : (b : Word w) → (Native.is_zero w b.0 ≡ true) ↔ (b ≡ word_operations.zero_bits)
  unfolding Native.is_zero
  is_zero_iff b = (
    λ e. Σ_prop_path (λ n. le_prop) ((==_iff b.0 0).0 e),
    λ e. (==_iff b.0 0).1 (ap (λ (t : Word w). t.0) e),
  )

  pub ne_zero : (b : Word w) → Native.is_zero w b.0 ≡ false → b.0 ≢ 0
  unfolding Native.is_zero
  ne_zero b h = ground arith

  pub select_lem :
      (k : ℕ) (b : Word w) (n : ℕ)
      → w ≡ 2 ^ suc k
      → Selects (word_operations.test b) w n (Native.raw_select w b.0 n)
  select_lem k b n e = elim (raw_select_lem w k b.0 n e) [
    | inl (past, found) ↦
        rw (found, count_below-test b w (omega arith)) (omega (arith, Digits.count_ones_lem w b.0))
    | inr (q, found, inside, under, nth) ↦
        rw (found, test-bit b q inside, count_below-test b q (omega arith)) (inside, nth.0, nth.1)
  ]

  pub at_or_below_lem :
      (b : Word w) (from : ℕ) (r : Option ℕ)
      → from < w
      → Holes.IsNearestBelow w b.0 from r
      → NearestBelow (word_operations.test b) from r
  at_or_below_lem b from none f h = λ i p. test-bit b i (omega arith) ∙ h i p
  at_or_below_lem b from (some p) f (le, clear, full) =
      (le, test-bit b p (omega arith) ∙ clear, λ i q r. test-bit b i (omega arith) ∙ full i q r)

  pub in_lem :
      (b : Word w) (from limit : ℕ) (r : Option ℕ)
      → limit ≤ w
      → Holes.IsNearestIn w b.0 from limit r
      → NearestIn (word_operations.test b) from limit r
  in_lem b from limit none f h = λ i p q. test-bit b i (omega arith) ∙ h i p q
  in_lem b from limit (some p) f (ge, lt, clear, full) =
      (ge, lt, test-bit b p (omega arith) ∙ clear, λ i q r. test-bit b i (omega arith) ∙ full i q r)

  pub test-with_bit :
      (b : Word w) (i j : ℕ)
      → i < w
      → j < w
      → word_operations.test (word_operations.with_bit b i) j
        ≡ (word_operations.test b j || (i == j))
  test-with_bit b i j p q =
      rw (test-bit (word_operations.with_bit b i) j q, test-bit b j q)
        (Digits.bit-with_bit w b.0 i j p)

  pub test-without_bit :
      (b : Word w) (i j : ℕ)
      → i < w
      → j < w
      → word_operations.test (word_operations.without_bit b i) j
        ≡ (word_operations.test b j && not (i == j))
  test-without_bit b i j p q =
      rw (test-bit (word_operations.without_bit b i) j q, test-bit b j q)
        (Digits.bit-without_bit w b.0 i j p q)

  pub test-clear_lowest :
      (b : Word w) (i : ℕ)
      → Native.is_zero w b.0 ≡ false
      → i < w
      → word_operations.test (word_operations.raw_clear_lowest b) i
        ≡ (word_operations.test b i && not (i == Native.raw_lowest_pos w b.0))
  test-clear_lowest b i e p =
      rw (test-bit (word_operations.raw_clear_lowest b) i p, test-bit b i p)
        (Digits.bit-clear_lowest w b.0 i b.1 (ne_zero b e))

  pub test-clear_highest :
      (b : Word w) (i : ℕ)
      → Native.is_zero w b.0 ≡ false
      → i < w
      → word_operations.test (word_operations.raw_clear_highest b) i
        ≡ (word_operations.test b i && not (i == Native.raw_highest_pos w b.0))
  test-clear_highest b i e p =
      rw (test-bit (word_operations.raw_clear_highest b) i p, test-bit b i p)
        (Digits.bit-clear_highest w b.0 i b.1 (ne_zero b e) p)

-- The native bitmaps keep the contract of `Bitmap`, at every width that is a power of two up to 256.
unfoldable pub word_bitmap : (k : ℕ) → 2 ^ suc k ≤ 256 → Bitmap
word_bitmap k small = record {
  operations = word_operations (2 ^ suc k);
  width_pos = two_pow_pos (suc k);
  width_small = small;
  bits_ext = Word-ext w;
  test-zero_bits = λ i p. test-bit w (0, two_pow_pos w) i p ∙ bit-zero i;
  is_zero_iff = is_zero_iff w;
  test-with_bit = test-with_bit w;
  test-without_bit = test-without_bit w;
  rank_lem = λ b i p. Digits.rank_lem w b.0 i p ∙ sym (count_below-test w b i (omega arith));
  count_ones_lem = λ b. Digits.count_ones_lem w b.0 ∙ sym (count_below-test w b w (omega arith));
  lowest_lem = λ b e.
      let (inside, set, below) = Digits.lowest_lem w b.0 b.1 (ne_zero w b e) in
      (inside, test-bit w b _ inside ∙ set, λ i p. test-bit w b i (omega arith) ∙ below i p);
  highest_lem = λ b e.
      let (inside, set, above) = Digits.highest_lem w b.0 b.1 (ne_zero w b e) in
      (inside, test-bit w b _ inside ∙ set, λ i p q. test-bit w b i p ∙ above i p q);
  test-clear_lowest = test-clear_lowest w;
  test-clear_highest = test-clear_highest w;
  raw_select_lem = λ b n. select_lem w k b n refl;
  nearest_clear_at_or_below_lem = λ b from p.
      let (r, e, h) = Holes.nearest_clear_at_or_below_lem w b.0 from b.1 p in
      (r, e, at_or_below_lem w b from r p h);
  nearest_clear_in_lem = λ b from limit q p.
      let (r, e, h) = Holes.nearest_clear_in_lem w b.0 from limit b.1 q p in
      (r, e, in_lem w b from limit r p h);
}
  where
    w : ℕ
    w = 2 ^ suc k
