-- ===== src/Bitmap/Laws.antt =====
-- What follows from the contract of `Bitmap`: the default methods never panic, and ranks are
-- counts.
use arity_arrays.Common.{
  ◌>>=◌, ℕ, ◌+◌, ◌<◌, ◌≤◌, ◌≡◌, true, false, ◌==◌, Option, none, some, count_below, count_below_lt,
  count_below_inj, count_below_set, count_below_none, count_below_mono, arith, inl, inr, refl, sym,
  ◌∙◌, ltb, indicator, ap, Bool-cases, ==_iff,
}
use arity_arrays.Niche.Laws.{try_from_usize_index}
use arity_arrays.Bitmap.{
  Bitmap, Selects, NearestBelow, NearestIn, IsNth, select, nearest_clear_at_or_below,
  nearest_clear_in, expect_index,
}

module _ (b : Bitmap) where
  open b use {
    Bits, width, width_small, zero_bits, test, with_bit, without_bit, rank, count_ones, rank_lem,
    count_ones_lem, raw_select, raw_select_lem, raw_nearest_clear_at_or_below, raw_nearest_clear_in,
    nearest_clear_at_or_below_lem, nearest_clear_in_lem, test-with_bit, test-without_bit, is_zero,
    is_zero_iff, bits_ext, test-zero_bits,
  }

  expect_index_ok : (p : ℕ) → p < width → expect_index width (some p) ≡ some (some p)
  expect_index_ok p h = rw (try_from_usize_index width p width_small h, expect_index)

  -- `select` never panics: it is none exactly past the count, and else the n-th set index.
  pub select_lem :
      (x : Bits) (n : ℕ) → (r : Option ℕ) × (select b x n ≡ some r) × Selects (test x) width n r
  unfolding select
  select_lem x n = go (raw_select x n) (raw_select_lem x n)
    where
      go :
          (r : Option ℕ)
          → Selects (test x) width n r
          → (s : Option ℕ) × (expect_index width r ≡ some s) × Selects (test x) width n s
      go none h = (none, refl, h)
      go (some p) h = (some p, expect_index_ok p h.0, h)

  pub nearest_clear_at_or_below_ok :
      (x : Bits) (from : ℕ)
      → from < width
      → (r : Option ℕ) × (nearest_clear_at_or_below b x from ≡ some r)
        × NearestBelow (test x) from r
  unfolding nearest_clear_at_or_below
  nearest_clear_at_or_below_ok x from f = go (nearest_clear_at_or_below_lem x from f)
    where
      go :
          (r : Option ℕ) × (raw_nearest_clear_at_or_below x from ≡ some r)
            × NearestBelow (test x) from r
          → (s : Option ℕ) × ((raw_nearest_clear_at_or_below x from >>= expect_index width)
              ≡ some s)
            × NearestBelow (test x) from s
      go (none, e, h) = (none, rw e, h)
      go (some p, e, h) = (some p, rw e (expect_index_ok p (omega arith)), h)

  pub nearest_clear_in_ok :
      (x : Bits) (from limit : ℕ)
      → from ≤ limit
      → limit ≤ width
      → (r : Option ℕ) × (nearest_clear_in b x from limit ≡ some r)
        × NearestIn (test x) from limit r
  unfolding nearest_clear_in
  nearest_clear_in_ok x from limit q f = go (nearest_clear_in_lem x from limit q f)
    where
      go :
          (r : Option ℕ) × (raw_nearest_clear_in x from limit ≡ some r)
            × NearestIn (test x) from limit r
          → (s : Option ℕ) × ((raw_nearest_clear_in x from limit >>= expect_index width) ≡ some s)
            × NearestIn (test x) from limit s
      go (none, e, h) = (none, rw e, h)
      go (some p, e, h) = (some p, rw e (expect_index_ok p (omega arith)), h)

  -- `select` finds the place of a set index by its rank.
  pub select_of_IsNth :
      (x : Bits) (n p : ℕ) → IsNth (test x) width n p → select b x n ≡ some (some p)
  select_of_IsNth x n p h = go (select_lem x n)
    where
      go :
          (r : Option ℕ) × (select b x n ≡ some r) × Selects (test x) width n r
          → select b x n ≡ some (some p)
      go (none, e, past) = absurd (ground (arith, count_below_lt (test x) p width h.1 h.0))
      go (some q, e, nth) =
          e
          ∙ ap (λ (t : ℕ). some (some t)) (count_below_inj (test x) q p nth.1 h.1 (nth.2 ∙ sym h.2))

  -- For any bitmap that keeps the contract, and an index i below the width whose bit is set,
  -- `select(rank(i)) == Some(i)`, without a panic.
  pub select-rank :
      (x : Bits) (i : ℕ) → i < width → test x i ≡ true → select b x (rank x i) ≡ some (some i)
  select-rank x i h e = select_of_IsNth x (rank x i) i (h, e, sym (rank_lem x i h))

  pub rank-lt-count_ones :
      (x : Bits) (i : ℕ) → i < width → test x i ≡ true → rank x i < count_ones x
  rank-lt-count_ones x i h e =
      omega (arith, rank_lem x i h, count_ones_lem x, count_below_lt (test x) i width e h)

  -- Counts after one index is set or cleared.
  pub count_below-with_bit :
      (x : Bits) (i n : ℕ)
      → i < width
      → n ≤ width
      → test x i ≡ false
      → count_below (test (with_bit x i)) n ≡ count_below (test x) n + indicator (ltb i n)
  count_below-with_bit x i n h k e =
      count_below_set (test x) (test (with_bit x i)) i n e (test-with_bit x i i h h ∙ ground arith)
        (λ j p q. test-with_bit x i j h (omega arith) ∙ ground arith)

  pub count_below-without_bit :
      (x : Bits) (i n : ℕ)
      → i < width
      → n ≤ width
      → test x i ≡ true
      → count_below (test x) n ≡ count_below (test (without_bit x i)) n + indicator (ltb i n)
  count_below-without_bit x i n h k e =
      count_below_set (test (without_bit x i)) (test x) i n
        (test-without_bit x i i h h ∙ ground arith) e
        (λ j p q. sym (test-without_bit x i j h (omega arith) ∙ ground arith))

  -- Setting a bit that is set changes nothing.
  pub with_bit_present : (x : Bits) (i : ℕ) → i < width → test x i ≡ true → with_bit x i ≡ x
  with_bit_present x i h e = bits_ext (with_bit x i) x (λ j p.
      test-with_bit x i j h p
      ∙ (let same : (i == j) ≡ true → test x j ≡ true =
            λ s. ap (test x) (sym ((==_iff i j).0 s)) ∙ e in
          ground arith))

  -- Two set indices with one rank are the same.
  pub rank_inj :
      (x : Bits) (i j : ℕ)
      → i < width
      → j < width
      → test x i ≡ true
      → test x j ≡ true
      → rank x i ≡ rank x j
      → i ≡ j
  rank_inj x i j h k e f r =
      count_below_inj (test x) i j e f (sym (rank_lem x i h) ∙ r ∙ rank_lem x j k)

  pub count_ones-with_bit :
      (x : Bits) (i : ℕ)
      → i < width
      → test x i ≡ false
      → count_ones (with_bit x i) ≡ count_ones x + 1
  count_ones-with_bit x i h e =
      count_ones_lem (with_bit x i)
      ∙ count_below-with_bit x i width h (omega arith) e
      ∙ ground (arith, count_ones_lem x)

  -- Past a bit that is set, ranks go up by one.
  pub rank-with_bit :
      (x : Bits) (i j : ℕ)
      → i < width
      → j < width
      → test x i ≡ false
      → rank (with_bit x i) j ≡ rank x j + indicator (ltb i j)
  rank-with_bit x i j h k e =
      rank_lem (with_bit x i) j k
      ∙ count_below-with_bit x i j h (omega arith) e
      ∙ ap (λ (t : ℕ). t + indicator (ltb i j)) (sym (rank_lem x j k))

  pub rank_mono : (x : Bits) (i j : ℕ) → j < width → i ≤ j → rank x i ≤ rank x j
  rank_mono x i j k h =
      omega (arith, rank_lem x i (omega arith), rank_lem x j k, count_below_mono (test x) i j h)

  pub rank_lt : (x : Bits) (i j : ℕ) → j < width → i < j → test x i ≡ true → rank x i < rank x j
  rank_lt x i j k h e =
      omega (arith, rank_lem x i (omega arith), rank_lem x j k, count_below_lt (test x) i j e h)

  pub rank-le-count_ones : (x : Bits) (i : ℕ) → i < width → rank x i ≤ count_ones x
  rank-le-count_ones x i h =
      omega
        (arith, rank_lem x i h, count_ones_lem x, count_below_mono (test x) i width (omega arith))

  pub ne_of_test : (x : Bits) (i j : ℕ) → test x i ≡ true → test x j ≡ false → (i == j) ≡ false
  ne_of_test x i j e f = elim (Bool-cases (i == j)) [
    | inl same ↦ let g : test x j ≡ true = rw (← (==_iff i j).0 same) e in cc
    | inr other ↦ other
  ]

  pub ne_of_test_sym : (x : Bits) (i j : ℕ) → test x i ≡ false → test x j ≡ true → (i == j) ≡ false
  ne_of_test_sym x i j e f = let g = ne_of_test x j i f e in ground arith

  -- Ranks and the count after a set bit is cleared.
  pub count_ones-without_bit :
      (x : Bits) (i : ℕ)
      → i < width
      → test x i ≡ true
      → count_ones x ≡ count_ones (without_bit x i) + 1
  count_ones-without_bit x i h e =
      count_ones_lem x
      ∙ count_below-without_bit x i width h (omega arith) e
      ∙ ground (arith, count_ones_lem (without_bit x i))

  pub rank-without_bit :
      (x : Bits) (i j : ℕ)
      → i < width
      → j < width
      → test x i ≡ true
      → rank x j ≡ rank (without_bit x i) j + indicator (ltb i j)
  rank-without_bit x i j h k e =
      rank_lem x j k
      ∙ count_below-without_bit x i j h (omega arith) e
      ∙ ap (λ (t : ℕ). t + indicator (ltb i j)) (sym (rank_lem (without_bit x i) j k))

  pub count_ones-zero_bits : count_ones zero_bits ≡ 0
  count_ones-zero_bits =
      count_ones_lem zero_bits ∙ count_below_none (test zero_bits) width test-zero_bits

  -- A bitmap with one bit set.
  pub count_ones-single : (i : ℕ) → i < width → count_ones (with_bit zero_bits i) ≡ 1
  count_ones-single i h =
      count_ones-with_bit zero_bits i h (test-zero_bits i h)
      ∙ ap (λ (t : ℕ). t + 1) count_ones-zero_bits

  pub rank-single : (i : ℕ) → i < width → rank (with_bit zero_bits i) i ≡ 0
  rank-single i h =
      rank-with_bit zero_bits i i h h (test-zero_bits i h)
      ∙ ground (
        arith,
        rank_lem zero_bits i h,
        count_below_none (test zero_bits) i (λ j k. test-zero_bits j (omega arith)),
      )
