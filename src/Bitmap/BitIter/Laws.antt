-- ===== src/Bitmap/BitIter/Laws.antt =====
-- The iterator hands out the set bits in ascending order, each once, and `fold` visits them so.
use mathlib.Core.List.{foldl, reverse, reverse-append}
use arity_arrays.Common.{
  ℕ, zero, suc, ◌≤◌, ◌≡◌, ◌≢◌, true, false, some, count_below-le, length-append, arith, inl, inr,
  refl, sym, ◌∙◌, ap, Bool-cases, List, [], ◌∷◌, ◌++◌, length, cons_inj, snoc_inj, snoc-ne-nil,
}
use arity_arrays.Iteration.{Refines}
use arity_arrays.Iteration.Draws.{End, run, draws, run_refines}
use arity_arrays.Niche.Laws.{try_from_usize_index}
use arity_arrays.Bitmap.{Bitmap}
use arity_arrays.Bitmap.Members.{
  members, members_ext, members-none, members-least, members-greatest, length-members, without,
}
use arity_arrays.Bitmap.BitIter.{bit_next, bit_next_back, bit_len, bit_iter, fold, rfold}

module _ (b : Bitmap) where
  open b use {
    Bits, width, width_small, is_zero, is_zero_iff, zero_bits, test, test-zero_bits, bits_ext,
    count_ones, count_ones_lem, raw_lowest_pos, raw_highest_pos, raw_clear_lowest,
    raw_clear_highest, lowest_lem, highest_lem, test-clear_lowest, test-clear_highest,
  }

  -- The set bits, ascending.
  abbrev pub set_bits : Bits → List ℕ
  set_bits x = members (test x) width

  set_bits-zero : (x : Bits) → is_zero x ≡ true → set_bits x ≡ []
  set_bits-zero x e =
      let z : x ≡ zero_bits = (is_zero_iff x).0 e in
      rw z (members-none (test zero_bits) width test-zero_bits)

  pub set_bits-lowest :
      (x : Bits) → is_zero x ≡ false → set_bits x ≡ raw_lowest_pos x ∷ set_bits (raw_clear_lowest x)
  set_bits-lowest x e =
      let (inside, set, below) = lowest_lem x e in
      members-least (test x) (raw_lowest_pos x) width inside set below
      ∙ ap (◌∷◌ (raw_lowest_pos x)) (
          members_ext (without (test x) (raw_lowest_pos x)) (test (raw_clear_lowest x)) width
            (λ i p. sym (test-clear_lowest x i e p)))

  pub set_bits-highest :
      (x : Bits)
      → is_zero x ≡ false
      → set_bits x ≡ set_bits (raw_clear_highest x) ++ raw_highest_pos x ∷ []
  set_bits-highest x e =
      let (inside, set, above) = highest_lem x e in
      members-greatest (test x) (raw_highest_pos x) width inside set above
      ∙ ap (λ (t : List ℕ). t ++ raw_highest_pos x ∷ [])
          (members_ext (without (test x) (raw_highest_pos x)) (test (raw_clear_highest x)) width
            (λ i p. sym (test-clear_highest x i e p)))

  abbrev pub BitView : Bits → List ℕ → Type 0
  BitView x xs = set_bits x ≡ xs

  zero_of_nil : (x : Bits) → set_bits x ≡ [] → is_zero x ≡ true
  zero_of_nil x e = elim (Bool-cases (is_zero x)) [
    | inl z ↦ z
    | inr n ↦ let f = sym (set_bits-lowest x n) ∙ e in cc
  ]

  nonzero_of : (x : Bits) → set_bits x ≢ [] → is_zero x ≡ false
  nonzero_of x h = elim (Bool-cases (is_zero x)) [
    | inl z ↦ absurd (h (set_bits-zero x z))
    | inr n ↦ n
  ]

  pub bit_iter-Refines : Refines (bit_iter b) BitView
  unfolding bit_next bit_next_back bit_len
  bit_iter-Refines = record {
    next_nil = λ s v. (s, rw (zero_of_nil s v), v);
    next_cons = λ s x xs v.
        let n = nonzero_of s (λ e. cc) in
        let (head, tail) = cons_inj (sym (set_bits-lowest s n) ∙ v) in
        (
          raw_clear_lowest s,
          rw (n, try_from_usize_index width (raw_lowest_pos s) width_small (lowest_lem s n).0)
              (ap (λ (t : ℕ). some (some t, raw_clear_lowest s)) head),
          tail,
        );
    next_back_nil = λ s v. (s, rw (zero_of_nil s v), v);
    next_back_snoc = λ s x xs v.
        let n = nonzero_of s (λ e. snoc-ne-nil x xs (sym v ∙ e)) in
        let (last, rest) =
          snoc_inj (raw_highest_pos s) x (set_bits (raw_clear_highest s)) xs
            (sym (set_bits-highest s n) ∙ v) in
        (
          raw_clear_highest s,
          rw (n, try_from_usize_index width (raw_highest_pos s) width_small (highest_lem s n).0)
              (ap (λ (t : ℕ). some (some t, raw_clear_highest s)) last),
          rest,
        );
    len_lem = λ s xs v. count_ones_lem s ∙ sym (length-members (test s) width) ∙ ap length v;
  }

  zero_of_short : (x : Bits) → length (set_bits x) ≤ 0 → is_zero x ≡ true
  zero_of_short x h = elim (Bool-cases (is_zero x)) [
    | inl z ↦ z
    | inr n ↦ absurd (omega (arith, ap length (set_bits-lowest x n)))
  ]

  fold_fuel :
      {Acc : Type 0} (f : Acc → ℕ → Acc) (fuel : ℕ) (x : Bits) (acc : Acc)
      → length (set_bits x) ≤ fuel
      → fold b f fuel x acc ≡ some (foldl f acc (set_bits x))
  unfolding fold
  fold_fuel f zero x acc h = let z = zero_of_short x h in rw (z, set_bits-zero x z)
  fold_fuel f (suc fuel) x acc h = elim (Bool-cases (is_zero x)) [
    | inl z ↦ rw (z, set_bits-zero x z)
    | inr n ↦
        rw
          (
            n,
            try_from_usize_index width (raw_lowest_pos x) width_small (lowest_lem x n).0,
            set_bits-lowest x n,
          )
          (fold_fuel f fuel (raw_clear_lowest x) (f acc (raw_lowest_pos x))
            (omega (arith, ap length (set_bits-lowest x n))))
  ]

  rfold_fuel :
      {Acc : Type 0} (f : Acc → ℕ → Acc) (fuel : ℕ) (x : Bits) (acc : Acc)
      → length (set_bits x) ≤ fuel
      → rfold b f fuel x acc ≡ some (foldl f acc (reverse (set_bits x)))
  unfolding rfold
  rfold_fuel f zero x acc h = let z = zero_of_short x h in rw (z, set_bits-zero x z)
  rfold_fuel f (suc fuel) x acc h = elim (Bool-cases (is_zero x)) [
    | inl z ↦ rw (z, set_bits-zero x z)
    | inr n ↦
        let e = set_bits-highest x n in
        let shorter =
          ap length e ∙ length-append (set_bits (raw_clear_highest x)) (raw_highest_pos x ∷ []) in
        rw
          (
            n,
            try_from_usize_index width (raw_highest_pos x) width_small (highest_lem x n).0,
            e,
            reverse-append (set_bits (raw_clear_highest x)) (raw_highest_pos x ∷ []),
          )
          (rfold_fuel f fuel (raw_clear_highest x) (f acc (raw_highest_pos x))
            (omega (arith, shorter)))
  ]

-- For any bitmap that keeps the contract, `fold` and `rfold` end within `width` rounds without a
-- panic, and visit the set bits in ascending
-- and in descending order.
pub fold_lem :
    {Acc : Type 0} (b : Bitmap) (f : Acc → ℕ → Acc) (x : b.Bits) (acc : Acc)
    → (fold b f b.width x acc ≡ some (foldl f acc (set_bits b x)))
      × (rfold b f b.width x acc ≡ some (foldl f acc (reverse (set_bits b x))))
fold_lem b f x acc =
    let h = length-members (b.test x) b.width in
    let enough : length (set_bits b x) ≤ b.width =
      omega (arith, h, count_below-le (b.test x) b.width) in
    (fold_fuel b f b.width x acc enough, rfold_fuel b f b.width x acc enough)

-- Draws from `bits()`, from either end and in any order, never panic, hand out the set bits of the
-- snapshot in ascending order from the front and descending from the back, each once, and `len` is
-- the number left.
pub bit_draws :
    (b : Bitmap) (x : b.Bits) (ends : List End)
    → (s : b.Bits) × (run (bit_iter b) ends x ≡ some ((draws ends (set_bits b x)).0, s))
      × (bit_len b s ≡ length (draws ends (set_bits b x)).1)
bit_draws b x ends =
    let it = bit_iter-Refines b in
    let (s, e, v) = run_refines it ends x (set_bits b x) refl in (s, e, it.len_lem s _ v)
