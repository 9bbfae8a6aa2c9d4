-- ===== src/Packed/Iter/Laws.antt =====
-- `PresentIter` and `IntoIter` hand out the entries of the array in ascending order.
use mathlib.Core.List.{map-append}
use arity_arrays.Common.{
  ℕ, suc, ◌+◌, ◌-◌, ◌≡◌, refl, ◌∙◌, ap, Option, some, arith, List, [], ◌∷◌, ◌++◌, map, length,
  length-append,
}
use arity_arrays.Memory.{Block}
use arity_arrays.Iteration.{Refines}
use arity_arrays.Bitmap.{Bitmap}
use arity_arrays.Bitmap.BitIter.{bit_len}
use arity_arrays.Bitmap.BitIter.Laws.{set_bits, bit_iter-Refines}
use arity_arrays.Packed.Iter.{
  PresentIter, IntoIter, elem_at_rank, present_next, present_next_back, present_len, present_iter,
  into_next, into_next_back, into_len, moving_iter,
}

-- The indices of a list of entries.
abbrev pub indices : {T : Type 0} → List (ℕ × T) → List ℕ
indices xs = map (λ x. x.0) xs

module _ (b : Bitmap) {T : Type 0} where
  open b use {
    Bits, width, zero_bits, count_ones, test, rank, rank_lem, count_ones_lem, test-zero_bits,
  }

  -- The entries stand in the slots from r on.
  abbrev pub Stored : Option (Block T) → ℕ → List (ℕ × T) → Type 0
  Stored ptr r [] = Unit
  Stored ptr r (x ∷ xs) = (elem_at_rank b ptr x.0 r ≡ some x) × Stored ptr (suc r) xs

  pub Stored-snoc :
      (ptr : Option (Block T)) (r : ℕ) (xs : List (ℕ × T)) (x : ℕ × T)
      → Stored ptr r xs
      → elem_at_rank b ptr x.0 (r + length xs) ≡ some x
      → Stored ptr r (xs ++ x ∷ [])
  Stored-snoc ptr r [] x h e = let z : r + 0 ≡ r = omega arith in (rw z at e, tt)
  Stored-snoc ptr r (y ∷ xs) x h e = (
    h.0,
    Stored-snoc ptr (suc r) xs x h.1
        (let z : suc r + length xs ≡ r + suc (length xs) = omega arith in rw z e),
  )

  Stored-unsnoc :
      (ptr : Option (Block T)) (r : ℕ) (xs : List (ℕ × T)) (x : ℕ × T)
      → Stored ptr r (xs ++ x ∷ [])
      → Stored ptr r xs × (elem_at_rank b ptr x.0 (r + length xs) ≡ some x)
  Stored-unsnoc ptr r [] x h = let z : r + 0 ≡ r = omega arith in (tt, rw z h.0)
  Stored-unsnoc ptr r (y ∷ xs) x h =
      let (rest, last) = Stored-unsnoc ptr (suc r) xs x h.1 in
      let z : suc r + length xs ≡ r + suc (length xs) = omega arith in ((h.0, rest), rw (← z) last)

  length-indices : (xs : List (ℕ × T)) → length (indices xs) ≡ length xs
  length-indices [] = refl
  length-indices (x ∷ xs) = ap suc (length-indices xs)

  -- What a `PresentIter` and an `IntoIter` have left.
  abbrev pub PresentView : PresentIter b T → List (ℕ × T) → Type 0
  PresentView it xs =
      (set_bits b it.bits ≡ indices xs)
      × Stored it.data_ptr it.front_rank xs
      × (it.front_rank + length xs + it.back_consumed ≡ it.count)

  abbrev pub IntoView : IntoIter b T → List (ℕ × T) → Type 0
  IntoView it xs =
      (set_bits b it.bits ≡ indices xs)
      × Stored it.ptr it.front xs
      × (it.front + length xs ≡ it.back)

  bit_len_lem :
      (bits : Bits) (xs : List (ℕ × T)) → set_bits b bits ≡ indices xs → bit_len b bits ≡ length xs
  bit_len_lem bits xs v = (bit_iter-Refines b).len_lem bits (indices xs) v ∙ length-indices xs

  pub present_iter-Refines : Refines (present_iter b) PresentView
  unfolding present_next present_next_back present_len
  present_iter-Refines = record {
    next_nil = λ it (v, stored, counted).
        let (bits, e, v') = (bit_iter-Refines b).next_nil it.bits v in
        (record it { bits = bits }, rw e, (v', stored, counted));
    next_cons = λ it x xs (v, stored, counted).
        let (bits, e, v') = (bit_iter-Refines b).next_cons it.bits x.0 (indices xs) v in
        let (now, later) = stored in
        let next : it.front_rank + 1 ≡ suc it.front_rank = omega arith in
        (
          record it { bits = bits; front_rank = it.front_rank + 1 },
          rw (e, now),
          (v', rw next later, omega arith),
        );
    next_back_nil = λ it (v, stored, counted).
        let (bits, e, v') = (bit_iter-Refines b).next_back_nil it.bits v in
        (record it { bits = bits }, rw e, (v', stored, counted));
    next_back_snoc = λ it x xs (v, stored, counted).
        let (bits, e, v') =
          (bit_iter-Refines b).next_back_snoc it.bits x.0 (indices xs)
            (v ∙ map-append (λ t. t.0) xs (x ∷ [])) in
        let (rest, last) = Stored-unsnoc it.data_ptr it.front_rank xs x stored in
        let size = length-append xs (x ∷ []) in
        let place : it.count - 1 - it.back_consumed ≡ it.front_rank + length xs = omega arith in
        (
          record it { bits = bits; back_consumed = it.back_consumed + 1 },
          rw (e, place, last),
          (v', rest, omega arith),
        );
    len_lem = λ it xs (v, stored, counted). bit_len_lem it.bits xs v;
  }

  pub moving_iter-Refines : Refines (moving_iter b) IntoView
  unfolding into_next into_next_back into_len
  moving_iter-Refines = record {
    next_nil = λ it (v, stored, counted).
        let (bits, e, v') = (bit_iter-Refines b).next_nil it.bits v in
        (record it { bits = bits }, rw e, (v', stored, counted));
    next_cons = λ it x xs (v, stored, counted).
        let (bits, e, v') = (bit_iter-Refines b).next_cons it.bits x.0 (indices xs) v in
        let (now, later) = stored in
        let next : it.front + 1 ≡ suc it.front = omega arith in
        (
          record it { bits = bits; front = it.front + 1 },
          rw (e, now),
          (v', rw next later, omega arith),
        );
    next_back_nil = λ it (v, stored, counted).
        let (bits, e, v') = (bit_iter-Refines b).next_back_nil it.bits v in
        (record it { bits = bits }, rw e, (v', stored, counted));
    next_back_snoc = λ it x xs (v, stored, counted).
        let (bits, e, v') =
          (bit_iter-Refines b).next_back_snoc it.bits x.0 (indices xs)
            (v ∙ map-append (λ t. t.0) xs (x ∷ [])) in
        let (rest, last) = Stored-unsnoc it.ptr it.front xs x stored in
        let size = length-append xs (x ∷ []) in
        let place : it.back - 1 ≡ it.front + length xs = omega arith in
        (
          record it { bits = bits; back = it.back - 1 },
          rw (e, place, last),
          (v', rest, omega arith),
        );
    len_lem = λ it xs (v, stored, counted). bit_len_lem it.bits xs v;
  }
