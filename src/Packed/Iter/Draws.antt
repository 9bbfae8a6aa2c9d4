-- ===== src/Packed/Iter/Draws.antt =====
-- `iter_present` and `into_iter` of a valid array start at its entries, and draws hand them out.
use mathlib.Core.List.{map-append, append-nil}
use arity_arrays.Common.{
  ℕ, zero, suc, ◌+◌, ◌≤◌, ◌≡◌, refl, sym, ◌∙◌, none, some, arith, Bool-cases, inl, inr, List, [],
  ◌∷◌, ◌++◌, length, length-append, All, All-snoc, count_below,
}
use arity_arrays.Memory.{read_in}
use arity_arrays.Iteration.Draws.{End, run, draws, run_refines}
use arity_arrays.Bitmap.{Bitmap}
use arity_arrays.Bitmap.Members.{members, members-none}
use arity_arrays.Bitmap.BitIter.Laws.{set_bits}
use arity_arrays.Packed.{Inner, PackedArray, bitmap}
use arity_arrays.Packed.Laws.{IsValidInner, IsValid, lookup_inner, lookup, rank_in, value_of}
use arity_arrays.Packed.Iter.{
  PresentIter, IntoIter, iter_present, elem_at_rank, present_len, present_iter, into_iter, into_len,
  moving_iter,
}
use arity_arrays.Packed.Iter.Laws.{
  indices, Stored, Stored-snoc, PresentView, IntoView, present_iter-Refines, moving_iter-Refines,
}

module _ (b : Bitmap) {T : Type 0} where
  open b use {
    Bits, width, zero_bits, count_ones, test, rank, rank_lem, count_ones_lem, test-zero_bits,
  }

  -- The entries of a valid block with index below n, in ascending order.
  module _ (p : Inner b T) (valid : IsValidInner b p) where
    abbrev Lists : ℕ → List (ℕ × T) → Type 0
    Lists n xs =
        (members (test p.bitmap) n ≡ indices xs)
        × Stored b (some p.elements) 0 xs
        × All (λ x. lookup_inner b p x.0 ≡ some x.1) xs
        × (length xs ≡ count_below (test p.bitmap) n)

    entries_below : (n : ℕ) → n ≤ width → (xs : List (ℕ × T)) × Lists n xs
    unfolding elem_at_rank
    entries_below zero h = ([], (refl, tt, tt, refl))
    entries_below (suc n) h =
        let (xs, (listed, stored, held, counted)) = entries_below n (omega arith) in
        elim (Bool-cases (test p.bitmap n)) [
          | inl e ↦
              let (v, reads, slot) = value_of b p n valid (omega arith) e in
              let place : rank p.bitmap n ≡ length xs =
                rank_lem p.bitmap n (omega arith) ∙ sym counted in
              let z : 0 + length xs ≡ length xs = omega arith in
              (
                xs ++ (n, v) ∷ [],
                (
                  rw (e, listed) (sym (map-append (λ t. t.0) xs ((n, v) ∷ []))),
                  Stored-snoc b (some p.elements) 0 xs (n, v) stored
                      (rw (
                        z,
                        ← place,
                        read_in p.elements (rank p.bitmap n) (rank_in b p n valid (omega arith) e),
                        slot,
                      )),
                  All-snoc (λ x. lookup_inner b p x.0 ≡ some x.1) xs (n, v) held reads,
                  length-append xs ((n, v) ∷ []) ∙ rw (e, counted),
                ),
              )
          | inr e ↦ (xs, (rw e (append-nil _ ∙ listed), stored, held, rw e (counted ∙ omega arith)))
        ]

  -- The entries of a valid array: its present indices, ascending, with the values that the map has
  -- at them.
  pub record Entries (a : PackedArray b T) (xs : List (ℕ × T)) : Type 0 where
    pub listed : indices xs ≡ set_bits b (bitmap b a)
    pub held : All (λ x. lookup b a x.0 ≡ some x.1) xs

  starts :
      (a : PackedArray b T)
      → IsValid b a
      → (xs : List (ℕ × T)) × Entries a xs
        × PresentView b (iter_present b a) xs
        × IntoView b (into_iter b a) xs
  unfolding iter_present into_iter bitmap
  starts none valid =
      let empty = members-none (test zero_bits) width test-zero_bits in
      ([], record { listed = sym empty; held = tt }, (empty, tt, refl), (empty, tt, refl))
  starts (some p) valid =
      let (xs, (listed, stored, held, counted)) = entries_below p valid width (omega arith) in
      let total : length xs ≡ count_ones p.bitmap = counted ∙ sym (count_ones_lem p.bitmap) in
      (
        xs,
        record { listed = sym listed; held = held },
        (listed, stored, omega arith),
        (listed, stored, omega arith),
      )

  -- For a valid array, draws from `iter_present()`, in any order and from either end, never fault,
  -- and hand out the entries of the array, its present indices with their values, each once, those
  -- drawn from the front ascending and those drawn from the back descending. `len` is the number
  -- left.
  pub iter_present-draws :
      (a : PackedArray b T) (ends : List End)
      → IsValid b a
      → (xs : List (ℕ × T)) × Entries a xs
        × ((it : PresentIter b T) × (run (present_iter b) ends (iter_present b a)
              ≡ some ((draws ends xs).0, it))
            × (present_len b it ≡ length (draws ends xs).1))
  iter_present-draws a ends valid =
      let (xs, entries, view, _) = starts a valid in
      let (it, e, left) = run_refines (present_iter-Refines b) ends (iter_present b a) xs view in
      (xs, entries, (it, e, (present_iter-Refines b).len_lem it (draws ends xs).1 left))

  -- For a valid array, draws from its `into_iter()`, in any order and from either end, never fault,
  -- never expect a block that is not there, and move out the entries of the array, each once, those
  -- drawn from the front ascending and those drawn from the back descending. `len` is the number
  -- left.
  pub into_iter-draws :
      (a : PackedArray b T) (ends : List End)
      → IsValid b a
      → (xs : List (ℕ × T)) × Entries a xs
        × ((it : IntoIter b T) × (run (moving_iter b) ends (into_iter b a)
              ≡ some ((draws ends xs).0, it))
            × (into_len b it ≡ length (draws ends xs).1))
  into_iter-draws a ends valid =
      let (xs, entries, _, view) = starts a valid in
      let (it, e, left) = run_refines (moving_iter-Refines b) ends (into_iter b a) xs view in
      (xs, entries, (it, e, (moving_iter-Refines b).len_lem it (draws ends xs).1 left))
