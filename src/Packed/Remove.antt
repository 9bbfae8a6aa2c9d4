-- ===== src/Packed/Remove.antt =====
-- `PackedArray::remove` and `take_only_child` keep the invariant, have no undefined behaviour, and
-- are the removal from the map.
use arity_arrays.Common.{
  ℕ, ◌+◌, ◌-◌, ◌<◌, ◌≡◌, refl, sym, ◌∙◌, ap, Bool, true, false, not, Option, none, some, ◌==◌, ltb,
  ltb→lt, ◌&&◌, if◌then◌else◌, arith, Bool-cases, inl, inr, ◌⊎◌, indicator, ==_iff,
}
use arity_arrays.Memory.{uninit, read_in, copy_in, copied}
use arity_arrays.Bitmap.{Bitmap}
use arity_arrays.Bitmap.Laws.{rank-lt-count_ones, count_ones-without_bit, rank-without_bit, rank_lt}
use arity_arrays.Packed.{Inner, PackedArray, alloc_block, bitmap, remove, remove_present}
use arity_arrays.Packed.Blocks.{closed, closed_before, closed_after, closed_filled}
use arity_arrays.Packed.Laws.{IsValidInner, IsValid, lookup_inner, lookup, value_of}

-- What a removal at i from `before` does: it returns the value, keeps the invariant, clears the
-- bit i, and changes the map at i only.
pub record Removes {T : Type 0} (b : Bitmap) (before : PackedArray b T) (i : ℕ)
    (result : Option (Option T × PackedArray b T)) : Type 0 where
  pub after : PackedArray b T
  pub returns : result ≡ some (lookup b before i, after)
  pub valid : IsValid b after
  pub bits :
      (j : ℕ)
      → j < b.width
      → b.test (bitmap b after) j ≡ (b.test (bitmap b before) j && not (i == j))
  pub reads :
      (j : ℕ) → j < b.width → lookup b after j ≡ (if i == j then none else lookup b before j)

module _ (b : Bitmap) {T : Type 0} where
  open b use {
    Bits, width, zero_bits, count_ones, test, without_bit, rank, test-without_bit, test-zero_bits,
  }

  module _ (p : Inner b T) (i : ℕ) (valid : IsValidInner b p) (h : i < width)
      (e : test p.bitmap i ≡ true) where
    at : ℕ
    at = rank p.bitmap i

    shrunk : Inner b T
    unfolding at
    shrunk = record {
      bitmap = without_bit p.bitmap i;
      elements = closed p.elements (count_ones p.bitmap) at;
    }

    at_in : at < count_ones p.bitmap
    unfolding at
    at_in = rank-lt-count_ones b p.bitmap i h e

    -- The slot of each index that stays.
    kept_slot :
        (j : ℕ)
        → (i == j) ≡ false
        → test p.bitmap j ≡ true
        → j < width
        → shrunk.elements.slot (rank (without_bit p.bitmap i) j) ≡ p.elements.slot (rank p.bitmap j)
    unfolding shrunk at
    kept_slot j other f k = elim (Bool-cases (ltb i j)) [
      | inl above ↦
          let moved : rank p.bitmap j ≡ rank (without_bit p.bitmap i) j + 1 =
            rank-without_bit b p.bitmap i j h k e
            ∙ ap (λ (t : Bool). rank (without_bit p.bitmap i) j + indicator t) above in
          let past = rank_lt b p.bitmap i j k (ltb→lt i j above) e in
          let inside = rank-lt-count_ones b p.bitmap j k f in
          closed_after p.elements (count_ones p.bitmap) at (rank (without_bit p.bitmap i) j)
            (omega arith) (omega arith)
          ∙ ap p.elements.slot (sym moved)
      | inr below ↦
          let same : rank p.bitmap j ≡ rank (without_bit p.bitmap i) j =
            rank-without_bit b p.bitmap i j h k e
            ∙ ap (λ (t : Bool). rank (without_bit p.bitmap i) j + indicator t) below
            ∙ omega arith in
          let before = rank_lt b p.bitmap j i h (ground arith) f in
          closed_before p.elements (count_ones p.bitmap) at (rank (without_bit p.bitmap i) j)
            (omega arith)
          ∙ ap p.elements.slot (sym same)
    ]

    shrunk-reads :
        (j : ℕ)
        → j < width
        → lookup_inner b shrunk j ≡ (if i == j then none else lookup_inner b p j)
    unfolding shrunk
    shrunk-reads j k = elim (Bool-cases (i == j)) [
      | inl same ↦ rw (test-without_bit p.bitmap i j h k, same) (ground arith)
      | inr other ↦ elim (Bool-cases (test p.bitmap j)) [
        | inl f ↦ rw (test-without_bit p.bitmap i j h k, f, other) (kept_slot j other f k)
        | inr f ↦ rw (test-without_bit p.bitmap i j h k, f, other)
      ]
    ]

    -- The last element: the block is freed.
    module _ (one : count_ones p.bitmap ≡ 1) where
      pub remove_last-returns : remove_present b p i ≡ some (lookup_inner b p i, none)
      unfolding remove_present at
      remove_last-returns =
          let (x, reads, held) = value_of b p i valid h e in
          let inside = at_in in
          let sized = valid.sized in
          rw (
            e,
            (==_iff (count_ones p.bitmap - 1) 0).1 (omega arith),
            read_in p.elements at (omega arith),
            held,
          )

      -- No other index is set.
      only : (j : ℕ) → j < width → (test p.bitmap j && not (i == j)) ≡ false
      only j k =
          sym (test-without_bit p.bitmap i j h k)
          ∙ go (Bool-cases (test (without_bit p.bitmap i) j))
        where
          go :
              (test (without_bit p.bitmap i) j ≡ true) ⊎ (test (without_bit p.bitmap i) j ≡ false)
              → test (without_bit p.bitmap i) j ≡ false
          go (inl f) = absurd (
              omega (
                arith,
                one,
                count_ones-without_bit b p.bitmap i h e,
                rank-lt-count_ones b (without_bit p.bitmap i) j k f,
              ))
          go (inr f) = f

      remove_last-Removes : Removes b (some p) i (remove_present b p i)
      unfolding bitmap
      remove_last-Removes = record {
        after = none;
        returns = remove_last-returns;
        valid = tt;
        bits = λ j k. rw (test-zero_bits j k, only j k);
        reads = λ j k.
            (let o = only j k in
              elim (Bool-cases (i == j)) [
                | inl same ↦ rw same
                | inr other ↦ let f : test p.bitmap j ≡ false = ground arith in rw (other, f)
              ]);
      }

    remove_inner-Removes :
        (count_ones p.bitmap - 1 == 0) ≡ false → Removes b (some p) i (remove_present b p i)
    unfolding remove_present alloc_block shrunk at closed bitmap
    remove_inner-Removes more =
        let shrinks = count_ones-without_bit b p.bitmap i h e in
        let sized = valid.sized in
        let inside = at_in in
        let n = count_ones p.bitmap in
        let front = copied p.elements 0 (uninit (n - 1)) 0 at in
        let (x, reads, held) = value_of b p i valid h e in
        record {
          after = some shrunk;
          returns = rw (
            e,
            more,
            (==_iff (count_ones (without_bit p.bitmap i)) (n - 1)).1 (omega arith),
            read_in p.elements at (omega arith),
            held,
            copy_in p.elements 0 (uninit (n - 1)) 0 at (omega arith) (omega arith),
            copy_in p.elements (at + 1) front at (n - at - 1) (omega arith) (omega arith),
          );
          valid = record {
            sized = omega arith;
            occupied = ground arith;
            filled = closed_filled p.elements n at at_in (sym valid.sized) valid.filled;
          };
          bits = λ j k. test-without_bit p.bitmap i j h k;
          reads = shrunk-reads;
        }

    remove_present-Removes : Removes b (some p) i (remove_present b p i)
    remove_present-Removes = elim (Bool-cases (count_ones p.bitmap - 1 == 0)) [
      | inl last ↦ remove_last-Removes (let bound = at_in in ground arith)
      | inr more ↦ remove_inner-Removes more
    ]

  -- Nothing is at an absent index.
  remove_absent-Removes :
      (p : Inner b T) (i : ℕ)
      → IsValidInner b p
      → test p.bitmap i ≡ false
      → Removes b (some p) i (some (none, some p))
  unfolding bitmap
  remove_absent-Removes p i valid e =
      let same_at : (j : ℕ) → (i == j) ≡ true → test p.bitmap j ≡ false =
        λ j s. ap (test p.bitmap) (sym ((==_iff i j).0 s)) ∙ e in
      record {
        after = some p;
        returns = rw e;
        valid = valid;
        bits = λ j k. elim (Bool-cases (i == j)) [
          | inl s ↦ rw (s, same_at j s)
          | inr o ↦ rw o (ground arith)
        ];
        reads = λ j k. elim (Bool-cases (i == j)) [ inl s ↦ rw (s, same_at j s) | inr o ↦ rw o ];
      }

  remove_empty-Removes : (i : ℕ) → Removes {T = T} b none i (some (none, none))
  unfolding bitmap
  remove_empty-Removes i = record {
    after = none;
    returns = refl;
    valid = tt;
    bits = λ j k. rw (test-zero_bits j k);
    reads = λ j k. elim (Bool-cases (i == j)) [ inl s ↦ rw s | inr o ↦ rw o ];
  }

  -- For a valid array and an index below the width, `remove` returns (no debug assertion fails,
  -- and every access is inside a block) the value that the index had, if any, and leaves a valid
  -- array whose bitmap has that index clear and every other as before, and which differs from the
  -- old one, as a map, at that index only, where it holds nothing.
  pub remove-Removes :
      (a : PackedArray b T) (i : ℕ) → IsValid b a → i < width → Removes b a i (remove b a i)
  unfolding remove
  remove-Removes none i valid h = remove_empty-Removes i
  remove-Removes (some p) i valid h = elim (Bool-cases (test p.bitmap i)) [
    | inl e ↦ rw e (remove_present-Removes p i valid h e)
    | inr e ↦ rw e (remove_absent-Removes p i valid e)
  ]
