-- ===== src/Packed/Insert.antt =====
-- `PackedArray::insert` keeps the invariant, has no undefined behaviour, and is the insertion into
-- the map.
use arity_arrays.Common.{
  ℕ, ◌+◌, ◌-◌, ◌<◌, ◌≤◌, ◌≡◌, refl, sym, ◌∙◌, ap, true, false, Option, none, some, ◌==◌, ltb,
  if◌then◌else◌, arith, Bool-cases, inl, inr, indicator, ==_iff,
}
use arity_arrays.Memory.{uninit, read_in, write_in, written, copy_in, copied}
use arity_arrays.Bitmap.{Bitmap}
use arity_arrays.Bitmap.Laws.{
  count_ones-single, rank-single, ne_of_test, ne_of_test_sym, rank_inj, with_bit_present,
  rank-lt-count_ones, count_ones-with_bit, rank-with_bit, rank_mono, rank_lt, rank-le-count_ones,
}
use arity_arrays.Packed.{
  Inner, PackedArray, alloc_block, bitmap, insert, insert_present, insert_absent,
}
use arity_arrays.Packed.Blocks.{
  written-IsFilled, spliced, spliced_before, spliced_at, spliced_after, spliced-IsFilled,
}
use arity_arrays.Packed.Laws.{IsValidInner, IsValid, lookup_inner, lookup, rank_in, value_of}

-- What an insertion of v at i into `before` does: it returns the old value, keeps the invariant,
-- sets the bit i, and changes the map at i only.
pub record Inserts {T : Type 0} (b : Bitmap) (before : PackedArray b T) (i : ℕ) (v : T)
    (result : Option (Option T × PackedArray b T)) : Type 0 where
  pub after : PackedArray b T
  pub returns : result ≡ some (lookup b before i, after)
  pub valid : IsValid b after
  pub bits : bitmap b after ≡ b.with_bit (bitmap b before) i
  pub reads :
      (j : ℕ) → j < b.width → lookup b after j ≡ (if i == j then some v else lookup b before j)

module _ (b : Bitmap) {T : Type 0} where
  open b use {
    Bits, width, zero_bits, count_ones, test, with_bit, rank, test-with_bit, test-zero_bits,
  }

  module _ (p : Inner b T) (i : ℕ) (v : T) (valid : IsValidInner b p) (h : i < width) where
    overwrite : Inner b T
    overwrite = record p { elements = written p.elements (rank p.bitmap i) v }

    present-reads :
        (j : ℕ)
        → test p.bitmap i ≡ true
        → j < width
        → lookup_inner b overwrite j ≡ (if i == j then some v else lookup_inner b p j)
    unfolding overwrite
    present-reads j e k = elim (Bool-cases (test p.bitmap j)) [
      | inl f ↦ rw f (ground (arith, rank_inj b p.bitmap i j h k e f, ap (rank p.bitmap)))
      | inr f ↦ rw (f, ne_of_test b p.bitmap i j e f)
    ]

    insert_present-Inserts :
        test p.bitmap i ≡ true → Inserts b (some p) i v (insert_present b p i v)
    unfolding insert_present overwrite bitmap
    insert_present-Inserts e =
        let inside = rank_in b p i valid h e in
        let (x, reads, held) = value_of b p i valid h e in
        record {
          after = some overwrite;
          returns = rw (
            read_in p.elements (rank p.bitmap i) inside,
            held,
            e,
            write_in p.elements (rank p.bitmap i) v inside,
          );
          valid = record {
            sized = valid.sized;
            occupied = valid.occupied;
            filled = written-IsFilled p.elements (rank p.bitmap i) v valid.filled;
          };
          bits = sym (with_bit_present b p.bitmap i h e);
          reads = λ j k. present-reads j e k;
        }

    at : ℕ
    at = rank p.bitmap i

    grown : Inner b T
    unfolding at
    grown = record {
      bitmap = with_bit p.bitmap i;
      elements = spliced p.elements (count_ones p.bitmap) at v;
    }

    at_fits : at ≤ count_ones p.bitmap
    unfolding at
    at_fits = rank-le-count_ones b p.bitmap i h

    module _ (e : test p.bitmap i ≡ false) where
      rank_grown :
          (j : ℕ) → j < width → rank (with_bit p.bitmap i) j ≡ rank p.bitmap j + indicator (ltb i j)
      rank_grown j k = rank-with_bit b p.bitmap i j h k e

      -- The slot of each index that was present.
      old_slot :
          (j : ℕ)
          → test p.bitmap j ≡ true
          → j < width
          → grown.elements.slot (rank (with_bit p.bitmap i) j) ≡ p.elements.slot (rank p.bitmap j)
      unfolding grown at
      old_slot j f k = elim (Bool-cases (ltb i j)) [
        | inl above ↦
            rw (rank_grown j k, above)
              (spliced_after p.elements (count_ones p.bitmap) at v (rank p.bitmap j)
                (rank_mono b p.bitmap i j k (ground arith)) (rank-lt-count_ones b p.bitmap j k f))
        | inr below ↦
            let other = ne_of_test b p.bitmap j i f e in
            let same : rank p.bitmap j + 0 ≡ rank p.bitmap j = omega arith in
            rw (rank_grown j k, below, same)
              (spliced_before p.elements (count_ones p.bitmap) at v (rank p.bitmap j)
                (rank_lt b p.bitmap j i h (ground arith) f))
      ]

      new_slot : grown.elements.slot (rank (with_bit p.bitmap i) i) ≡ some v
      unfolding grown at
      new_slot =
          let same : rank (with_bit p.bitmap i) i ≡ at = rank_grown i h ∙ ground arith in
          rw same (spliced_at p.elements (count_ones p.bitmap) at v)

      absent-reads :
          (j : ℕ)
          → j < width
          → lookup_inner b grown j ≡ (if i == j then some v else lookup_inner b p j)
      unfolding grown
      absent-reads j k = elim (Bool-cases (test p.bitmap j)) [
        | inl f ↦
            rw (test-with_bit p.bitmap i j h k, f, ne_of_test_sym b p.bitmap i j e f)
              (old_slot j f k)
        | inr f ↦ elim (Bool-cases (i == j)) [
          | inl same ↦
              let new : grown.elements.slot (rank (with_bit p.bitmap i) j) ≡ some v =
                ap (λ (t : ℕ). grown.elements.slot (rank (with_bit p.bitmap i) t))
                  (sym ((==_iff i j).0 same))
                ∙ new_slot in
              rw (test-with_bit p.bitmap i j h k, f, same) new
          | inr other ↦ rw (test-with_bit p.bitmap i j h k, f, other)
        ]
      ]

      insert_absent-Inserts : Inserts b (some p) i v (insert_absent b p i v)
      unfolding insert_absent alloc_block grown at spliced bitmap
      insert_absent-Inserts =
          let grows = count_ones-with_bit b p.bitmap i h e in
          let sized = valid.sized in
          let fits = at_fits in
          let n = count_ones p.bitmap in
          let front = copied p.elements 0 (uninit (n + 1)) 0 at in
          record {
            after = some grown;
            returns = rw (
              e,
              (==_iff (count_ones (with_bit p.bitmap i)) (n + 1)).1 grows,
              copy_in p.elements 0 (uninit (n + 1)) 0 at (omega arith) (omega arith),
              write_in front at v (omega arith),
              copy_in p.elements at (written front at v) (at + 1) (n - at) (omega arith)
                  (omega arith),
            );
            valid = record {
              sized = sym grows;
              occupied = omega (arith, grows);
              filled =
                  spliced-IsFilled p.elements (count_ones p.bitmap) at v at_fits (sym valid.sized)
                    valid.filled;
            };
            bits = refl;
            reads = absent-reads;
          }

  module _ (i : ℕ) (v : T) (h : i < width) where
    -- The block of one element that an insertion into the empty array allocates.
    single : Inner b T
    single = record { bitmap = with_bit zero_bits i; elements = written (uninit 1) 0 v }

    single-reads : (j : ℕ) → j < width → lookup_inner b single j ≡ (if i == j then some v else none)
    unfolding single
    single-reads j k = elim (Bool-cases (i == j)) [
      | inl same ↦
          let zeroth : rank (with_bit zero_bits i) j ≡ 0 =
            ap (rank (with_bit zero_bits i)) (sym ((==_iff i j).0 same)) ∙ rank-single b i h in
          rw (test-with_bit zero_bits i j h k, test-zero_bits j k, same, zeroth)
      | inr other ↦ rw (test-with_bit zero_bits i j h k, test-zero_bits j k, other)
    ]

    insert_empty-Inserts : Inserts b none i v (insert b none i v)
    unfolding insert single bitmap alloc_block
    insert_empty-Inserts =
        let one = count_ones-single b i h in
        record {
          after = some single;
          returns = rw ((==_iff (count_ones (with_bit zero_bits i)) 1).1 one);
          valid = record {
            sized = sym one;
            occupied = omega (arith, one);
            filled = λ r q. let first : (0 == r) ≡ true = ground arith in (v, rw first);
          };
          bits = refl;
          reads = single-reads;
        }

  -- For a valid array and an index below the width, `insert` returns (no debug assertion fails,
  -- and every access is inside a block) the value that the index had, and leaves a valid array
  -- whose bitmap has the index set and which differs from the old one, as a map, at that index
  -- only, where it holds the new value.
  pub insert-Inserts :
      (a : PackedArray b T) (i : ℕ) (v : T)
      → IsValid b a
      → i < width
      → Inserts b a i v (insert b a i v)
  unfolding insert
  insert-Inserts none i v valid h = insert_empty-Inserts i v h
  insert-Inserts (some p) i v valid h = elim (Bool-cases (test p.bitmap i)) [
    | inl e ↦ rw e (insert_present-Inserts p i v valid h e)
    | inr e ↦ rw e (insert_absent-Inserts p i v valid h e)
  ]
