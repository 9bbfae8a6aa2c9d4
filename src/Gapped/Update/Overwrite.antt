-- ===== src/Gapped/Update/Overwrite.antt =====
-- `GappedArray::insert` at a present index, and `clear`.
use arity_arrays.Common.{
  ℕ, ◌<◌, ◌≡◌, refl, sym, ◌∙◌, ap, true, Option, none, some, ◌==◌, if◌then◌else◌, arith, Bool-cases,
  inl, inr, ==_iff,
}
use arity_arrays.Memory.{written, read_in, write_in}
use arity_arrays.Bitmap.{Bitmap}
use arity_arrays.Bitmap.Laws.{with_bit_present}
use arity_arrays.Gapped.{Inner, GappedArray, bitmap, capacity}
use arity_arrays.Gapped.Laws.{
  lookup-IsNth, IsValidInner, IsValid, lookup_inner, lookup, Slot, slot_of_present,
}
use arity_arrays.Gapped.Remove.{slots_differ}
use arity_arrays.Gapped.Update.{overwrite, insert, clear}

-- What an insertion of v at i into `before` does: it returns the old value, keeps the invariant,
-- sets the bit i, and changes the map at i only.
pub record Insertion {T : Type 0} (b : Bitmap) (before : GappedArray b T) (i : ℕ) (v : T)
    (result : Option (Option T × GappedArray b T)) : Type 0 where
  pub after : GappedArray b T
  pub returns : result ≡ some (lookup b before i, after)
  pub valid : IsValid b after
  pub bits : bitmap b after ≡ b.with_bit (bitmap b before) i
  pub reads :
      (j : ℕ) → j < b.width → lookup b after j ≡ (if i == j then some v else lookup b before j)

module _ (b : Bitmap) {T : Type 0} where
  open b use {Bits, width, test, zero_bits, test-zero_bits}

  module _ (p : Inner b T) (i : ℕ) (v : T) (valid : IsValidInner b p) (h : i < width)
      (e : test p.occupancy i ≡ true) where
    abbrev place : Slot b p i
    place = slot_of_present b p i valid h e

    overwritten : Inner b T
    overwritten = record p { elements = written p.elements place.at v }

    overwritten-reads :
        (j : ℕ)
        → j < width
        → lookup_inner b overwritten j ≡ (if i == j then some v else lookup_inner b p j)
    unfolding overwritten
    overwritten-reads j k = elim (Bool-cases (i == j)) [
      | inl same ↦
          let ij = (==_iff i j).0 same in
          let now : lookup_inner b overwritten i ≡ some v =
            lookup-IsNth b overwritten i place.at e place.nth ∙ ground arith in
          rw same (ap (lookup_inner b overwritten) (sym ij) ∙ now)
      | inr other ↦ elim (Bool-cases (test p.occupancy j)) [
        | inl f ↦
            let s = slot_of_present b p j valid k f in
            let apart = slots_differ b p i valid h e j other f k in
            let now : lookup_inner b overwritten j ≡ some s.value =
              lookup-IsNth b overwritten j s.at f s.nth ∙ rw apart s.holds in
            rw other (now ∙ sym s.reads)
        | inr f ↦ rw (f, other)
      ]
    ]

    overwrite-returns : overwrite b p i v ≡ some (some place.value, some overwritten)
    unfolding overwrite overwritten
    overwrite-returns = rw (
      place.found,
      read_in p.elements place.at place.inside,
      place.holds,
      write_in p.elements place.at v place.inside,
    )

    insert-returns : insert b (some p) i v ≡ some (some place.value, some overwritten)
    unfolding insert
    insert-returns = rw e overwrite-returns

    overwritten_filled :
        (q : ℕ)
        → q < width
        → test p.live q ≡ true
        → (x : T) × (overwritten.elements.slot q ≡ some x)
    unfolding overwritten
    overwritten_filled q k t = elim (Bool-cases (place.at == q)) [
      | inl same ↦ (v, rw same)
      | inr other ↦ let (x, held) = valid.filled q k t in (x, rw other held)
    ]

    -- For a valid block and an index i below the width that is present, `insert` returns, with no
    -- panic and no access outside the initialised slots, the value that i had, and leaves a valid
    -- array with the same bitmap as with i set, which differs from the old one, as a map, at i
    -- only, where it holds the new value.
    pub overwrite-Insertion : Insertion b (some p) i v (insert b (some p) i v)
    unfolding bitmap overwritten
    overwrite-Insertion = record {
      after = some overwritten;
      returns =
          insert-returns ∙ ap (λ (t : Option T). some (t, some overwritten)) (sym place.reads);
      valid = record {
        sized = valid.sized;
        fits = valid.fits;
        balanced = valid.balanced;
        inside = valid.inside;
        filled = overwritten_filled;
      };
      bits = sym (with_bit_present b p.occupancy i h e);
      reads = overwritten-reads;
    }

  -- `clear` of a valid array leaves a valid array of the same capacity, whose map holds nothing at
  -- any index below the width.
  pub clear-IsValid :
      (a : GappedArray b T)
      → IsValid b a
      → IsValid b (clear b a)
        × (capacity b (clear b a) ≡ capacity b a)
        × ((i : ℕ) → i < width → lookup b (clear b a) i ≡ none)
  unfolding clear capacity
  clear-IsValid none valid = (tt, refl, λ i h. refl)
  clear-IsValid (some p) valid = (
    record {
      sized = valid.sized;
      fits = valid.fits;
      balanced = refl;
      inside = λ q h t. absurd (let f = test-zero_bits q h in ground arith);
      filled = λ q h t. absurd (let f = test-zero_bits q h in ground arith);
    },
    refl,
    λ i h. rw (test-zero_bits i h),
  )
