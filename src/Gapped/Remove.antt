-- ===== src/Gapped/Remove.antt =====
-- `GappedArray::remove` keeps the invariant, has no undefined behaviour, and is the removal from
-- the map.
use arity_arrays.Common.{
  ℕ, ◌+◌, ◌<◌, ◌≡◌, refl, sym, ◌∙◌, ap, true, false, not, ◌&&◌, Option, none, some, ◌==◌, ltb,
  ltb→lt, if◌then◌else◌, arith, Bool-cases, inl, inr, indicator, ==_iff, count_below,
  count_below_mono,
}
use arity_arrays.Memory.{read_in}
use arity_arrays.Niche.Laws.{try_from_usize_index}
use arity_arrays.Bitmap.{Bitmap, IsNth}
use arity_arrays.Bitmap.Laws.{
  rank_inj, rank_lt, count_ones-without_bit, rank-without_bit, count_below-without_bit,
}
use arity_arrays.Gapped.{Inner, GappedArray, bitmap, remove, remove_present}
use arity_arrays.Gapped.Laws.{
  lookup-IsNth, IsValidInner, IsValid, lookup_inner, lookup, Slot, slot_of_present,
}

-- What a removal at i from `before` does: it returns the value, keeps the invariant, clears the
-- bit i, and changes the map at i only.
pub record Removal {T : Type 0} (b : Bitmap) (before : GappedArray b T) (i : ℕ)
    (result : Option (Option T × GappedArray b T)) : Type 0 where
  pub after : GappedArray b T
  pub returns : result ≡ some (lookup b before i, after)
  pub valid : IsValid b after
  pub bits :
      (j : ℕ)
      → j < b.width
      → b.test (bitmap b after) j ≡ (b.test (bitmap b before) j && not (i == j))
  pub reads :
      (j : ℕ) → j < b.width → lookup b after j ≡ (if i == j then none else lookup b before j)

module _ (b : Bitmap) {T : Type 0} where
  open b use {
    Bits, width, width_small, zero_bits, count_ones, test, without_bit, rank, rank_lem,
    test-without_bit, test-zero_bits,
  }

  module _ (p : Inner b T) (i : ℕ) (valid : IsValidInner b p) (h : i < width)
      (e : test p.occupancy i ≡ true) where
    abbrev pub gone : Slot b p i
    gone = slot_of_present b p i valid h e

    cleared : Inner b T
    cleared = record p { occupancy = without_bit p.occupancy i; live = without_bit p.live gone.at }

    same_slots : (q : ℕ) → cleared.elements.slot q ≡ p.elements.slot q
    unfolding cleared
    same_slots q = refl

    counts :
        (count_ones p.live ≡ count_ones cleared.live + 1)
        × (count_ones p.occupancy ≡ count_ones cleared.occupancy + 1)
    unfolding cleared
    counts = (
      count_ones-without_bit b p.live gone.at gone.nth.0 gone.nth.1,
      count_ones-without_bit b p.occupancy i h e,
    )

    module _ (j : ℕ) (other : (i == j) ≡ false) (f : test p.occupancy j ≡ true)
        (k : j < width) where
      abbrev pub kept : Slot b p j
      kept = slot_of_present b p j valid k f

      -- Slots are in the order of their indices.
      slots_order : indicator (ltb gone.at kept.at) ≡ indicator (ltb i j)
      slots_order =
          let (gi, gs, gn) = gone.nth in
          let (ki, ks, kn) = kept.nth in
          elim (Bool-cases (ltb i j)) [
            | inl above ↦
                let past = rank_lt b p.occupancy i j k (ltb→lt i j above) e in
                let mono = count_below_mono (test p.live) kept.at gone.at in ground (arith, mono)
            | inr below ↦
                let past = rank_lt b p.occupancy j i h (ground arith) f in
                let mono = count_below_mono (test p.live) gone.at kept.at in ground (arith, mono)
          ]

      pub slots_differ : (gone.at == kept.at) ≡ false
      slots_differ = elim (Bool-cases (gone.at == kept.at)) [
        | inl same ↦
            let at_same : gone.at ≡ kept.at = (==_iff gone.at kept.at).0 same in
            let ranks : rank p.occupancy i ≡ rank p.occupancy j =
              sym gone.nth.2 ∙ ap (count_below (test p.live)) at_same ∙ kept.nth.2 in
            let ij = rank_inj b p.occupancy i j h k e f ranks in absurd (ground (arith, ij))
        | inr d ↦ d
      ]

      still_nth : IsNth (test cleared.live) width (rank cleared.occupancy j) kept.at
      unfolding cleared
      still_nth = (
        kept.nth.0,
        rw (
          test-without_bit p.live gone.at kept.at gone.nth.0 kept.nth.0,
          kept.nth.1,
          slots_differ,
        ),
        omega (
          arith,
          slots_order,
          kept.nth.2,
          rank-without_bit b p.occupancy i j h k e,
          count_below-without_bit b p.live gone.at kept.at gone.nth.0 (omega (arith, kept.nth.0))
              gone.nth.1,
        ),
      )

      still_present : test cleared.occupancy j ≡ true
      unfolding cleared
      still_present = rw (test-without_bit p.occupancy i j h k, f, other)

      kept_reads : lookup_inner b cleared j ≡ lookup_inner b p j
      kept_reads =
          let slot : cleared.elements.slot kept.at ≡ some kept.value =
            same_slots kept.at ∙ kept.holds in
          let now : lookup_inner b cleared j ≡ some kept.value =
            lookup-IsNth b cleared j kept.at still_present still_nth ∙ slot in
          now ∙ sym kept.reads

    gone_absent :
        (j : ℕ)
        → j < width
        → (test p.occupancy j && not (i == j)) ≡ false
        → test cleared.occupancy j ≡ false
    unfolding cleared
    gone_absent j k f = rw (test-without_bit p.occupancy i j h k, f)

    cleared-reads :
        (j : ℕ)
        → j < width
        → lookup_inner b cleared j ≡ (if i == j then none else lookup_inner b p j)
    cleared-reads j k = elim (Bool-cases (i == j)) [
      | inl same ↦ let away = gone_absent j k (rw same (ground arith)) in rw (away, same)
      | inr other ↦ elim (Bool-cases (test p.occupancy j)) [
        | inl f ↦ rw other (kept_reads j other f k)
        | inr f ↦ let away = gone_absent j k (rw f) in rw (away, other, f)
      ]
    ]

    live_before : (q : ℕ) → q < width → test cleared.live q ≡ true → test p.live q ≡ true
    unfolding cleared
    live_before q k t =
        let u = sym (test-without_bit p.live gone.at q gone.nth.0 k) ∙ t in ground arith

    cleared-IsValidInner : IsValidInner b cleared
    unfolding cleared
    cleared-IsValidInner =
        let (fewer_live, fewer_present) = counts in
        record {
          sized = valid.sized;
          fits = valid.fits;
          balanced = omega (arith, valid.balanced);
          inside = λ q k t. valid.inside q k (live_before q k t);
          filled = λ q k t. valid.filled q k (live_before q k t);
        }

    removed : remove_present b p i ≡ some (some gone.value, some cleared)
    unfolding remove_present cleared
    removed = rw (
      gone.found,
      try_from_usize_index width gone.at width_small gone.nth.0,
      read_in p.elements gone.at gone.inside,
      gone.holds,
    )

    remove_present-Removal : Removal b (some p) i (remove_present b p i)
    unfolding cleared bitmap
    remove_present-Removal = record {
      after = some cleared;
      returns = removed ∙ ap (λ (t : Option T). some (t, some cleared)) (sym gone.reads);
      valid = cleared-IsValidInner;
      bits = λ j k. test-without_bit p.occupancy i j h k;
      reads = cleared-reads;
    }

  remove_absent-Removal :
      (p : Inner b T) (i : ℕ)
      → IsValidInner b p
      → test p.occupancy i ≡ false
      → Removal b (some p) i (some (none, some p))
  unfolding bitmap
  remove_absent-Removal p i valid e =
      let same_at : (j : ℕ) → (i == j) ≡ true → test p.occupancy j ≡ false =
        λ j s. ap (test p.occupancy) (sym ((==_iff i j).0 s)) ∙ e in
      record {
        after = some p;
        returns = rw e;
        valid = valid;
        bits = λ j k. elim (Bool-cases (i == j)) [
          | inl s ↦ rw (s, same_at j s)
          | inr o ↦ rw o (ground arith)
        ];
        reads = λ j k. elim (Bool-cases (i == j)) [ inl s ↦ rw (s, same_at j s) | inr o ↦ rw o ];
      }

  remove_empty-Removal : (i : ℕ) → Removal {T = T} b none i (some (none, none))
  unfolding bitmap
  remove_empty-Removal i = record {
    after = none;
    returns = refl;
    valid = tt;
    bits = λ j k. rw (test-zero_bits j k);
    reads = λ j k. elim (Bool-cases (i == j)) [ inl s ↦ rw s | inr o ↦ rw o ];
  }

  -- For a valid array and an index below the width, `remove` returns (neither `expect` panics, and
  -- the read is of an initialised slot) the value that the index had, if any, and leaves a valid
  -- array whose bitmap has that index clear and every other as before, and which differs from the
  -- old one, as a map, at that index only, where it holds nothing.
  pub remove-Removal :
      (a : GappedArray b T) (i : ℕ) → IsValid b a → i < width → Removal b a i (remove b a i)
  unfolding remove
  remove-Removal none i valid h = remove_empty-Removal i
  remove-Removal (some p) i valid h = elim (Bool-cases (test p.occupancy i)) [
    | inl e ↦ rw e (remove_present-Removal p i valid h e)
    | inr e ↦ rw e (remove_absent-Removal p i valid e)
  ]
