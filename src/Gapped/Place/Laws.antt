-- ===== src/Gapped/Place/Laws.antt =====
-- What a placement has to do to be an insertion into the map: the moves keep the order of the live
-- slots and leave room for the new one at its rank.
use arity_arrays.Common.{
  ℕ, ◌+◌, ◌^◌, ◌<◌, ◌≡◌, sym, ◌∙◌, ap, true, false, ◌||◌, some, ◌==◌, ltb, leb, if◌then◌else◌,
  arith, Bool-cases, inl, inr, indicator, ==_iff, count_below,
}
use arity_arrays.Bitmap.{Bitmap, IsNth}
use arity_arrays.Bitmap.Laws.{
  ne_of_test_sym, rank_mono, rank_lt, count_ones-with_bit, rank-with_bit,
}
use arity_arrays.Gapped.{Inner}
use arity_arrays.Gapped.Laws.{lookup-IsNth, IsValidInner, lookup_inner, slot_of_present}

-- `p'` is `p` with the value v placed at the absent index i: the slot `hole` becomes live, v stands
-- at its rank, and each live slot q keeps its value at `move q`.
pub record Places {T : Type 0} (b : Bitmap) (p p' : Inner b T) (i : ℕ) (v : T) (hole : ℕ)
    : Type 0 where
  pub at : ℕ
  pub move : ℕ → ℕ
  pub occupancy_lem : p'.occupancy ≡ b.with_bit p.occupancy i
  pub live_lem : p'.live ≡ b.with_bit p.live hole
  pub hole_in : hole < b.width
  pub hole_fits : hole < 2 ^ p.cap_exp
  pub hole_clear : b.test p.live hole ≡ false
  pub cap_lem : p'.cap_exp ≡ p.cap_exp
  pub size_lem : p'.elements.size ≡ p.elements.size
  pub new_nth : IsNth (b.test p'.live) b.width (b.rank p.occupancy i) at
  pub new_slot : p'.elements.slot at ≡ some v
  pub old_nth :
      (q : ℕ)
      → q < b.width
      → b.test p.live q ≡ true
      → IsNth
          (b.test p'.live)
          b.width
          (count_below (b.test p.live) q
            + indicator (leb (b.rank p.occupancy i) (count_below (b.test p.live) q)))
          (move q)
  pub old_slot :
      (q : ℕ) → q < b.width → b.test p.live q ≡ true → p'.elements.slot (move q) ≡ p.elements.slot q
  pub filled :
      (q : ℕ) → q < b.width → b.test p'.live q ≡ true → (x : T) × (p'.elements.slot q ≡ some x)

-- What a placement at i does to the array: the invariant is kept, the bit i is set, and the map
-- changes at i only.
pub record Placed {T : Type 0} (b : Bitmap) (p p' : Inner b T) (i : ℕ) (v : T) : Type 0 where
  pub valid : IsValidInner b p'
  pub bits : p'.occupancy ≡ b.with_bit p.occupancy i
  pub reads :
      (j : ℕ) → j < b.width → lookup_inner b p' j ≡ (if i == j then some v else lookup_inner b p j)

module _ (b : Bitmap) {T : Type 0} where
  open b use {Bits, width, count_ones, test, with_bit, rank, rank_lem, test-with_bit}

  module _ (p p' : Inner b T) (i : ℕ) (v : T) (hole : ℕ) (valid : IsValidInner b p) (h : i < width)
      (e : test p.occupancy i ≡ false) (placed : Places b p p' i v hole) where
    rank_after :
        (j : ℕ) → j < width → rank p'.occupancy j ≡ rank p.occupancy j + indicator (ltb i j)
    rank_after j k =
        ap (λ (t : Bits). rank t j) placed.occupancy_lem ∙ rank-with_bit b p.occupancy i j h k e

    present_after : (j : ℕ) → j < width → test p'.occupancy j ≡ (test p.occupancy j || (i == j))
    present_after j k =
        ap (λ (t : Bits). test t j) placed.occupancy_lem ∙ test-with_bit p.occupancy i j h k

    found :
        (r q : ℕ) (j : ℕ)
        → IsNth (test p'.live) width r q
        → rank p'.occupancy j ≡ r
        → test p'.occupancy j ≡ true
        → lookup_inner b p' j ≡ p'.elements.slot q
    found r q j nth ranks now = lookup-IsNth b p' j q now (rw ranks nth)

    new_reads : lookup_inner b p' i ≡ some v
    new_reads =
        let ranks : rank p'.occupancy i ≡ rank p.occupancy i = rank_after i h ∙ ground arith in
        let now : test p'.occupancy i ≡ true = present_after i h ∙ ground arith in
        found (rank p.occupancy i) placed.at i placed.new_nth ranks now ∙ placed.new_slot

    -- A present index is past i exactly if its rank is not below that of i.
    order :
        (j : ℕ)
        → j < width
        → test p.occupancy j ≡ true
        → indicator (ltb i j) ≡ indicator (leb (rank p.occupancy i) (rank p.occupancy j))
    order j k f = elim (Bool-cases (ltb i j)) [
      | inl above ↦ let mono = rank_mono b p.occupancy i j k (ground arith) in ground arith
      | inr below ↦
          let other = ne_of_test_sym b p.occupancy i j e f in
          let less = rank_lt b p.occupancy j i h (ground arith) f in ground arith
    ]

    old_reads :
        (j : ℕ) → j < width → test p.occupancy j ≡ true → lookup_inner b p' j ≡ lookup_inner b p j
    old_reads j k f =
        let s = slot_of_present b p j valid k f in
        let now : test p'.occupancy j ≡ true = present_after j k ∙ ground arith in
        let nth = placed.old_nth s.at s.nth.0 s.nth.1 in
        let ranks : rank p'.occupancy j
            ≡ count_below (test p.live) s.at
              + indicator (leb (rank p.occupancy i) (count_below (test p.live) s.at)) =
          rw (rank_after j k, s.nth.2, order j k f) in
        let slot : p'.elements.slot (placed.move s.at) ≡ some s.value =
          placed.old_slot s.at s.nth.0 s.nth.1 ∙ s.holds in
        let after : lookup_inner b p' j ≡ some s.value =
          found _ (placed.move s.at) j nth ranks now ∙ slot in
        after ∙ sym s.reads

    placed_reads :
        (j : ℕ) → j < width → lookup_inner b p' j ≡ (if i == j then some v else lookup_inner b p j)
    placed_reads j k = elim (Bool-cases (i == j)) [
      | inl same ↦ rw same (ap (lookup_inner b p') (sym ((==_iff i j).0 same)) ∙ new_reads)
      | inr other ↦ elim (Bool-cases (test p.occupancy j)) [
        | inl f ↦ rw other (old_reads j k f)
        | inr f ↦
            let away : test p'.occupancy j ≡ false = present_after j k ∙ ground arith in
            rw (away, other, f)
      ]
    ]

    live_after : (q : ℕ) → q < width → test p'.live q ≡ true → q < p'.elements.size
    live_after q k t =
        let set =
          sym (
            ap (λ (u : Bits). test u q) placed.live_lem
            ∙ test-with_bit p.live hole q placed.hole_in k)
          ∙ t in
        elim (Bool-cases (test p.live q)) [
          | inl f ↦ omega (arith, valid.inside q k f, placed.size_lem)
          | inr f ↦ ground (arith, placed.size_lem, placed.hole_fits, valid.sized)
        ]

    pub places-Placed : Placed b p p' i v
    places-Placed =
        let live =
          ap count_ones placed.live_lem
          ∙ count_ones-with_bit b p.live hole placed.hole_in placed.hole_clear in
        let occ = ap count_ones placed.occupancy_lem ∙ count_ones-with_bit b p.occupancy i h e in
        record {
          valid = record {
            sized = placed.size_lem ∙ valid.sized ∙ ap (λ (t : ℕ). 2 ^ t) (sym placed.cap_lem);
            fits = rw placed.cap_lem valid.fits;
            balanced = omega (arith, valid.balanced);
            inside = live_after;
            filled = placed.filled;
          };
          bits = placed.occupancy_lem;
          reads = placed_reads;
        }
