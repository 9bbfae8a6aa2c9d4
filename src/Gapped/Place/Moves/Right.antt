-- ===== src/Gapped/Place/Moves/Right.antt =====
-- `shift_right_and_write` keeps the order of the live slots.
use arity_arrays.Common.{
  ℕ, ◌+◌, ◌-◌, ◌^◌, ◌<◌, ◌≤◌, ◌≡◌, refl, ◌∙◌, ap, true, false, ◌||◌, ◌&&◌, Option, some, ◌==◌, ltb,
  ltb→lt, leb→le, leb, if◌then◌else◌, arith, Bool-cases, inl, inr, indicator, count_below,
  count_below_mono, count_below_lt,
}
use arity_arrays.Memory.{written, copied, write_in, copy_in}
use arity_arrays.Niche.Laws.{try_from_usize_index}
use arity_arrays.Bitmap.{Bitmap}
use arity_arrays.Bitmap.Laws.{ne_of_test_sym}
use arity_arrays.Gapped.{Inner}
use arity_arrays.Gapped.Laws.{IsValidInner}
use arity_arrays.Gapped.Place.{shift_right_and_write}
use arity_arrays.Gapped.Place.Laws.{Places}
use arity_arrays.Gapped.Place.Moves.{count_after, live_after, written_filled, was_live, count_pred}

module _ (b : Bitmap) {T : Type 0} where
  open b use {Bits, width, width_small, count_ones, test, with_bit, rank, test-with_bit}

  module _ (p : Inner b T) (i : ℕ) (v : T) (hole p_hi : ℕ) (valid : IsValidInner b p)
      (under : p_hi ≤ hole) (within : hole < 2 ^ p.cap_exp) (clear : test p.live hole ≡ false)
      (run : (q : ℕ) → p_hi ≤ q → q < hole → test p.live q ≡ true)
      (ranked : count_below (test p.live) p_hi ≡ rank p.occupancy i) where
    h : hole < width
    h = omega (arith, valid.fits)

    pub moved_right : Inner b T
    moved_right = record p {
      occupancy = with_bit p.occupancy i;
      live = with_bit p.live hole;
      elements = written (copied p.elements p_hi p.elements (p_hi + 1) (hole - p_hi)) p_hi v;
    }

    right : ℕ → ℕ
    right q = if leb p_hi q && ltb q hole then q + 1 else q

    right_in : (q : ℕ) → q < width → right q < width
    unfolding right
    right_in q k = let bound = h in ground arith

    copied_slot : (q : ℕ) → Option T
    copied_slot q = (copied p.elements p_hi p.elements (p_hi + 1) (hole - p_hi)).slot q

    in_run : (q : ℕ) → p_hi < q → q ≤ hole → copied_slot q ≡ p.elements.slot (q - 1)
    unfolding copied_slot
    in_run q a c = let z : q - (p_hi + 1) + p_hi ≡ q - 1 = omega arith in ground arith

    out_run_low : (q : ℕ) → q ≤ p_hi → copied_slot q ≡ p.elements.slot q
    unfolding copied_slot
    out_run_low q a = ground arith

    out_run_high : (q : ℕ) → hole < q → copied_slot q ≡ p.elements.slot q
    unfolding copied_slot
    out_run_high q a = ground arith

    count' :
        (n : ℕ)
        → n ≤ width
        → count_below (test (with_bit p.live hole)) n
          ≡ count_below (test p.live) n + indicator (ltb hole n)
    count' n k = count_after b p i v hole valid h within clear n k

    set' : (q : ℕ) → q < width → test (with_bit p.live hole) q ≡ (test p.live q || (hole == q))
    set' q k = live_after b p i v hole valid h within clear q k

    old_count :
        (q : ℕ)
        → q < width
        → test p.live q ≡ true
        → count_below (test (with_bit p.live hole)) (right q)
          ≡ count_below (test p.live) q
            + indicator (leb (rank p.occupancy i) (count_below (test p.live) q))
    unfolding right
    old_count q k t =
        let bound = h in
        let other = ne_of_test_sym b p.live hole q clear t in
        elim (Bool-cases (leb p_hi q)) [
          | inl past ↦
              let mono = count_below_mono (test p.live) p_hi q (leb→le p_hi q past) in
              elim (Bool-cases (ltb q hole)) [
                | inl inner ↦
                    let back : q + 1 - 1 ≡ q = omega arith in
                    let step = count_pred b p.live (q + 1) (omega arith) in
                    let live : test p.live (q + 1 - 1) ≡ true = ap (test p.live) back ∙ t in
                    let same = ap (count_below (test p.live)) back in
                    let count = count' (q + 1) (ground arith) in
                    rw (past, inner) (ground (arith, mono, step, live, same, count))
                | inr high ↦ rw (past, high) (ground (arith, mono, count' q (omega arith)))
              ]
          | inr low ↦
              let less = count_below_lt (test p.live) q p_hi t (ground arith) in
              rw low (ground (arith, less, count' q (omega arith)))
        ]

    live_right :
        (q : ℕ) → q < width → test p.live q ≡ true → test (with_bit p.live hole) (right q) ≡ true
    unfolding right
    live_right q k t = elim (Bool-cases (leb p_hi q && ltb q hole)) [
      | inl moves ↦
          let bound = h in
          let set = set' (q + 1) (ground arith) in
          let inner = run (q + 1) in rw moves (ground (arith, set, inner))
      | inr stays ↦ rw stays (set' q k ∙ ground arith)
    ]

    slot_right :
        (q : ℕ)
        → q < width
        → test p.live q ≡ true
        → moved_right.elements.slot (right q) ≡ p.elements.slot q
    unfolding right moved_right copied_slot
    slot_right q k t =
        let other = ne_of_test_sym b p.live hole q clear t in
        elim (Bool-cases (leb p_hi q)) [
          | inl past ↦ elim (Bool-cases (ltb q hole)) [
            | inl inner ↦
                let back : q + 1 - 1 ≡ q = omega arith in
                let apart : (p_hi == q + 1) ≡ false = ground arith in
                rw (past, inner, apart)
                  (in_run (q + 1) (ground arith) (ground arith) ∙ ap p.elements.slot back)
            | inr high ↦
                let apart : (p_hi == q) ≡ false = ground arith in
                rw (past, high, apart) (out_run_high q (ground arith))
          ]
          | inr low ↦
              let apart : (p_hi == q) ≡ false = ground arith in
              rw (low, apart) (out_run_low q (ground arith))
        ]

    filled_right :
        (q : ℕ)
        → q < width
        → test (with_bit p.live hole) q ≡ true
        → (p_hi == q) ≡ false
        → (x : T) × (copied_slot q ≡ some x)
    filled_right q k t apart = elim (Bool-cases (ltb hole q)) [
      | inl high ↦
          let (x, held) =
            valid.filled q k (was_live b p i v hole valid h within clear q k t (ground arith)) in
          (x, out_run_high q (ltb→lt hole q high) ∙ held)
      | inr from ↦ elim (Bool-cases (ltb p_hi q)) [
        | inl inner ↦
            let bound = h in
            let (x, held) =
              valid.filled (q - 1) (omega arith) (run (q - 1) (ground arith) (ground arith)) in
            (x, in_run q (ground arith) (ground arith) ∙ held)
        | inr low ↦
            let (x, held) =
              valid.filled q k (was_live b p i v hole valid h within clear q k t (ground arith)) in
            (x, out_run_low q (ground arith) ∙ held)
      ]
    ]

    pub shift_right-Places :
        (shift_right_and_write b p i p_hi hole v ≡ some moved_right)
        × Places b p moved_right i v hole
    unfolding shift_right_and_write moved_right copied_slot
    shift_right-Places =
        let sized = valid.sized in
        let bound = h in
        let m = copied p.elements p_hi p.elements (p_hi + 1) (hole - p_hi) in
        let here = set' p_hi (omega arith) in
        let inner = run p_hi in
        (
          rw (
            copy_in p.elements p_hi p.elements (p_hi + 1) (hole - p_hi) (omega arith) (omega arith),
            write_in m p_hi v (omega arith),
            try_from_usize_index width hole width_small h,
          ),
          record {
            at = p_hi;
            move = right;
            occupancy_lem = refl;
            live_lem = refl;
            hole_in = h;
            hole_fits = within;
            hole_clear = clear;
            cap_lem = refl;
            size_lem = refl;
            new_nth = (
              omega arith,
              ground (arith, here, inner),
              ground (arith, count' p_hi (omega arith), ranked),
            );
            new_slot = ground arith;
            old_nth = λ q k t. (right_in q k, live_right q k t, old_count q k t);
            old_slot = slot_right;
            filled = λ q k t.
                written_filled b p i v hole valid h within clear m p_hi q (filled_right q k t);
          },
        )
