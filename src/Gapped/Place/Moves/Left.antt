-- ===== src/Gapped/Place/Moves/Left.antt =====
-- `shift_left_and_write` keeps the order of the live slots.
use arity_arrays.Common.{
  ℕ, ◌+◌, ◌-◌, ◌^◌, ◌<◌, ◌≤◌, ◌≡◌, refl, sym, ◌∙◌, ap, true, false, ◌&&◌, Option, some, ◌==◌, ltb,
  ltb→lt, leb, if◌then◌else◌, arith, Bool-cases, inl, inr, indicator, ==_iff, count_below,
  count_below_mono, count_below_lt,
}
use arity_arrays.Memory.{written, copied, write_in, copy_in}
use arity_arrays.Niche.Laws.{try_from_usize_index}
use arity_arrays.Bitmap.{Bitmap}
use arity_arrays.Bitmap.Laws.{ne_of_test_sym}
use arity_arrays.Gapped.{Inner}
use arity_arrays.Gapped.Laws.{IsValidInner}
use arity_arrays.Gapped.Place.{shift_left_and_write}
use arity_arrays.Gapped.Place.Laws.{Places}
use arity_arrays.Gapped.Place.Moves.{count_after, live_after, written_filled, was_live, count_pred}

module _ (b : Bitmap) {T : Type 0} where
  open b use {Bits, width, width_small, count_ones, test, with_bit, rank, test-with_bit}

  module _ (p : Inner b T) (i : ℕ) (v : T) (hole p_hi : ℕ) (valid : IsValidInner b p)
      (under : hole < p_hi) (within : p_hi ≤ 2 ^ p.cap_exp) (clear : test p.live hole ≡ false)
      (run : (q : ℕ) → hole < q → q < p_hi → test p.live q ≡ true)
      (ranked : count_below (test p.live) p_hi ≡ rank p.occupancy i) where
    h : hole < width
    h = omega (arith, valid.fits)

    pub moved_left : Inner b T
    moved_left = record p {
      occupancy = with_bit p.occupancy i;
      live = with_bit p.live hole;
      elements =
          written (copied p.elements (hole + 1) p.elements hole (p_hi - hole - 1)) (p_hi - 1) v;
    }

    left : ℕ → ℕ
    left q = if ltb hole q && ltb q p_hi then q - 1 else q

    left_in : (q : ℕ) → q < width → left q < width
    unfolding left
    left_in q k = ground arith

    copied_slot : (q : ℕ) → Option T
    copied_slot q = (copied p.elements (hole + 1) p.elements hole (p_hi - hole - 1)).slot q

    in_run : (q : ℕ) → hole ≤ q → q + 1 < p_hi → copied_slot q ≡ p.elements.slot (q + 1)
    unfolding copied_slot
    in_run q a c = let z : q - hole + (hole + 1) ≡ q + 1 = omega arith in ground arith

    out_run_low : (q : ℕ) → q < hole → copied_slot q ≡ p.elements.slot q
    unfolding copied_slot
    out_run_low q a = ground arith

    out_run_high : (q : ℕ) → p_hi ≤ q + 1 → copied_slot q ≡ p.elements.slot q
    unfolding copied_slot
    out_run_high q a = ground arith

    -- One place down in the run, the counts are as before.
    run_count :
        (n : ℕ)
        → hole < n
        → n ≤ p_hi
        → count_below (test (with_bit p.live hole)) (n - 1) ≡ count_below (test p.live) n
    run_count n a c =
        let step = count_pred b p.live n (omega arith) in
        let count =
          count_after b p i v hole valid h (omega arith) clear (n - 1)
            (omega (arith, valid.fits)) in
        elim (Bool-cases (hole == n - 1)) [
          | inl last ↦
              let z : test p.live (n - 1) ≡ false =
                ap (test p.live) (sym ((==_iff hole (n - 1)).0 last)) ∙ clear in
              ground (arith, step, count, z)
          | inr inner ↦
              let z = run (n - 1) (ground arith) (omega arith) in ground (arith, step, count, z)
        ]

    old_count :
        (q : ℕ)
        → q < width
        → test p.live q ≡ true
        → count_below (test (with_bit p.live hole)) (left q)
          ≡ count_below (test p.live) q
            + indicator (leb (rank p.occupancy i) (count_below (test p.live) q))
    unfolding left
    old_count q k t =
        let other = ne_of_test_sym b p.live hole q clear t in
        elim (Bool-cases (ltb hole q)) [
          | inl past ↦ elim (Bool-cases (ltb q p_hi)) [
            | inl inner ↦
                let less = count_below_lt (test p.live) q p_hi t (ltb→lt q p_hi inner) in
                rw (past, inner) (ground (arith, less, run_count q (ltb→lt hole q past)))
            | inr high ↦
                let mono = count_below_mono (test p.live) p_hi q (ground arith) in
                let count = count_after b p i v hole valid h (omega arith) clear q (omega arith) in
                rw (past, high) (ground (arith, count, mono))
          ]
          | inr low ↦
              let less = count_below_lt (test p.live) q p_hi t (ground arith) in
              let count = count_after b p i v hole valid h (omega arith) clear q (omega arith) in
              rw low (ground (arith, count, less))
        ]

    live_left :
        (q : ℕ) → q < width → test p.live q ≡ true → test (with_bit p.live hole) (left q) ≡ true
    unfolding left
    live_left q k t = elim (Bool-cases (ltb hole q && ltb q p_hi)) [
      | inl moves ↦
          let set =
            live_after b p i v hole valid h (omega (arith, valid.fits)) clear (q - 1)
              (omega arith) in
          let inner = run (q - 1) in rw moves (ground (arith, set, inner))
      | inr stays ↦
          let set = live_after b p i v hole valid h (omega (arith, valid.fits)) clear q k in
          rw stays (set ∙ ground arith)
    ]

    slot_left :
        (q : ℕ)
        → q < width
        → test p.live q ≡ true
        → moved_left.elements.slot (left q) ≡ p.elements.slot q
    unfolding left moved_left copied_slot
    slot_left q k t =
        let other = ne_of_test_sym b p.live hole q clear t in
        elim (Bool-cases (ltb hole q)) [
          | inl past ↦ elim (Bool-cases (ltb q p_hi)) [
            | inl inner ↦
                let back : q - 1 + 1 ≡ q = ground arith in
                let apart : (p_hi - 1 == q - 1) ≡ false = ground arith in
                rw (past, inner, apart)
                  (in_run (q - 1) (ground arith) (ground arith) ∙ ap p.elements.slot back)
            | inr high ↦
                let apart : (p_hi - 1 == q) ≡ false = ground arith in
                rw (past, high, apart) (out_run_high q (ground arith))
          ]
          | inr low ↦
              let apart : (p_hi - 1 == q) ≡ false = ground arith in
              rw (low, apart) (out_run_low q (ground arith))
        ]

    filled_left :
        (q : ℕ)
        → q < width
        → test (with_bit p.live hole) q ≡ true
        → (p_hi - 1 == q) ≡ false
        → (x : T) × (copied_slot q ≡ some x)
    filled_left q k t apart = elim (Bool-cases (leb hole q)) [
      | inl from ↦ elim (Bool-cases (ltb (q + 1) p_hi)) [
        | inl inner ↦
            let (x, held) =
              valid.filled (q + 1) (ground (arith, valid.fits))
                (run (q + 1) (ground arith) (ground arith)) in
            (x, in_run q (ground arith) (ground arith) ∙ held)
        | inr high ↦
            let (x, held) = valid.filled q k (
              was_live b p i v hole valid h (omega (arith, valid.fits)) clear q k t
                (ground arith)) in
            (x, out_run_high q (ground arith) ∙ held)
      ]
      | inr low ↦
          let (x, held) = valid.filled q k (
            was_live b p i v hole valid h (omega (arith, valid.fits)) clear q k t (ground arith)) in
          (x, out_run_low q (ground arith) ∙ held)
    ]

    pub shift_left-Places :
        (shift_left_and_write b p i hole p_hi v ≡ some moved_left) × Places b p moved_left i v hole
    unfolding shift_left_and_write moved_left copied_slot
    shift_left-Places =
        let sized = valid.sized in
        let fits = valid.fits in
        let m = copied p.elements (hole + 1) p.elements hole (p_hi - hole - 1) in
        let last = live_after b p i v hole valid h (omega arith) clear (p_hi - 1) (omega arith) in
        let inner = run (p_hi - 1) in
        (
          rw (
            copy_in p.elements (hole + 1) p.elements hole (p_hi - hole - 1) (omega arith)
                (omega arith),
            write_in m (p_hi - 1) v (omega arith),
            try_from_usize_index width hole width_small h,
          ),
          record {
            at = p_hi - 1;
            move = left;
            occupancy_lem = refl;
            live_lem = refl;
            hole_in = h;
            hole_fits = omega arith;
            hole_clear = clear;
            cap_lem = refl;
            size_lem = refl;
            new_nth = (
              omega arith,
              ground (arith, last, inner),
              run_count p_hi under (omega arith) ∙ ranked,
            );
            new_slot = ground arith;
            old_nth = λ q k t. (left_in q k, live_left q k t, old_count q k t);
            old_slot = slot_left;
            filled = λ q k t.
                written_filled b p i v hole valid h (omega arith) clear m (p_hi - 1) q
                  (filled_left q k t);
          },
        )
