-- ===== src/Gapped/Place/Moves.antt =====
-- `write_into_hole` keeps the order of the live slots, and what the three ways to fill a hole share.
pub mod Left
pub mod Right
use arity_arrays.Common.{
  ℕ, zero, suc, ◌+◌, ◌-◌, ◌^◌, ◌<◌, ◌≤◌, ◌≡◌, refl, sym, ◌∙◌, ap, Bool, true, false, not, ◌||◌,
  ◌&&◌, Option, none, some, ◌==◌, ltb, ltb→lt, leb, if◌then◌else◌, ◌>>=◌, arith, Bool-cases, inl,
  inr, indicator, ==_iff, count_below, count_below_mono, count_below_lt, debug_assert,
}
use arity_arrays.Memory.{Block, written, copied, write, write_in, copy, copy_in}
use arity_arrays.Niche.{try_from_usize}
use arity_arrays.Niche.Laws.{try_from_usize_index}
use arity_arrays.Bitmap.{Bitmap, IsNth}
use arity_arrays.Bitmap.Laws.{ne_of_test, ne_of_test_sym, count_below-with_bit}
use arity_arrays.Gapped.{Inner}
use arity_arrays.Gapped.Laws.{IsValidInner}
use arity_arrays.Gapped.Place.{write_into_hole, shift_left_and_write, shift_right_and_write}
use arity_arrays.Gapped.Place.Laws.{Places}

-- The count below a place, from that below the one before.
pub count_pred :
    (b : Bitmap) (x : b.Bits) (n : ℕ)
    → 0 < n
    → count_below (b.test x) n ≡ count_below (b.test x) (n - 1) + indicator (b.test x (n - 1))
count_pred b x zero h = absurd (omega arith)
count_pred b x (suc n) h = let z : suc n - 1 ≡ n = omega arith in rw z refl

module _ (b : Bitmap) {T : Type 0} where
  open b use {Bits, width, width_small, count_ones, test, with_bit, rank, test-with_bit}

  module _ (p : Inner b T) (i : ℕ) (v : T) (hole : ℕ) (valid : IsValidInner b p) (h : hole < width)
      (fits : hole < 2 ^ p.cap_exp) (clear : test p.live hole ≡ false) where
    -- Counts of the live slots when the hole is filled.
    pub count_after :
        (n : ℕ)
        → n ≤ width
        → count_below (test (with_bit p.live hole)) n
          ≡ count_below (test p.live) n + indicator (ltb hole n)
    count_after n k = count_below-with_bit b p.live hole n h k clear

    pub live_after :
        (q : ℕ) → q < width → test (with_bit p.live hole) q ≡ (test p.live q || (hole == q))
    live_after q k = test-with_bit p.live hole q h k

    pub written_filled :
        (m : Block T) (w q : ℕ)
        → ((w == q) ≡ false → (x : T) × (m.slot q ≡ some x))
        → (x : T) × ((written m w v).slot q ≡ some x)
    written_filled m w q held = elim (Bool-cases (w == q)) [
      | inl same ↦ (v, rw same)
      | inr other ↦ let (x, e) = held other in (x, rw other e)
    ]

    -- A slot that is live after, other than the hole, was live before.
    pub was_live :
        (q : ℕ)
        → q < width
        → test (with_bit p.live hole) q ≡ true
        → (hole == q) ≡ false
        → test p.live q ≡ true
    was_live q k t other = let set = sym (live_after q k) ∙ t in ground arith

    module _ (ranked : count_below (test p.live) hole ≡ rank p.occupancy i) where
      pub filled_in : Inner b T
      filled_in = record p {
        occupancy = with_bit p.occupancy i;
        live = with_bit p.live hole;
        elements = written p.elements hole v;
      }

      pub write_into_hole-Places :
          (write_into_hole b p i hole v ≡ some filled_in) × Places b p filled_in i v hole
      unfolding write_into_hole filled_in
      write_into_hole-Places =
          let sized = valid.sized in
          (
            rw (
              try_from_usize_index width hole width_small h,
              clear,
              write_in p.elements hole v (omega arith),
            ),
            record {
              at = hole;
              move = λ q. q;
              occupancy_lem = refl;
              live_lem = refl;
              hole_in = h;
              hole_fits = fits;
              hole_clear = clear;
              cap_lem = refl;
              size_lem = refl;
              new_nth = (
                h,
                live_after hole h ∙ ground arith,
                count_after hole (omega arith) ∙ ground arith,
              );
              new_slot = ground arith;
              old_nth = λ q k t.
                  (let mono = count_below_mono (test p.live) hole q in
                    let less = count_below_lt (test p.live) q hole t in
                    let other = ne_of_test_sym b p.live hole q clear t in
                    (k, live_after q k ∙ ground arith, count_after q (omega arith) ∙ ground arith));
              old_slot = λ q k t. (let other = ne_of_test_sym b p.live hole q clear t in rw other);
              filled = λ q k t.
                  written_filled p.elements hole q (λ o. valid.filled q k (was_live q k t o));
            },
          )
