-- ===== src/Gapped/Place.antt =====
-- crates/arity-arrays/src/gapped.rs: the placement of an absent index into a block with a hole.
pub mod Laws
pub mod Moves
pub mod Effects
pub mod Bounds
use arity_arrays.Common.{
  ℕ, suc, ◌+◌, ◌-◌, ◌^◌, Bool, true, false, not, ◌&&◌, Option, none, some, ◌==◌, ltb, leb,
  if◌then◌else◌, ◌>>=◌, debug_assert,
}
use arity_arrays.Memory.{Block, write, copy}
use arity_arrays.Niche.{try_from_usize}
use arity_arrays.Bitmap.{Bitmap, select, nearest_clear_in, nearest_clear_at_or_below}
use arity_arrays.Gapped.{Inner}

module _ (b : Bitmap) where
  open b use {Bits, rank}

  -- The sentinel -1 of p_lo is none.
  unfoldable pub neighbor_bounds : Bits → Bits → ℕ → ℕ → ℕ → Option (Option ℕ × ℕ)
  unfolding select
  neighbor_bounds occ live cap count index =
      let r = rank occ index in
      do
        p_lo ←
            if r == 0 then some none else (select b live (r - 1) >>= λ s. s >>= λ p. some (some p))
        p_hi ← if r == count then some cap else (select b live r >>= λ s. s)
        some (p_lo, p_hi)

  -- A hole, and its distance.
  unfoldable pub nearest_hole_left : Bits → Option ℕ → Option (Option (ℕ × ℕ))
  unfolding nearest_clear_at_or_below
  nearest_hole_left live none = some none
  nearest_hole_left live (some from) = nearest_clear_at_or_below b live from >>= λ hole.
      some (elim hole [ none ↦ none | some h ↦ some (h, from - h) ])

  unfoldable pub nearest_hole_right : Bits → ℕ → ℕ → Option (Option (ℕ × ℕ))
  unfolding nearest_clear_in
  nearest_hole_right live from cap = nearest_clear_in b live from cap >>= λ hole.
      some (elim hole [ none ↦ none | some h ↦ some (h, h - from) ])

module _ (b : Bitmap) {T : Type 0} where
  open b use {Bits, width, test, with_bit}

  unfoldable pub write_into_hole : Inner b T → ℕ → ℕ → T → Option (Inner b T)
  unfolding try_from_usize write
  write_into_hole p index hp value = do
    hp_idx ← try_from_usize width hp
    debug_assert (not (test p.live hp_idx)) (do
      m ← write p.elements hp value
      some (record p {
        occupancy = with_bit p.occupancy index;
        live = with_bit p.live hp_idx;
        elements = m;
      }))

  -- The run between the hole and p_hi moves down by one.
  unfoldable pub shift_left_and_write : Inner b T → ℕ → ℕ → ℕ → T → Option (Inner b T)
  unfolding try_from_usize write copy
  shift_left_and_write p index hole p_hi value = do
    m ← copy p.elements (hole + 1) p.elements hole (p_hi - hole - 1)
    m' ← write m (p_hi - 1) value
    hole_idx ← try_from_usize width hole
    some (record p {
      occupancy = with_bit p.occupancy index;
      live = with_bit p.live hole_idx;
      elements = m';
    })

  -- The run between p_hi and the hole moves up by one.
  unfoldable pub shift_right_and_write : Inner b T → ℕ → ℕ → ℕ → T → Option (Inner b T)
  unfolding try_from_usize write copy
  shift_right_and_write p index p_hi hole value = do
    m ← copy p.elements p_hi p.elements (p_hi + 1) (hole - p_hi)
    m' ← write m p_hi value
    hole_idx ← try_from_usize width hole
    some (record p {
      occupancy = with_bit p.occupancy index;
      live = with_bit p.live hole_idx;
      elements = m';
    })
