-- ===== src/Gapped/Place/Effects.antt =====
-- The three ways to fill a hole are insertions into the map, and none of them faults.
use arity_arrays.Common.{ℕ, ◌^◌, ◌<◌, ◌≤◌, ◌≡◌, true, false, some, count_below, arith}
use arity_arrays.Bitmap.{Bitmap}
use arity_arrays.Gapped.{Inner}
use arity_arrays.Gapped.Laws.{IsValidInner}
use arity_arrays.Gapped.Place.{write_into_hole, shift_left_and_write, shift_right_and_write}
use arity_arrays.Gapped.Place.Laws.{Placed, places-Placed}
use arity_arrays.Gapped.Place.Moves.{filled_in, write_into_hole-Places}
use arity_arrays.Gapped.Place.Moves.Left.{moved_left, shift_left-Places}
use arity_arrays.Gapped.Place.Moves.Right.{moved_right, shift_right-Places}

module _ (b : Bitmap) {T : Type 0} (p : Inner b T) (i : ℕ) (v : T) (valid : IsValidInner b p)
    (h : i < b.width) (absent : b.test p.occupancy i ≡ false) where
  -- For a valid block, an index i below the width that is absent, and a hole below the capacity
  -- with as many live slots below it as there are present indices below i: `write_into_hole` does
  -- not fault, and the block after it is valid, has the bit i set, and differs as a map at i only,
  -- where it holds the value.
  pub write_into_hole-Placed :
      (hole : ℕ)
      → hole < 2 ^ p.cap_exp
      → b.test p.live hole ≡ false
      → count_below (b.test p.live) hole ≡ b.rank p.occupancy i
      → (p' : Inner b T) × (write_into_hole b p i hole v ≡ some p') × Placed b p p' i v
  write_into_hole-Placed hole fits clear ranked =
      let (returns, places) =
        write_into_hole-Places b p i v hole valid (omega (arith, valid.fits)) fits clear ranked in
      (
        filled_in b p i v hole valid (omega (arith, valid.fits)) fits clear ranked,
        returns,
        places-Placed b p _ i v hole valid h absent places,
      )

  -- For a valid block, an index i below the width that is absent, and a hole below p_hi such that
  -- every slot between them is live, p_hi is at most the capacity, and as many live slots are below
  -- p_hi as there are present indices below i: `shift_left_and_write` does not fault, and the block
  -- after it is valid, has the bit i set, and differs as a map at i only, where it holds the value.
  pub shift_left_and_write-Placed :
      (hole p_hi : ℕ)
      → hole < p_hi
      → p_hi ≤ 2 ^ p.cap_exp
      → b.test p.live hole ≡ false
      → ((q : ℕ) → hole < q → q < p_hi → b.test p.live q ≡ true)
      → count_below (b.test p.live) p_hi ≡ b.rank p.occupancy i
      → (p' : Inner b T) × (shift_left_and_write b p i hole p_hi v ≡ some p') × Placed b p p' i v
  shift_left_and_write-Placed hole p_hi under within clear run ranked =
      let (returns, places) =
        shift_left-Places b p i v hole p_hi valid under within clear run ranked in
      (
        moved_left b p i v hole p_hi valid under within clear run ranked,
        returns,
        places-Placed b p _ i v hole valid h absent places,
      )

  -- For a valid block, an index i below the width that is absent, and a hole below the capacity
  -- such that every slot from p_hi up to it is live, and as many live slots are below p_hi as there
  -- are present indices below i: `shift_right_and_write` does not fault, and the block after it is
  -- valid, has the bit i set, and differs as a map at i only, where it holds the value.
  pub shift_right_and_write-Placed :
      (hole p_hi : ℕ)
      → p_hi ≤ hole
      → hole < 2 ^ p.cap_exp
      → b.test p.live hole ≡ false
      → ((q : ℕ) → p_hi ≤ q → q < hole → b.test p.live q ≡ true)
      → count_below (b.test p.live) p_hi ≡ b.rank p.occupancy i
      → (p' : Inner b T) × (shift_right_and_write b p i p_hi hole v ≡ some p') × Placed b p p' i v
  shift_right_and_write-Placed hole p_hi under within clear run ranked =
      let (returns, places) =
        shift_right-Places b p i v hole p_hi valid under within clear run ranked in
      (
        moved_right b p i v hole p_hi valid under within clear run ranked,
        returns,
        places-Placed b p _ i v hole valid h absent places,
      )
