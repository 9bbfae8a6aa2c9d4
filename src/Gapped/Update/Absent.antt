-- ===== src/Gapped/Update/Absent.antt =====
-- `GappedArray::insert` at an absent index of a block with a free slot: the hole that is chosen.
use arity_arrays.Common.{
  ℕ, ◌+◌, ◌-◌, ◌^◌, ◌<◌, ◌≤◌, ◌≡◌, sym, ◌∙◌, ap, true, false, ◌&&◌, Option, none, some, ◌==◌, leb,
  if◌then◌else◌, ◌>>=◌, arith, Bool-cases, inl, inr, count_below, count_below_mono, ltb, ltb→lt,
}
use arity_arrays.Bitmap.{Bitmap, NearestIn, nearest_clear_in}
use arity_arrays.Bitmap.Laws.{nearest_clear_in_ok}
use arity_arrays.Gapped.{Inner, GappedArray}
use arity_arrays.Gapped.Laws.{IsValidInner}
use arity_arrays.Gapped.Grow.{usize_max, rebuild_with_insert}
use arity_arrays.Gapped.Place.{
  neighbor_bounds, write_into_hole, shift_left_and_write, shift_right_and_write,
}
use arity_arrays.Gapped.Place.Laws.{Placed}
use arity_arrays.Gapped.Place.Bounds.{past, Gap, neighbor_bounds-Gap, live_cap}
use arity_arrays.Gapped.Place.Effects.{
  write_into_hole-Placed, shift_left_and_write-Placed, shift_right_and_write-Placed,
}
use arity_arrays.Gapped.Update.{cost, make_room, place_absent, insert}
use arity_arrays.Gapped.Update.Holes.{
  count_below_run, count_below_gap, not_full, above-past, IsLeft, IsRight, nearest_hole_left-IsLeft,
  nearest_hole_right-IsRight,
}

module _ (b : Bitmap) {T : Type 0} (p : Inner b T) (i : ℕ) (v : T) (valid : IsValidInner b p)
    (h : i < b.width) (absent : b.test p.occupancy i ≡ false)
    (room : b.count_ones p.occupancy < 2 ^ p.cap_exp) where
  open b use {width, test, count_ones, rank, count_ones_lem}

  abbrev cap : ℕ
  cap = 2 ^ p.cap_exp

  abbrev live_below : ℕ → ℕ
  live_below n = count_below (test p.live) n

  all_live : live_below cap ≡ count_ones p.occupancy
  all_live = live_cap b p i valid h ∙ valid.balanced

  -- A run of live slots is no longer than their number.
  run_fits :
      (a n : ℕ)
      → a + n ≤ cap
      → ((q : ℕ) → a ≤ q → q < a + n → test p.live q ≡ true)
      → n ≤ count_ones p.occupancy
  run_fits a n le run =
      let more = count_below_run (test p.live) a n run in
      let mono = count_below_mono (test p.live) (a + n) cap le in let all = all_live in omega arith

  abbrev Placing : Option (GappedArray b T) → Type 0
  Placing result = (p' : Inner b T) × (result ≡ some (some p')) × Placed b p p' i v

  -- The gap is a hole.
  into_hole :
      (g : Gap b p i (neighbor_bounds b p.occupancy p.live cap (count_ones p.occupancy) i))
      (hole : ℕ)
      → past g.p_lo ≤ hole
      → hole < g.p_hi
      → test p.live hole ≡ false
      → Placing (write_into_hole b p i hole v >>= λ p'. some (some p'))
  into_hole g hole over under clear =
      let split : hole + (g.p_hi - hole) ≡ g.p_hi = omega arith in
      let none_live =
        count_below_gap (test p.live) hole (g.p_hi - hole)
          (λ q k m. g.empty q (omega arith) (omega arith)) in
      let same = ap live_below split in
      let ranked = g.ranked in
      let within = g.within in
      let (p', run, placed) =
        write_into_hole-Placed b p i v valid h absent hole (omega arith) clear
          (sym none_live ∙ same ∙ ranked) in
      (p', rw run, placed)

  -- The neighbours are adjacent, and the block has a hole on one side at least.
  module _ (p_hi : ℕ) (within : p_hi ≤ cap) (ranked : live_below p_hi ≡ rank p.occupancy i) where
    go_left :
        (hole d : ℕ)
        → IsLeft b p.live p_hi (some (hole, d))
        → Placing (shift_left_and_write b p i hole p_hi v >>= λ p'. some (some p'))
    go_left hole d (place, clear, run) =
        let (p', runs, placed) =
          shift_left_and_write-Placed b p i v valid h absent hole p_hi (omega arith) within clear
            run ranked in
        (p', rw runs, placed)

    go_right :
        (hole d : ℕ)
        → IsRight b p.live p_hi cap (some (hole, d))
        → Placing (shift_right_and_write b p i p_hi hole v >>= λ p'. some (some p'))
    go_right hole d (place, under, clear, run) =
        let (p', runs, placed) =
          shift_right_and_write-Placed b p i v valid h absent hole p_hi (omega arith) under clear
            run ranked in
        (p', rw runs, placed)

    left_cost : (hole d : ℕ) → IsLeft b p.live p_hi (some (hole, d)) → d ≤ count_ones p.occupancy
    left_cost hole d (place, clear, run) =
        run_fits (hole + 1) d (omega arith) (λ q k m. run q (omega arith) (omega arith))

    right_cost :
        (hole d : ℕ) → IsRight b p.live p_hi cap (some (hole, d)) → d ≤ count_ones p.occupancy
    right_cost hole d (place, under, clear, run) =
        run_fits p_hi d (omega arith) (λ q k m. run q k (omega arith))

    -- The live slots are fewer than the capacity.
    some_hole : IsLeft b p.live p_hi none → IsRight b p.live p_hi cap none → ⊥
    some_hole left right =
        let all = count_below_run (test p.live) 0 cap (λ q k m. elim (Bool-cases (leb p_hi q)) [
          | inl after ↦ right q (ground arith) (omega arith)
          | inr before ↦ left q (ground arith)
        ]) in
        let zero_cap : 0 + cap ≡ cap = omega arith in
        let same = ap live_below zero_cap in let total = all_live in omega arith

    -- The arms of `make_room`, with what the respread would be.
    abbrev arms :
        Option (ℕ × ℕ) → Option (ℕ × ℕ) → Option (GappedArray b T) → Option (GappedArray b T)
    arms left right respread =
        if leb (cost left) (cost right) && leb (cost left) (count_ones p.occupancy)
        then (left >>= λ (hole, _). shift_left_and_write b p i hole p_hi v >>= λ p'. some (some p'))
        else (if leb (cost right) (count_ones p.occupancy)
            then (right >>= λ (hole, _).
                shift_right_and_write b p i p_hi hole v >>= λ p'. some (some p'))
            else respread)

    -- The cheapest shift is no dearer than the respread, which is never chosen.
    chosen :
        (left right : Option (ℕ × ℕ)) (respread : Option (GappedArray b T))
        → IsLeft b p.live p_hi left
        → IsRight b p.live p_hi cap right
        → Placing (arms left right respread)
    chosen none none respread l r = absurd (some_hole l r)
    chosen none (some (k, c)) respread l r =
        let cheap = right_cost k c r in
        let fits = valid.fits in
        let small = b.width_small in
        let dear : leb usize_max c ≡ false = ground arith in
        let take : leb c (count_ones p.occupancy) ≡ true = ground arith in
        rw (dear, take) (go_right k c r)
    chosen (some (k, c)) none respread l r =
        let cheap = left_cost k c l in
        let fits = valid.fits in
        let small = b.width_small in
        let near : leb c usize_max ≡ true = ground arith in
        let take : leb c (count_ones p.occupancy) ≡ true = ground arith in
        rw (near, take) (go_left k c l)
    chosen (some (k, c)) (some (k', c')) respread l r =
        let cheap = left_cost k c l in
        let cheap' = right_cost k' c' r in
        let take : leb c (count_ones p.occupancy) ≡ true = ground arith in
        let take' : leb c' (count_ones p.occupancy) ≡ true = ground arith in
        elim (Bool-cases (leb c c')) [
          | inl near ↦ rw (near, take) (go_left k c l)
          | inr far ↦ rw (far, take') (go_right k' c' r)
        ]

    make_room-Placing : (p_lo : Option ℕ) → past p_lo ≡ p_hi → Placing (make_room b p i v p_lo p_hi)
    unfolding make_room
    make_room-Placing p_lo e =
        let fits = valid.fits in
        let (l, le, is_l) = nearest_hole_left-IsLeft b p.live p_lo p_hi e (omega arith) in
        let (r, re, is_r) = nearest_hole_right-IsRight b p.live p_hi cap within fits in
        rw (le, re) (chosen l r (rebuild_with_insert b (some p) i v cap) is_l is_r)

  -- A gap without a hole is empty.
  adjacent :
      (g : Gap b p i (neighbor_bounds b p.occupancy p.live cap (count_ones p.occupancy) i))
      → ((q : ℕ) → past g.p_lo ≤ q → q < g.p_hi → test p.live q ≡ true)
      → past g.p_lo ≡ g.p_hi
  adjacent g all =
      let ordered = g.ordered in
      elim (Bool-cases (ltb (past g.p_lo) g.p_hi)) [
        | inl less ↦
            let lt = ltb→lt (past g.p_lo) g.p_hi less in
            let live = all (past g.p_lo) (omega arith) lt in
            let clear = g.empty (past g.p_lo) (omega arith) lt in
            absurd (true_false (sym live ∙ clear))
        | inr more ↦ ground arith
      ]
    where
      true_false : true ≡ false → ⊥
      true_false e = cc

  place_absent-Placing : Placing (place_absent b (some p) i v)
  unfolding place_absent
  place_absent-Placing =
      let g = neighbor_bounds-Gap b p i valid h in
      let fits = valid.fits in
      let within = g.within in
      rw (g.returns, above-past g.p_lo)
        (search g (nearest_clear_in_ok b p.live (past g.p_lo) g.p_hi g.ordered (omega arith)))
    where
      search :
          (g : Gap b p i (neighbor_bounds b p.occupancy p.live cap (count_ones p.occupancy) i))
          → (s : Option ℕ) × (nearest_clear_in b p.live (past g.p_lo) g.p_hi ≡ some s)
            × NearestIn (test p.live) (past g.p_lo) g.p_hi s
          → Placing (
              nearest_clear_in b p.live (past g.p_lo) g.p_hi >>= λ hole. elim hole [
                | some k ↦ write_into_hole b p i k v >>= λ p'. some (some p')
                | none ↦ make_room b p i v g.p_lo g.p_hi
              ])
      search g (some k, run, (over, under, clear, all)) = rw run (into_hole g k over under clear)
      search g (none, run, all) =
          rw run (make_room-Placing g.p_hi g.within g.ranked g.p_lo (adjacent g all))

  -- For a valid block with a free slot, and an index i below the width that is absent: `insert`
  -- returns none, with no panic and no access outside the initialised slots, and leaves a valid block,
  -- which has the bit i set and differs as a map at i only, where it holds the value.
  pub insert-Placed :
      (p' : Inner b T) × (insert b (some p) i v ≡ some (none, some p')) × Placed b p p' i v
  unfolding insert
  insert-Placed =
      let (p', run, placed) = place_absent-Placing in
      let below : (count_ones p.occupancy == cap) ≡ false =
        not_full (count_ones p.occupancy) cap room in
      (p', rw (absent, below, run), placed)
