-- ===== src/Gapped/Update/Holes.antt =====
-- The holes on the two sides of adjacent neighbours, and the lengths of runs.
use arity_arrays.Common.{
  ℕ, zero, suc, ◌+◌, ◌-◌, ◌<◌, ◌≤◌, ◌≡◌, refl, Bool, true, false, Option, none, some, ◌==◌, arith,
  count_below,
}
use arity_arrays.Bitmap.{
  Bitmap, NearestBelow, NearestIn, nearest_clear_in, nearest_clear_at_or_below,
}
use arity_arrays.Bitmap.Laws.{nearest_clear_in_ok, nearest_clear_at_or_below_ok}
use arity_arrays.Gapped.Place.{nearest_hole_left, nearest_hole_right}
use arity_arrays.Gapped.Place.Bounds.{past}
use arity_arrays.Gapped.Update.{above}

-- A run of places that hold, and of places that do not, in a count.
pub count_below_run :
    (f : ℕ → Bool) (a n : ℕ)
    → ((q : ℕ) → a ≤ q → q < a + n → f q ≡ true)
    → count_below f (a + n) ≡ count_below f a + n
count_below_run f a zero h = let e : a + 0 ≡ a = omega arith in rw e (omega arith)
count_below_run f a (suc n) h =
    let e : a + suc n ≡ suc (a + n) = omega arith in
    let last = h (a + n) (omega arith) (omega arith) in
    let rest = count_below_run f a n (λ q k l. h q k (omega arith)) in rw e (ground arith)

pub count_below_gap :
    (f : ℕ → Bool) (a n : ℕ)
    → ((q : ℕ) → a ≤ q → q < a + n → f q ≡ false)
    → count_below f (a + n) ≡ count_below f a
count_below_gap f a zero h = let e : a + 0 ≡ a = omega arith in rw e
count_below_gap f a (suc n) h =
    let e : a + suc n ≡ suc (a + n) = omega arith in
    let last = h (a + n) (omega arith) (omega arith) in
    let rest = count_below_gap f a n (λ q k l. h q k (omega arith)) in rw e (ground arith)

pub not_full : (n cap : ℕ) → n < cap → (n == cap) ≡ false
not_full n cap less = ground arith

pub above-past : (p_lo : Option ℕ) → above p_lo ≡ past p_lo
above-past none = refl
above-past (some l) = refl

module _ (b : Bitmap) where
  open b use {Bits, width, test}

  -- The hole to the left of a run that ends at p_hi, with its distance.
  abbrev pub IsLeft : Bits → ℕ → Option (ℕ × ℕ) → Type 0
  IsLeft live p_hi none = (q : ℕ) → q < p_hi → test live q ≡ true
  IsLeft live p_hi (some (h, d)) =
      (h + 1 + d ≡ p_hi) × (test live h ≡ false) × ((q : ℕ) → h < q → q < p_hi → test live q ≡ true)

  abbrev pub IsRight : Bits → ℕ → ℕ → Option (ℕ × ℕ) → Type 0
  IsRight live p_hi cap none = (q : ℕ) → p_hi ≤ q → q < cap → test live q ≡ true
  IsRight live p_hi cap (some (h, d)) =
      (p_hi + d ≡ h)
      × (h < cap)
      × (test live h ≡ false)
      × ((q : ℕ) → p_hi ≤ q → q < h → test live q ≡ true)

  pub nearest_hole_left-IsLeft :
      (live : Bits) (p_lo : Option ℕ) (p_hi : ℕ)
      → past p_lo ≡ p_hi
      → p_hi ≤ width
      → (r : Option (ℕ × ℕ)) × (nearest_hole_left b live p_lo ≡ some r) × IsLeft live p_hi r
  unfolding nearest_hole_left
  nearest_hole_left-IsLeft live none p_hi e le = (none, refl, λ q k. absurd (omega arith))
  nearest_hole_left-IsLeft live (some l) p_hi e le =
      go (nearest_clear_at_or_below_ok b live l (omega arith))
    where
      go :
          (r : Option ℕ) × (nearest_clear_at_or_below b live l ≡ some r)
            × NearestBelow (test live) l r
          → (r : Option (ℕ × ℕ)) × (nearest_hole_left b live (some l) ≡ some r) × IsLeft live p_hi r
      go (none, run, all) = (none, rw run, λ q k. all q (omega arith))
      go (some h, run, (under, clear, all)) =
          (some (h, l - h), rw run, (omega arith, clear, λ q k m. all q k (omega arith)))

  pub nearest_hole_right-IsRight :
      (live : Bits) (p_hi cap : ℕ)
      → p_hi ≤ cap
      → cap ≤ width
      → (r : Option (ℕ × ℕ)) × (nearest_hole_right b live p_hi cap ≡ some r)
        × IsRight live p_hi cap r
  unfolding nearest_hole_right
  nearest_hole_right-IsRight live p_hi cap le fits =
      go (nearest_clear_in_ok b live p_hi cap le fits)
    where
      go :
          (r : Option ℕ) × (nearest_clear_in b live p_hi cap ≡ some r)
            × NearestIn (test live) p_hi cap r
          → (r : Option (ℕ × ℕ)) × (nearest_hole_right b live p_hi cap ≡ some r)
            × IsRight live p_hi cap r
      go (none, run, all) = (none, rw run, all)
      go (some h, run, (over, under, clear, all)) =
          (some (h, h - p_hi), rw run, (omega arith, under, clear, all))
