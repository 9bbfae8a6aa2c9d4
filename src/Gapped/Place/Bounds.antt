-- ===== src/Gapped/Place/Bounds.antt =====
-- `neighbor_bounds`: the gap between the neighbours of an absent index.
use arity_arrays.Common.{
  ℕ, ◌+◌, ◌-◌, ◌^◌, ◌<◌, ◌≤◌, ◌≡◌, sym, ◌∙◌, ap, refl, false, ◌⊎◌, Option, none, some, ◌==◌,
  if◌then◌else◌, ◌>>=◌, arith, Bool-cases, inl, inr, ==_iff, count_below, count_below_mono,
  count_below_lt, count_below_cut, count_below_ext, ltb, ◌&&◌,
}
use arity_arrays.Bitmap.{Bitmap, IsNth, Selects, select}
use arity_arrays.Bitmap.Laws.{select_lem, rank-le-count_ones}
use arity_arrays.Gapped.{Inner}
use arity_arrays.Gapped.Laws.{IsValidInner}
use arity_arrays.Gapped.Place.{neighbor_bounds}
use arity_arrays.Gapped.Place.Moves.{count_pred}

-- One past the lower neighbour, where none is the sentinel -1.
abbrev pub past : Option ℕ → ℕ
past none = 0
past (some p_lo) = p_lo + 1

module _ (b : Bitmap) {T : Type 0} (p : Inner b T) (r : ℕ) where
  -- The lower neighbour, of an index with r present indices below it: the slot of the last of these.
  abbrev pub IsLower : Option ℕ → Type 0
  IsLower none = r ≡ 0
  IsLower (some q) = (0 < r) × IsNth (b.test p.live) b.width (r - 1) q

  -- The upper neighbour: the slot of the next present index, or the capacity where there is none.
  abbrev pub IsUpper : ℕ → Type 0
  IsUpper q =
      ((r ≡ b.count_ones p.occupancy) × (q ≡ 2 ^ p.cap_exp)) ⊎ IsNth (b.test p.live) b.width r q

-- What the bounds of a gap are: the slots of the neighbours of i, with no live slot between them, and
-- as many live slots below the end as there are present indices below i.
pub record Gap {T : Type 0} (b : Bitmap) (p : Inner b T) (i : ℕ) (result : Option (Option ℕ × ℕ))
    : Type 0 where
  pub p_lo : Option ℕ
  pub p_hi : ℕ
  pub returns : result ≡ some (p_lo, p_hi)
  pub lower : IsLower b p (b.rank p.occupancy i) p_lo
  pub upper : IsUpper b p (b.rank p.occupancy i) p_hi
  pub within : p_hi ≤ 2 ^ p.cap_exp
  pub ordered : past p_lo ≤ p_hi
  pub ranked : count_below (b.test p.live) p_hi ≡ b.rank p.occupancy i
  pub empty : (q : ℕ) → past p_lo ≤ q → q < p_hi → b.test p.live q ≡ false

module _ (b : Bitmap) {T : Type 0} (p : Inner b T) (i : ℕ) (valid : IsValidInner b p)
    (h : i < b.width) where
  open b use {width, count_ones, test, rank, count_ones_lem}

  abbrev r : ℕ
  r = rank p.occupancy i

  -- A rank below the count is that of a live slot.
  nth_live :
      (n : ℕ)
      → n < count_ones p.occupancy
      → (q : ℕ) × (select b p.live n ≡ some (some q)) × IsNth (test p.live) width n q
  nth_live n k = go (select_lem b p.live n)
    where
      go :
          (s : Option ℕ) × (select b p.live n ≡ some s) × Selects (test p.live) width n s
          → (q : ℕ) × (select b p.live n ≡ some (some q)) × IsNth (test p.live) width n q
      go (none, e, over) = absurd (omega (arith, valid.balanced, count_ones_lem p.live))
      go (some q, e, nth) = (q, e, nth)

  pub live_cap : count_below (test p.live) (2 ^ p.cap_exp) ≡ count_ones p.live
  live_cap =
      sym (count_below_cut (test p.live) (2 ^ p.cap_exp) width valid.fits)
      ∙ count_below_ext (λ q. test p.live q && ltb q (2 ^ p.cap_exp)) (test p.live) width
          (λ q k. (let inside = valid.inside q k in ground (arith, inside, valid.sized)))
      ∙ sym (count_ones_lem p.live)

  hi :
      (q : ℕ) × ((if r == count_ones p.occupancy
          then some (2 ^ p.cap_exp)
          else (select b p.live r >>= λ s. s))
        ≡ some q)
      × IsUpper b p r q
      × (q ≤ 2 ^ p.cap_exp)
      × (count_below (test p.live) q ≡ r)
  hi = elim (Bool-cases (r == count_ones p.occupancy)) [
    | inl last ↦ (
      2 ^ p.cap_exp,
      rw last,
      inl ((==_iff r (count_ones p.occupancy)).0 last, refl),
      omega arith,
      live_cap ∙ valid.balanced ∙ sym ((==_iff r (count_ones p.occupancy)).0 last),
    )
    | inr inner ↦
        let fits = rank-le-count_ones b p.occupancy i h in
        let (q, e, nth) = nth_live r (ground arith) in
        let inside = valid.inside q nth.0 nth.1 in
        (q, rw (inner, e), inr nth, omega (arith, inside, valid.sized), nth.2)
  ]

  lo :
      (l : Option ℕ) × ((if r == 0
          then some none
          else (select b p.live (r - 1) >>= λ s. s >>= λ q. some (some q)))
        ≡ some l)
      × IsLower b p r l
      × (count_below (test p.live) (past l) ≡ r)
      × ((n : ℕ) → count_below (test p.live) n ≡ r → past l ≤ n)
  lo = elim (Bool-cases (r == 0)) [
    | inl first ↦
        (none, rw first, (==_iff r 0).0 first, sym ((==_iff r 0).0 first), λ n c. omega arith)
    | inr inner ↦
        let fits = rank-le-count_ones b p.occupancy i h in
        let (q, e, nth) = nth_live (r - 1) (ground arith) in
        let back : q + 1 - 1 ≡ q = omega arith in
        let step = count_pred b p.live (q + 1) (omega arith) in
        let below = ap (count_below (test p.live)) back in
        let live = ap (test p.live) back ∙ nth.1 in
        (
          some q,
          rw (inner, e),
          (ground arith, nth),
          ground (arith, step, below, live, nth.2),
          λ n c. (let mono = count_below_mono (test p.live) n q in ground (arith, mono, nth.2)),
        )
  ]

  -- For a valid block and an index i below the width, `neighbor_bounds` does not panic. Its start is
  -- the slot of the last present index below i, or none where there is none; its end is the slot of
  -- the first present index that is not below i, or the capacity where there is none. The end is at
  -- most the capacity and not before the start, no slot between them is live, and as many live slots
  -- are below the end as there are present indices below i.
  pub neighbor_bounds-Gap :
      Gap b p i (neighbor_bounds b p.occupancy p.live (2 ^ p.cap_exp) (count_ones p.occupancy) i)
  unfolding neighbor_bounds
  neighbor_bounds-Gap =
      let (l, le, lower, lc, lowest) = lo in
      let (q, he, upper, within, hc) = hi in
      record {
        p_lo = l;
        p_hi = q;
        returns = rw (le, he);
        lower = lower;
        upper = upper;
        within = within;
        ordered = lowest q hc;
        ranked = hc;
        empty = λ x a c. elim (Bool-cases (test p.live x)) [
          | inl f ↦
              let less = count_below_lt (test p.live) x q f c in
              let mono = count_below_mono (test p.live) (past l) x a in absurd (omega arith)
          | inr f ↦ f
        ];
      }
