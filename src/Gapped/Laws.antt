-- ===== src/Gapped/Laws.antt =====
-- The type invariant of `GappedArray`, the map that an array stands for, and reading.
use arity_arrays.Common.{
  ℕ, zero, suc, ◌^◌, ◌<◌, ◌≤◌, ◌≡◌, ◌∙◌, refl, Bool, true, false, ◌&&◌, ◌==◌, ==_iff, count_below,
  count_below_lt, Option, none, some, if◌then◌else◌, arith, Bool-cases, inl, inr,
}
use arity_arrays.Memory.{read_in}
use arity_arrays.Bitmap.{Bitmap, IsNth, Selects, select}
use arity_arrays.Bitmap.Laws.{rank-lt-count_ones, select_lem}
use arity_arrays.Gapped.{Inner, GappedArray, get, slot_of}

-- An allocated block has as many live slots as present indices, all of them below the capacity and
-- initialised.
pub record IsValidInner {T : Type 0} (b : Bitmap) (p : Inner b T) : Type 0 where
  pub sized : p.elements.size ≡ 2 ^ p.cap_exp
  pub fits : 2 ^ p.cap_exp ≤ b.width
  pub balanced : b.count_ones p.live ≡ b.count_ones p.occupancy
  pub inside : (q : ℕ) → q < b.width → b.test p.live q ≡ true → q < p.elements.size
  pub filled :
      (q : ℕ) → q < b.width → b.test p.live q ≡ true → (v : T) × (p.elements.slot q ≡ some v)

-- The position below a limit at which the n-th of the set ones stands, counted from 0.
unfoldable pub nth_position : (ℕ → Bool) → ℕ → ℕ → Option ℕ
nth_position f zero n = none
nth_position f (suc limit) n =
    let before = nth_position f limit n in
    if (count_below f limit == n) && f limit then some limit else before

pub nth_position-IsNth :
    (f : ℕ → Bool) (limit n q : ℕ) → IsNth f limit n q → nth_position f limit n ≡ some q
unfolding nth_position
nth_position-IsNth f zero n q h = absurd (omega arith)
nth_position-IsNth f (suc limit) n q (inside, set, counted) = elim (Bool-cases (q == limit)) [
  | inl same ↦
      let last = (==_iff q limit).0 same in rw (← last, set, counted, (==_iff n n).1 refl) refl
  | inr other ↦
      let below : q < limit = ground arith in
      let less = count_below_lt f q limit set below in
      let past : (count_below f limit == n) ≡ false = ground arith in
      rw past (nth_position-IsNth f limit n q (below, set, counted))
]

module _ (b : Bitmap) {T : Type 0} where
  open b use {Bits, width, test, rank, count_ones, count_ones_lem}

  abbrev pub IsValid : GappedArray b T → Type 0
  IsValid none = Unit
  IsValid (some p) = IsValidInner b p

  -- The map from indices that the array stands for: the r-th present index reads the r-th live slot.
  abbrev pub lookup_inner : Inner b T → ℕ → Option T
  lookup_inner p i =
      if test p.occupancy i
      then elim (nth_position (test p.live) width (rank p.occupancy i)) [
        | none ↦ none
        | some q ↦ p.elements.slot q
      ]
      else none

  abbrev pub lookup : GappedArray b T → ℕ → Option T
  lookup none i = none
  lookup (some p) i = lookup_inner p i

  pub lookup-IsNth :
      (p : Inner b T) (i q : ℕ)
      → test p.occupancy i ≡ true
      → IsNth (test p.live) width (rank p.occupancy i) q
      → lookup_inner p i ≡ p.elements.slot q
  lookup-IsNth p i q e h = rw (e, nth_position-IsNth (test p.live) width (rank p.occupancy i) q h)

  -- The slot of a present index.
  pub record Slot (p : Inner b T) (i : ℕ) : Type 0 where
    pub at : ℕ
    pub value : T
    pub nth : IsNth (test p.live) width (rank p.occupancy i) at
    pub found : slot_of b p i ≡ some at
    pub inside : at < p.elements.size
    pub holds : p.elements.slot at ≡ some value
    pub reads : lookup_inner p i ≡ some value

  pub slot_of_present :
      (p : Inner b T) (i : ℕ) → IsValidInner b p → i < width → test p.occupancy i ≡ true → Slot p i
  unfolding slot_of
  slot_of_present p i valid h e = go (select_lem b p.live (rank p.occupancy i))
    where
      go :
          (r : Option ℕ) × (select b p.live (rank p.occupancy i) ≡ some r)
            × Selects (test p.live) width (rank p.occupancy i) r
          → Slot p i
      go (none, found, past) = absurd (
          omega
            (arith, valid.balanced, count_ones_lem p.live, rank-lt-count_ones b p.occupancy i h e))
      go (some q, found, nth) =
          let (v, holds) = valid.filled q nth.0 nth.1 in
          record {
            at = q;
            value = v;
            nth = nth;
            found = rw found;
            inside = valid.inside q nth.0 nth.1;
            holds = holds;
            reads = lookup-IsNth p i q e nth ∙ holds;
          }

  -- For a valid array and an index below the width, `get` neither panics nor has undefined
  -- behaviour, and reads the map: for a present index with r present ones below it, what the live
  -- slot with r live ones below it holds, and none for an absent index.
  pub get-lookup :
      (a : GappedArray b T) (i : ℕ) → IsValid a → i < width → get b a i ≡ some (lookup a i)
  unfolding get
  get-lookup none i valid h = refl
  get-lookup (some p) i valid h = elim (Bool-cases (test p.occupancy i)) [
    | inl e ↦
        let s = slot_of_present p i valid h e in
        rw (s.reads, e, s.found, read_in p.elements s.at s.inside, s.holds)
    | inr e ↦ rw e
  ]
