-- ===== src/Niche/Range.antt =====
-- crates/arity-index/src/range.rs: the double-ended ranges over the values of an index type.
pub mod Laws
use arity_arrays.Common.{
  ℕ, zero, suc, ◌+◌, ◌-◌, ◌<◌, Bool, true, false, Option, none, some, List, [], ◌∷◌, ltb, leb, ◌==◌,
  if◌then◌else◌, ◌>>=◌,
}
use arity_arrays.Iteration.{DoubleEnded}
use arity_arrays.Niche.{try_from_usize}

pub record NicheRange : Type 0 where
  pub lo : ℕ
  pub hi : ℕ

pub record NicheRangeInclusive : Type 0 where
  pub lo : ℕ
  pub hi : ℕ
  pub done : Bool

module _ (count : ℕ) where
  -- `new(start, end)`, of two indices.
  unfoldable pub range_new : ℕ → ℕ → NicheRange
  range_new start end = record { lo = start; hi = end }

  -- `unwrap_unchecked` of a failed conversion is undefined behaviour: `none`.
  unfoldable pub range_next : NicheRange → Option (Option ℕ × NicheRange)
  unfolding try_from_usize
  range_next r =
      if leb r.hi r.lo
      then some (none, r)
      else try_from_usize count r.lo >>= λ v. some (some v, record r { lo = r.lo + 1 })

  unfoldable pub range_next_back : NicheRange → Option (Option ℕ × NicheRange)
  unfolding try_from_usize
  range_next_back r =
      if leb r.hi r.lo
      then some (none, r)
      else try_from_usize count (r.hi - 1) >>= λ v. some (some v, record r { hi = r.hi - 1 })

  -- `saturating_sub`
  unfoldable pub range_len : NicheRange → ℕ
  range_len r = r.hi - r.lo

  abbrev pub range : DoubleEnded NicheRange ℕ
  range = record { next = range_next; next_back = range_next_back; len = range_len }

  unfoldable pub inclusive_new : ℕ → ℕ → NicheRangeInclusive
  inclusive_new start end = record { lo = start; hi = end; done = ltb end start }

  -- `full`, and the `Niche::all` that it backs.
  unfoldable pub full : NicheRangeInclusive
  full = record { lo = 0; hi = count - 1; done = false }

  unfoldable pub inclusive_next : NicheRangeInclusive → Option (Option ℕ × NicheRangeInclusive)
  unfolding try_from_usize
  inclusive_next r =
      if r.done
      then some (none, r)
      else try_from_usize count r.lo >>= λ v.
          some
            (some v, if r.lo == r.hi then record r { done = true } else record r { lo = r.lo + 1 })

  unfoldable pub inclusive_next_back : NicheRangeInclusive → Option (Option ℕ × NicheRangeInclusive)
  unfolding try_from_usize
  inclusive_next_back r =
      if r.done
      then some (none, r)
      else try_from_usize count r.hi >>= λ v.
          some
            (some v, if r.lo == r.hi then record r { done = true } else record r { hi = r.hi - 1 })

  unfoldable pub inclusive_len : NicheRangeInclusive → ℕ
  inclusive_len r = if r.done then 0 else r.hi - r.lo + 1

  abbrev pub inclusive : DoubleEnded NicheRangeInclusive ℕ
  inclusive = record { next = inclusive_next; next_back = inclusive_next_back; len = inclusive_len }
