-- ===== src/Niche/Range/Laws.antt =====
-- Both ranges are the ascending list of their values, drawn from either end.
use arity_arrays.Common.{
  Bool-cases, inl, inr, ℕ, suc, ◌+◌, ◌-◌, ◌<◌, ◌≤◌, true, false, some, List, ◌==◌, if◌then◌else◌,
  ◌≡◌, refl, sym, ◌∙◌, ap, arith, ascending, ascending_eq, ascending-nil_inv, ascending-cons_inv,
  ascending-snoc_inv, length, length-ascending,
}
use arity_arrays.Iteration.{Refines}
use arity_arrays.Iteration.Draws.{End, run, draws, run_refines}
use arity_arrays.Niche.Laws.{try_from_usize_index}
use arity_arrays.Niche.Range.{
  NicheRange, NicheRangeInclusive, range_new, range_next, range_next_back, range_len, range,
  inclusive_new, full, inclusive_next, inclusive_next_back, inclusive_len, inclusive,
}

-- The values of a half-open range; its upper cursor is an index.
abbrev pub RangeView : ℕ → NicheRange → List ℕ → Type 0
RangeView count r xs = (ascending r.lo (r.hi - r.lo) ≡ xs) × (r.hi < count)

-- The values of a closed range; both cursors are indices, and they cross only when it is done.
abbrev remaining : NicheRangeInclusive → ℕ
remaining r = if r.done then 0 else r.hi - r.lo + 1

abbrev pub InclusiveView : ℕ → NicheRangeInclusive → List ℕ → Type 0
InclusiveView count r xs =
    (ascending r.lo (remaining r) ≡ xs) × (r.hi < count) × (r.done ≡ false → r.lo ≤ r.hi)

module _ (count : ℕ) (small : count ≤ 256) where
  range-Refines : Refines (range count) (RangeView count)
  unfolding range_next range_next_back range_len
  range-Refines = record {
    next_nil = λ r v. let e = ascending-nil_inv r.lo (r.hi - r.lo) v.0 in (r, ground arith, v);
    next_cons = λ r x xs v.
        let (p, e, rest) = ascending-cons_inv r.lo (r.hi - r.lo) x xs v.0 in
        (
          record r { lo = r.lo + 1 },
          ground (arith, try_from_usize_index count r.lo small),
          (ascending_eq (omega arith) (omega arith) ∙ rest, v.1),
        );
    next_back_nil = λ r v. let e = ascending-nil_inv r.lo (r.hi - r.lo) v.0 in (r, ground arith, v);
    next_back_snoc = λ r x xs v.
        let (p, e, rest) = ascending-snoc_inv r.lo (r.hi - r.lo) x xs v.0 in
        (
          record r { hi = r.hi - 1 },
          ground (arith, try_from_usize_index count (r.hi - 1) small),
          (ascending_eq refl (omega arith) ∙ rest, omega arith),
        );
    len_lem = λ r xs v. sym (length-ascending r.lo (r.hi - r.lo)) ∙ ap length v.0;
  }

  -- The next cursors of a closed range.
  abbrev after_front : NicheRangeInclusive → NicheRangeInclusive
  after_front r = if r.lo == r.hi then record r { done = true } else record r { lo = r.lo + 1 }

  abbrev after_back : NicheRangeInclusive → NicheRangeInclusive
  after_back r = if r.lo == r.hi then record r { done = true } else record r { hi = r.hi - 1 }

  left_of : (r : NicheRangeInclusive) → r.done ≡ false → remaining r ≡ r.hi - r.lo + 1
  left_of r d = rw d

  after_front-View :
      (r : NicheRangeInclusive) (xs : List ℕ)
      → r.done ≡ false
      → ascending (suc r.lo) (remaining r - 1) ≡ xs
      → r.hi < count
      → r.lo ≤ r.hi
      → InclusiveView count (after_front r) xs
  after_front-View r xs d e h o = elim (Bool-cases (r.lo == r.hi)) [
    | inl same ↦
        let over : 0 ≡ remaining r - 1 = ground (arith, left_of r d) in
        rw same (ascending_eq {lo = suc r.lo} refl over ∙ e, h, λ f. cc)
    | inr more ↦
        let fewer : remaining (record r { lo = r.lo + 1 }) ≡ remaining r - 1 =
          ground (arith, left_of r d) in
        rw more (ascending_eq (omega arith) fewer ∙ e, h, λ _. ground arith)
  ]

  after_back-View :
      (r : NicheRangeInclusive) (xs : List ℕ)
      → r.done ≡ false
      → ascending r.lo (remaining r - 1) ≡ xs
      → r.hi < count
      → r.lo ≤ r.hi
      → InclusiveView count (after_back r) xs
  after_back-View r xs d e h o = elim (Bool-cases (r.lo == r.hi)) [
    | inl same ↦
        let over : 0 ≡ remaining r - 1 = ground (arith, left_of r d) in
        rw same (ascending_eq {lo = r.lo} refl over ∙ e, h, λ f. cc)
    | inr more ↦
        let fewer : remaining (record r { hi = r.hi - 1 }) ≡ remaining r - 1 =
          ground (arith, left_of r d) in
        rw more (ascending_eq refl fewer ∙ e, omega arith, λ _. ground arith)
  ]

  open_of_cons : (r : NicheRangeInclusive) → 0 < remaining r → r.done ≡ false
  open_of_cons r p = ground arith

  inclusive-Refines : Refines (inclusive count) (InclusiveView count)
  unfolding inclusive_next inclusive_next_back inclusive_len
  inclusive-Refines = record {
    next_nil = λ r v. let e = ascending-nil_inv r.lo (remaining r) v.0 in (r, ground arith, v);
    next_cons = λ r x xs v.
        let (p, e, rest) = ascending-cons_inv r.lo (remaining r) x xs v.0 in
        let d = open_of_cons r p in
        let o = v.2 d in
        (
          after_front r,
          ground (arith, try_from_usize_index count r.lo small),
          after_front-View r xs d rest v.1 o,
        );
    next_back_nil = λ r v. let e = ascending-nil_inv r.lo (remaining r) v.0 in (r, ground arith, v);
    next_back_snoc = λ r x xs v.
        let (p, e, rest) = ascending-snoc_inv r.lo (remaining r) x xs v.0 in
        let d = open_of_cons r p in
        let o = v.2 d in
        (
          after_back r,
          ground (arith, try_from_usize_index count r.hi small, left_of r d),
          after_back-View r xs d rest v.1 o,
        );
    len_lem = λ r xs v. sym (length-ascending r.lo (remaining r)) ∙ ap length v.0;
  }

  -- `full` is the whole domain.
  full-View : 0 < count → InclusiveView count (full count) (ascending 0 count)
  unfolding full
  full-View p = (ascending_eq refl (omega arith), omega arith, λ _. omega arith)

-- Of an index type with at most 256 values, and two of its values: draws from
-- `NicheRange::new(start, end)`, in any order and from either end, never reach the
-- unreachable conversion, and hand out each value of [start, end) once: those drawn from the front
-- ascending, those drawn from the back descending. `len` is the number left.
pub range-draws :
    (count start end : ℕ) (ends : List End)
    → count ≤ 256
    → start < count
    → end < count
    → (r : NicheRange) × (run (range count) ends (range_new count start end)
        ≡ some ((draws ends (ascending start (end - start))).0, r))
      × (range_len count r ≡ length (draws ends (ascending start (end - start))).1)
unfolding range_new
range-draws count start end ends small a b =
    let it = range-Refines count small in
    let (r, e, v) =
      run_refines it ends (range_new count start end) (ascending start (end - start)) (refl, b) in
    (r, e, it.len_lem r _ v)

-- Of an index type with at most 256 values, and two of its values: draws from
-- `NicheRangeInclusive::new(start, end)`, in any order and from either end, never reach the
-- unreachable conversion, and hand out each value of [start, end] once: those drawn from the front
-- ascending, those drawn from the back descending. `len` is the number left.
pub inclusive-draws :
    (count start end : ℕ) (ends : List End)
    → count ≤ 256
    → start < count
    → end < count
    → (r : NicheRangeInclusive) × (run (inclusive count) ends (inclusive_new count start end)
        ≡ some ((draws ends (ascending start (end + 1 - start))).0, r))
      × (inclusive_len count r ≡ length (draws ends (ascending start (end + 1 - start))).1)
unfolding inclusive_new
inclusive-draws count start end ends small a b =
    let it = inclusive-Refines count small in
    let start_view : InclusiveView count (inclusive_new count start end)
        (ascending start (end + 1 - start)) =
      (ascending_eq refl (ground arith), b, λ d. ground arith) in
    let (r, e, v) =
      run_refines it ends (inclusive_new count start end) (ascending start (end + 1 - start))
        start_view in
    (r, e, it.len_lem r _ v)
