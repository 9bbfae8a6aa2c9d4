-- ===== src/Tries/Node/Counts.antt =====
-- How many children a map has: after an insertion over a child, after a removal, and when one is left.
use arity_arrays.Common.{
  ℕ, suc, ◌≡◌, refl, ap, none, some, ◌==◌, ltb, if◌then◌else◌, arith, Bool-cases, inl, inr,
}
use arity_arrays.Tries.Node.{
  Edge, Children, nil, cons, get, insert, remove, count, take_only_child, first,
}
use arity_arrays.Tries.Node.Maps.{IsAscending, get-below}

module _ {V H : Type 0} where
  pub count-remove :
      (cs : Children V H) (i : ℕ) (e : Edge V H)
      → get cs i ≡ some e
      → suc (count (remove cs i)) ≡ count cs
  unfolding get remove count
  count-remove nil i e h = cc
  count-remove (cons j d cs) i e h = elim (Bool-cases (j == i)) [
    | inl same ↦ rw same
    | inr other ↦ rw other (ap suc (count-remove cs i e (rw other at h)))
  ]

  pub count_insert_present :
      (lo : ℕ) (cs : Children V H) (i : ℕ) (e d : Edge V H)
      → IsAscending lo cs
      → get cs i ≡ some e
      → count (insert cs i d) ≡ count cs
  unfolding get insert count
  count_insert_present lo nil i e d asc h = cc
  count_insert_present lo (cons j c cs) i e d asc h = elim (Bool-cases (j == i)) [
    | inl same ↦ rw same
    | inr other ↦ elim (Bool-cases (ltb i j)) [
      | inl less ↦
          let below = get-below (suc j) cs i asc.1 (ground arith) in
          let h' = rw other at h in absurd cc
      | inr more ↦
          rw (other, more) (ap suc (count_insert_present (suc j) cs i e d asc.1 (rw other at h)))
    ]
  ]

  -- What a map with one child is.
  pub record Only (cs : Children V H) : Type 0 where
    pub index : ℕ
    pub edge : Edge V H
    pub takes : take_only_child cs ≡ some (index, edge)
    pub is_first : first cs ≡ some (index, edge)
    pub gets : (i : ℕ) → get cs i ≡ (if index == i then some edge else none)

  pub count-Only : (cs : Children V H) → count cs ≡ 1 → Only cs
  unfolding count take_only_child first get
  count-Only nil h = absurd (omega arith)
  count-Only (cons j d nil) h = record {
    index = j;
    edge = d;
    takes = refl;
    is_first = refl;
    gets = λ i. refl;
  }
  count-Only (cons j d (cons k e cs)) h = absurd (omega arith)
