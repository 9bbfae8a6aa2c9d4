-- ===== src/Tries/Hash/Contract/Ascents.antt =====
-- Children under an insertion and a removal: their indices still ascend, and no more of them are
-- sealed.
use arity_arrays.Common.{ℕ, suc, ◌≤◌, inl, inr, none, some, ◌==◌, ltb, arith, Bool-cases, ==_iff}
use arity_arrays.Tries.Node.{
  Node, Edge, Children, mem_edge, nil, cons, insert, remove, count, inline,
}
use arity_arrays.Tries.Node.Maps.{IsAscending}
use arity_arrays.Tries.Hash.Digests.{sealed_count}

module _ {V H : Type 0} where
  pub sealed-le : (cs : Children V H) → sealed_count cs ≤ count cs
  unfolding count
  sealed-le nil = omega arith
  sealed-le (cons j (mem_edge n none) cs) = omega (arith, sealed-le cs)
  sealed-le (cons j (mem_edge n (some h)) cs) = omega (arith, sealed-le cs)

  pub insert-IsAscending :
      (lo : ℕ) (cs : Children V H) (i : ℕ) (e : Edge V H)
      → lo ≤ i
      → IsAscending lo cs
      → IsAscending lo (insert cs i e)
  unfolding insert
  insert-IsAscending lo nil i e le h = (le, tt)
  insert-IsAscending lo (cons j d cs) i e le h = elim (Bool-cases (j == i)) [
    | inl same ↦ let eq = (==_iff j i).0 same in rw same (le, rw eq at h.1)
    | inr other ↦ elim (Bool-cases (ltb i j)) [
      | inl less ↦ let lt : suc i ≤ j = ground arith in rw (other, less) (le, (lt, h.1))
      | inr more ↦
          let lt : suc j ≤ i = ground arith in
          rw (other, more) (h.0, insert-IsAscending (suc j) cs i e lt h.1)
    ]
  ]

  pub sealed-insert :
      (cs : Children V H) (i : ℕ) (n : Node V H)
      → sealed_count (insert cs i (inline n)) ≤ sealed_count cs
  unfolding insert
  sealed-insert nil i n = omega arith
  sealed-insert (cons j (mem_edge m none) cs) i n = elim (Bool-cases (j == i)) [
    | inl same ↦ rw same (omega arith)
    | inr other ↦ elim (Bool-cases (ltb i j)) [
      | inl less ↦ rw (other, less) (omega arith)
      | inr more ↦ rw (other, more) (sealed-insert cs i n)
    ]
  ]
  sealed-insert (cons j (mem_edge m (some h)) cs) i n = elim (Bool-cases (j == i)) [
    | inl same ↦ rw same (omega arith)
    | inr other ↦ elim (Bool-cases (ltb i j)) [
      | inl less ↦ rw (other, less) (omega arith)
      | inr more ↦ rw (other, more) (omega (arith, sealed-insert cs i n))
    ]
  ]

  lift : (i j : ℕ) (cs : Children V H) → i ≤ j → IsAscending j cs → IsAscending i cs
  lift i j nil le h = tt
  lift i j (cons k e cs) le h = let first = h.0 in let more : i ≤ k = omega arith in (more, h.1)

  pub remove-IsAscending :
      (lo : ℕ) (cs : Children V H) (i : ℕ) → IsAscending lo cs → IsAscending lo (remove cs i)
  unfolding remove
  remove-IsAscending lo nil i h = tt
  remove-IsAscending lo (cons j d cs) i h = elim (Bool-cases (j == i)) [
    | inl same ↦ let first = h.0 in rw same (lift lo (suc j) cs (omega arith) h.1)
    | inr other ↦ rw other (h.0, remove-IsAscending (suc j) cs i h.1)
  ]

  pub sealed-remove : (cs : Children V H) (i : ℕ) → sealed_count (remove cs i) ≤ sealed_count cs
  unfolding remove
  sealed-remove nil i = omega arith
  sealed-remove (cons j (mem_edge m none) cs) i = elim (Bool-cases (j == i)) [
    | inl same ↦ rw same (omega arith)
    | inr other ↦ rw other (sealed-remove cs i)
  ]
  sealed-remove (cons j (mem_edge m (some h)) cs) i = elim (Bool-cases (j == i)) [
    | inl same ↦ rw same (omega arith)
    | inr other ↦ rw other (omega (arith, sealed-remove cs i))
  ]
