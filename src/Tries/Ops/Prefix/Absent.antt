-- ===== src/Tries/Ops/Prefix/Absent.antt =====
-- Keys that a node does not hold: those that do not start with its path, that go on to a child that
-- is missing, or that leave the path.
use arity_arrays.Common.{
  ℕ, ◌≡◌, refl, true, false, Option, none, ◌==◌, ==_iff, if◌then◌else◌, List, [], ◌∷◌, ◌++◌, arith,
  Bool-cases, inl, inr,
}
use arity_arrays.Tries.Paths.Laws.{covers, strip, strip-update}
use arity_arrays.Tries.Node.{Children, node, get}
use arity_arrays.Tries.Lookups.{lookup-node, after, Changes, sunk, lookup-sunk}
use arity_arrays.Tries.Ops.Remove.Child.{IsCovered}

strip_uncovered : (s w t : List ℕ) → covers true s t ≡ false → strip (s ++ w) t ≡ none
strip_uncovered [] w [] h = absurd cc
strip_uncovered [] w (y ∷ t) h = absurd cc
strip_uncovered (x ∷ s) w [] h = refl
strip_uncovered (x ∷ s) w (y ∷ t) h = elim (Bool-cases (x == y)) [
  | inl same ↦ rw same (strip_uncovered s w t (rw same at h))
  | inr other ↦ rw other
]

module _ {V H : Type 0} where
  -- The node holds nothing but keys that start with a prefix of its path.
  pub path-IsCovered :
      (s w : List ℕ) (v : Option V) (cs : Children V H) → IsCovered true s (node (s ++ w) v cs)
  path-IsCovered s w v cs t h = rw (lookup-node (s ++ w) v cs t, strip_uncovered s w t h)

  -- No key beyond the path goes into a child that is missing.
  pub missing-Changes :
      (p : List ℕ) (v : Option V) (cs : Children V H) (i : ℕ) (q : List ℕ)
      → get cs i ≡ none
      → Changes true (p ++ (i ∷ q)) none (node p v cs) (node p v cs)
  missing-Changes p v cs i q absent key =
      rw (lookup-node p v cs key)
        (strip-update true p (i ∷ q) key none (after v cs) (after v cs) at_child)
    where
      at_child :
          (t : List ℕ) → after v cs t ≡ (if covers true (i ∷ q) t then none else after v cs t)
      at_child [] = refl
      at_child (j ∷ t) = elim (Bool-cases (i == j)) [
        | inl same ↦
            let eq = (==_iff i j).0 same in
            rw (same, ← eq, absent)
              (elim (Bool-cases (covers true q t)) [ inl here ↦ rw here | inr there ↦ rw there ])
        | inr other ↦ rw other
      ]

  -- No key that leaves the path is held.
  pub apart-Changes :
      (s : List ℕ) (i : ℕ) (q : List ℕ) (j : ℕ) (path : List ℕ) (v : Option V) (cs : Children V H)
      → (i == j) ≡ false
      → Changes true (s ++ (i ∷ q)) none (node (s ++ (j ∷ path)) v cs) (node (s ++ (j ∷ path)) v cs)
  apart-Changes s i q j path v cs apart key =
      rw (lookup-sunk s j path v cs key)
        (strip-update true s (i ∷ q) key none (sunk j path v cs) (sunk j path v cs) at_child)
    where
      at_child :
          (t : List ℕ)
          → sunk j path v cs t ≡ (if covers true (i ∷ q) t then none else sunk j path v cs t)
      at_child [] = refl
      at_child (k ∷ t) = elim (Bool-cases (i == k)) [
        | inl same ↦
            let other : (j == k) ≡ false = ground arith in
            rw (same, other)
              (elim (Bool-cases (covers true q t)) [ inl here ↦ rw here | inr there ↦ rw there ])
        | inr other ↦ rw other
      ]
