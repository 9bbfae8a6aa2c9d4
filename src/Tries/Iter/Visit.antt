-- ===== src/Tries/Iter/Visit.antt =====
-- `visit` is a fold over the nodes with a value.
use arity_arrays.Common.{
  ℕ, zero, suc, ◌<◌, ◌≡◌, refl, Bool, true, false, Option, none, some, if◌then◌else◌, List, [], ◌∷◌,
  length, arith,
}
use arity_arrays.Tries.Node.{Node, partial_path, value}
use arity_arrays.Tries.Walk.{Walk, new}
use arity_arrays.Tries.Walk.Order.{preorder, IsOrdered, Yields, new-Yields}
use arity_arrays.Tries.Iter.{visit}

module _ {V H : Type 0} {S : Type 0} (f : S → List ℕ × Node V H → S × Bool) where
  -- The closure on each node with a value, in turn, until it breaks off.
  unfoldable pub fold_valued : S → List (List ℕ × Node V H) → S × Bool
  fold_valued s [] = (s, false)
  fold_valued s ((path, n) ∷ xs) = elim (value n) [
    | none ↦ fold_valued s xs
    | some v ↦
        if (f s (path, n)).1 then ((f s (path, n)).0, true) else fold_valued (f s (path, n)).0 xs
  ]

  visit-Yields :
      (xs : List (List ℕ × Node V H)) (w : Walk V H) (fuel : ℕ) (s : S)
      → Yields w xs
      → length xs < fuel
      → visit fuel f s w ≡ some (fold_valued s xs)
  unfolding visit fold_valued
  visit-Yields xs w zero s yields h = absurd (omega arith)
  visit-Yields [] w (suc fuel) s (w', run) h = rw run
  visit-Yields ((path, n) ∷ xs) w (suc fuel) s (w', run, rest) h = rw run (
      by_value (value n) (visit fuel f s w') (fold_valued s xs) (visit fuel f (f s (path, n)).0 w')
        (fold_valued (f s (path, n)).0 xs) (f s (path, n))
        (visit-Yields xs w' fuel s rest (omega arith))
        (visit-Yields xs w' fuel (f s (path, n)).0 rest (omega arith)))
    where
      by_value :
          (v : Option V) (skip : Option (S × Bool)) (skipped : S × Bool) (on : Option (S × Bool))
          (went_on : S × Bool) (r : S × Bool)
          → skip ≡ some skipped
          → on ≡ some went_on
          → (elim v as (λ _. Option (S × Bool)) [
            | none ↦ skip
            | some x ↦ if r.1 then some (r.0, true) else on
          ])
            ≡ some (elim v as (λ _. S × Bool) [
              | none ↦ skipped
              | some x ↦ if r.1 then (r.0, true) else went_on
            ])
      by_value none skip skipped on went_on r e e' = e
      by_value (some x) skip skipped on went_on (s', true) e e' = refl
      by_value (some x) skip skipped on went_on (s', false) e e' = e'

  -- `visit` from the beginning of a trie whose child maps ascend, with more fuel than there are nodes,
  -- does not panic: it calls the closure on each node with a value, in pre-order, with its full path,
  -- until the closure breaks off, and returns whether it did.
  pub visit-fold_valued :
      (n : Node V H) (fuel : ℕ) (s : S)
      → IsOrdered n
      → length (preorder (partial_path n) n) < fuel
      → visit fuel f s (new (some n) none) ≡ some (fold_valued s (preorder (partial_path n) n))
  visit-fold_valued n fuel s ordered enough =
      visit-Yields (preorder (partial_path n) n) (new (some n) none) fuel s (new-Yields n ordered)
        enough
