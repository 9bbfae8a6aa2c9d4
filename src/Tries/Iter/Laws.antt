-- ===== src/Tries/Iter/Laws.antt =====
-- Iteration hands out the map that the trie stands for, in ascending order.
use arity_arrays.Common.{
  ℕ, zero, suc, ◌<◌, ◌≡◌, refl, sym, ◌∙◌, ap, Option, none, some, List, [], ◌∷◌, length, arith,
}
use arity_arrays.Tries.Node.{Node, partial_path, value}
use arity_arrays.Tries.Ops.Read.{get_value}
use arity_arrays.Tries.Ops.Read.Laws.{get_value-lookup}
use arity_arrays.Tries.Walk.{Walk, new, advance}
use arity_arrays.Tries.Walk.Order.{preorder, IsOrdered, Yields, new-Yields}
use arity_arrays.Tries.Iter.{iter, iter_next}
use arity_arrays.Tries.Iter.Entries.{entry, valued, find, find-lookup}
use arity_arrays.Tries.Iter.Sorted.{AreSorted, valued-AreSorted}

module _ {V H : Type 0} where
  -- Calls of `next` hand out the entries, and then nothing.
  abbrev pub Emits : ℕ → Walk V H → List (List ℕ × V) → Type 0
  Emits fuel w [] = (w' : Walk V H) × (iter_next fuel w ≡ some (w', none))
  Emits fuel w (x ∷ xs) =
      (w' : Walk V H) × (iter_next fuel w ≡ some (w', some x)) × Emits fuel w' xs

  Emits-alike :
      (fuel : ℕ) (w w' : Walk V H) (xs : List (List ℕ × V))
      → iter_next fuel w ≡ iter_next fuel w'
      → Emits fuel w' xs
      → Emits fuel w xs
  Emits-alike fuel w w' [] e (w'', run) = (w'', e ∙ run)
  Emits-alike fuel w w' (x ∷ xs) e (w'', run, rest) = (w'', e ∙ run, rest)

  -- What `next` does with a node that the walk has found.
  abbrev on_value : ℕ → Walk V H → List ℕ → Option V → Option (Walk V H × Option (List ℕ × V))
  unfolding iter_next
  on_value fuel w path (some v) = some (w, some (path, v))
  on_value fuel w path none = iter_next fuel w

  next-found :
      (fuel : ℕ) (w w' : Walk V H) (path : List ℕ) (n : Node V H)
      → advance w ≡ some (w', some (path, n))
      → iter_next (suc fuel) w ≡ on_value fuel w' path (value n)
  unfolding iter_next on_value
  next-found fuel w w' path n run = rw run (by_value (value n))
    where
      by_value :
          (v : Option V)
          → (elim v as (λ _. Option (Walk V H × Option (List ℕ × V))) [
            | none ↦ iter_next fuel w'
            | some x ↦ some (w', some (path, x))
          ])
            ≡ on_value fuel w' path v
      by_value none = refl
      by_value (some x) = refl

  on_value-more :
      (fuel : ℕ) (w : Walk V H) (path : List ℕ) (v : Option V)
      → iter_next fuel w ≡ iter_next (suc fuel) w
      → on_value fuel w path v ≡ on_value (suc fuel) w path v
  unfolding on_value
  on_value-more fuel w path none more = more
  on_value-more fuel w path (some v) more = refl

  -- More fuel than nodes makes no difference.
  more_fuel :
      (xs : List (List ℕ × Node V H)) (w : Walk V H) (fuel : ℕ)
      → Yields w xs
      → length xs < fuel
      → iter_next fuel w ≡ iter_next (suc fuel) w
  unfolding iter_next on_value
  more_fuel xs w zero yields h = absurd (omega arith)
  more_fuel [] w (suc fuel) (w', run) h = rw run
  more_fuel ((path, n) ∷ xs) w (suc fuel) (w', run, rest) h =
      next-found fuel w w' path n run
      ∙ on_value-more fuel w' path (value n) (more_fuel xs w' fuel rest (omega arith))
      ∙ sym (next-found (suc fuel) w w' path n run)

  emitted :
      (fuel : ℕ) (w w' : Walk V H) (path : List ℕ) (v : Option V) (rest : List (List ℕ × V))
      → iter_next (suc fuel) w ≡ on_value fuel w' path v
      → iter_next fuel w' ≡ iter_next (suc fuel) w'
      → Emits (suc fuel) w' rest
      → Emits (suc fuel) w (entry path v rest)
  unfolding on_value
  emitted fuel w w' path none rest call more h = Emits-alike (suc fuel) w w' rest (call ∙ more) h
  emitted fuel w w' path (some v) rest call more h = (w', call, h)

  Yields-Emits :
      (xs : List (List ℕ × Node V H)) (w : Walk V H) (fuel : ℕ)
      → Yields w xs
      → length xs < fuel
      → Emits fuel w (valued xs)
  unfolding iter_next
  Yields-Emits xs w zero yields h = absurd (omega arith)
  Yields-Emits [] w (suc fuel) (w', run) h = (w', rw run)
  Yields-Emits ((path, n) ∷ xs) w (suc fuel) (w', run, rest) h =
      emitted fuel w w' path (value n) (valued xs) (next-found fuel w w' path n run)
        (more_fuel xs w' fuel rest (omega arith)) (Yields-Emits xs w' (suc fuel) rest (omega arith))

  -- `iter` from the beginning of a trie whose child maps ascend, as their type guarantees: with more
  -- fuel for `next` than there are nodes, its calls neither panic nor run out of fuel. They hand out
  -- paths with values, ascending strictly as `Path` compares, and then nothing; and for each key the
  -- value found in what they hand out is what `get` reads.
  pub iter-entries :
      (n : Node V H) (fuel : ℕ)
      → IsOrdered n
      → length (preorder (partial_path n) n) < fuel
      → (entries : List (List ℕ × V)) × Emits fuel (iter (some n) none) entries
        × AreSorted entries
        × ((key : List ℕ) → get_value (some n) key ≡ some (find entries key))
  iter-entries n fuel ordered enough = (
    valued (preorder (partial_path n) n),
    Yields-Emits (preorder (partial_path n) n) (new (some n) none) fuel (new-Yields n ordered)
        enough,
    valued-AreSorted n ordered,
    λ key. get_value-lookup (some n) key ∙ ap some (sym (find-lookup n key ordered)),
  )
