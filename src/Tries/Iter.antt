-- ===== src/Tries/Iter.antt =====
-- `iter` and `Iter` of crates/arity-tries/src/iter.rs, over the in-memory store.
pub mod Entries
pub mod Sorted
pub mod Laws
pub mod Visit
use arity_arrays.Common.{
  ℕ, zero, suc, Option, none, some, ◌>>=◌, List, [], ◌∷◌, Bool, true, false, if◌then◌else◌,
}
use arity_arrays.Tries.Node.{Node, value}
use arity_arrays.Tries.Walk.{Walk, new, advance}

module _ {V H : Type 0} where
  abbrev pub iter : Option (Node V H) → Option (List ℕ) → Walk V H
  iter root start = new root start

  -- `next`, on fuel: the walk afterwards, and the next path with its value.
  unfoldable pub iter_next : ℕ → Walk V H → Option (Walk V H × Option (List ℕ × V))
  unfolding advance
  iter_next zero walk = none
  iter_next (suc fuel) walk = advance walk >>= λ r. elim r.1 [
    | none ↦ some (r.0, none)
    | some found ↦ elim (value found.1) [
      | some v ↦ some (r.0, some (found.0, v))
      | none ↦ iter_next fuel r.0
    ]
  ]

  -- `visit`, on fuel, with the state that the closure changes, and whether it broke off.
  unfoldable pub visit :
      {S : Type 0} → ℕ → (S → List ℕ × Node V H → S × Bool) → S → Walk V H → Option (S × Bool)
  unfolding advance
  visit zero f s walk = none
  visit (suc fuel) f s walk = advance walk >>= λ r. elim r.1 [
    | none ↦ some (s, false)
    | some found ↦ elim (value found.1) [
      | none ↦ visit fuel f s r.0
      | some v ↦
          let rest = visit fuel f (f s found).0 r.0 in
          if (f s found).1 then some ((f s found).0, true) else rest
    ]
  ]
