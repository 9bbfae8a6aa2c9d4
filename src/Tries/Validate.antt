-- ===== src/Tries/Validate.antt =====
-- `validate` of crates/arity-tries/src/validate.rs. The store's errors are impossible; the outer
-- `none` is a panic, or fuel that has run out.
pub mod Laws
use arity_arrays.Common.{ℕ, zero, suc, ◌+◌, Option, none, some, ◌>>=◌, List, [], ◌∷◌}
use arity_arrays.Tries.Node.{Node, Children, node, mem_edge, nil, cons, value, children, count}
use arity_arrays.Tries.Walk.{Walk, new, advance}

pub data ViolationKind : Type 0 where
  valueless_single_child : ViolationKind
  valueless_leaf : ViolationKind

pub record Violation : Type 0 where
  pub path : List ℕ
  pub kind : ViolationKind

-- The kind for a node without a value, by the number of its children.
abbrev pub kind_for : ℕ → Option ViolationKind
kind_for zero = some valueless_leaf
kind_for (suc zero) = some valueless_single_child
kind_for (suc (suc n)) = none

module _ {V H : Type 0} where
  unfoldable pub violation : List ℕ × Node V H → Option Violation
  violation (path, n) = elim (value n) [
    | some v ↦ none
    | none ↦ kind_for (count (children n)) >>= λ kind. some (record { path = path; kind = kind })
  ]

  -- The loop, on fuel: the first violation, or none.
  validate_loop : ℕ → Walk V H → Option (Option Violation)
  unfolding advance violation
  validate_loop zero walk = none
  validate_loop (suc fuel) walk = advance walk >>= λ r. elim r.1 [
    | none ↦ some none
    | some found ↦ elim (violation found) [
      | some broken ↦ some (some broken)
      | none ↦ validate_loop fuel r.0
    ]
  ]

  mutual
    nodes : Node V H → ℕ
    nodes (node p v cs) = suc (nodes_below cs)

    nodes_below : Children V H → ℕ
    nodes_below nil = 0
    nodes_below (cons j (mem_edge n hash) cs) = nodes n + nodes_below cs

  -- One round for each node, and the last, which finds none.
  unfoldable pub validate : Option (Node V H) → Option (Option Violation)
  unfolding validate_loop nodes
  validate none = validate_loop 1 (new none none)
  validate (some n) = validate_loop (suc (nodes n)) (new (some n) none)
