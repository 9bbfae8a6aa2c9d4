-- ===== src/Tries/Ops/Subtree.antt =====
-- `materialize_subtree` of ops.rs. The set of the children still to visit is the list of their
-- indices, ascending; its least member is the head. A descent makes the edge inline in its parent; a
-- pop writes back the node that was changed through the edge, and leaves the edge's hash as it is.
pub mod Laws
pub mod Inlined
use arity_arrays.Common.{ℕ, zero, suc, ◌+◌, Option, none, some, ◌>>=◌, List, [], ◌∷◌}
use arity_arrays.Tries.Node.{
  Node, Edge, Children, node, mem_edge, nil, cons, children, set_children, get, insert, write, read,
  materialize,
}

-- The frames below the top: a node, the child that it descended into, and its children still to visit.
abbrev pub Visits : Type 0 → Type 0 → Type 0
Visits V H = List (Node V H × ℕ × List ℕ)

module _ {V H : Type 0} where
  -- `ChildMap::present`
  abbrev pub present : Children V H → List ℕ
  present nil = []
  present (cons j e cs) = j ∷ present cs

  -- The loop, on fuel, at a node and with its children still to visit.
  unfoldable pub visit : ℕ → Visits V H → Node V H → List ℕ → Option (Node V H)
  visit zero under cur remaining = none
  visit (suc fuel) [] cur [] = some cur
  visit (suc fuel) ((parent, i, remaining) ∷ under) cur [] =
      visit fuel under (set_children parent (write (children parent) i cur)) remaining
  visit (suc fuel) under cur (i ∷ remaining) = do
    edge ← get (children cur) i
    let edge = materialize edge
    let parent = set_children cur (insert (children cur) i edge)
    let child = read edge
    visit fuel ((parent, i, remaining) ∷ under) child (present (children child))

  unfoldable mutual
    -- The rounds of the loop: one for each node, and one for each edge.
    pub rounds : Node V H → ℕ
    rounds (node p v cs) = suc (rounds_below cs)

    pub rounds_below : Children V H → ℕ
    rounds_below nil = 0
    rounds_below (cons j (mem_edge n hash) cs) = suc (rounds n + rounds_below cs)

  unfoldable pub materialize_subtree : Node V H → Option (Node V H)
  unfolding visit rounds
  materialize_subtree n = visit (rounds n) [] n (present (children n))
