-- ===== src/Tries/Ops/Insert.antt =====
-- `insert` of ops.rs.
mod Arms
pub mod Structure
pub mod Lookups
pub mod Laws
use arity_arrays.Common.{ℕ, zero, suc, Option, none, some, ◌>>=◌, List, [], ◌∷◌, length}
use arity_arrays.Tries.Paths.{slice_to}
use arity_arrays.Tries.Node.{
  Node, Edge, node, nil, leaf, inline, children, value, set_children, set_partial_path, set_value,
  get, insert,
}
use arity_arrays.Tries.Frames.{Frames, frames, new, descend, close}
use arity_arrays.Tries.Ops.Descent.{Split, split_of, below}

module _ {V H : Type 0} where
  -- The key ends inside the partial path of cur: a new node at the key with cur beneath it.
  unfoldable pub split_above : List ℕ → V → ℕ → List ℕ → Node V H → Node V H
  split_above shared v ni node_rest cur =
      let old = set_partial_path cur node_rest in node shared (some v) (insert nil ni (inline old))

  -- A leaf beneath cur.
  unfoldable pub add_leaf : Node V H → ℕ → List ℕ → V → Node V H
  add_leaf cur ki key_rest v =
      set_children cur (insert (children cur) ki (inline (leaf key_rest v)))

  -- A node without a value, with cur and a new leaf beneath it.
  unfoldable pub fork : List ℕ → V → ℕ → List ℕ → ℕ → List ℕ → Node V H → Node V H
  fork shared v ki key_rest ni node_rest cur =
      let old = set_partial_path cur node_rest in
      node shared none (insert (insert nil ni (inline old)) ki (inline (leaf key_rest v)))

  -- The two arms of the loop where the key ends at or inside the partial path of cur.
  end_at : Split → List ℕ → V → Node V H → Option (ℕ × List ℕ) → Option (Node V H × Option V)
  unfolding split_above
  end_at split rest v cur none = some (set_value cur (some v), value cur)
  end_at split rest v cur (some (ni, node_rest)) = do
    shared ← slice_to rest split.shared_len
    some (split_above shared v ni node_rest cur, none)

  -- The loop, on fuel: the root afterwards, and the value displaced.
  insert_loop : ℕ → Frames V H → List ℕ → V → Option (Node V H × Option V)
  unfolding end_at add_leaf fork
  insert_loop zero stack rest v = none
  insert_loop (suc fuel) (frames under cur) rest v = do
    split ← split_of rest cur
    key_below ← below split rest
    elim key_below [
      | none ↦ end_at split rest v cur split.above >>= λ r. some (close under r.0, r.1)
      | some (ki, key_rest) ↦ elim split.above [
        | none ↦ elim (get (children cur) ki) [
          | none ↦ some (close under (add_leaf cur ki key_rest v), none)
          | some e ↦ do stack ← descend (frames under cur) ki; insert_loop fuel stack key_rest v
        ]
        | some (ni, node_rest) ↦ do
          shared ← slice_to rest split.shared_len
          some (close under (fork shared v ki key_rest ni node_rest cur), none)
      ]
    ]

  -- The root afterwards, and the value displaced. Each round but the last reads an index of the key.
  unfoldable pub insert_value : Option (Node V H) → List ℕ → V → Option (Node V H × Option V)
  unfolding insert_loop
  insert_value none key v = some (leaf key v, none)
  insert_value (some root) key v = insert_loop (suc (length key)) (new root) key v
