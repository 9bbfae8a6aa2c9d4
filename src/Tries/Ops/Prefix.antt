-- ===== src/Tries/Ops/Prefix.antt =====
-- `remove_prefix` of ops.rs.
mod Absent
pub mod Laws
use arity_arrays.Common.{
  ℕ, zero, suc, Bool, true, false, Option, none, some, ◌>>=◌, List, [], ◌∷◌, length,
}
use arity_arrays.Tries.Node.{Node, Edge, children, get}
use arity_arrays.Tries.Frames.{Frames, frames, new, descend, close}
use arity_arrays.Tries.Ops.Descent.{split_of, below}
use arity_arrays.Tries.Ops.Subtree.{materialize_subtree}
use arity_arrays.Tries.Ops.Remove.{unwind_remove, detached_edge, detached_root}

module _ {V H : Type 0} where
  -- The top node's full path starts with the prefix: it leaves. The root afterwards.
  unfoldable pub leaves : Frames V H → Option (Option (Node V H))
  leaves (frames under cur) = do
    cur ← materialize_subtree cur
    r ← unwind_remove under cur
    elim r.1 [ detached_root ↦ some none | detached_edge edge ↦ some (some r.0) ]

  -- The loop, on fuel: the root afterwards.
  unfoldable pub prefix_loop : ℕ → Frames V H → List ℕ → Option (Option (Node V H))
  unfolding leaves
  prefix_loop zero stack rest = none
  prefix_loop (suc fuel) (frames under cur) rest = do
    split ← split_of rest cur
    key_below ← below split rest
    elim key_below [
      | none ↦ leaves (frames under cur)
      | some (i, prefix_rest) ↦ elim split.above [
        | some _ ↦ some (some (close under cur))
        | none ↦ elim (get (children cur) i) [
          | none ↦ some (some (close under cur))
          | some e ↦ do stack ← descend (frames under cur) i; prefix_loop fuel stack prefix_rest
        ]
      ]
    ]

  -- The root afterwards. Each round but the last reads an index of the prefix.
  unfoldable pub remove_prefix : Option (Node V H) → List ℕ → Option (Option (Node V H))
  unfolding prefix_loop
  remove_prefix none key = some none
  remove_prefix (some root) key = prefix_loop (suc (length key)) (new root) key
