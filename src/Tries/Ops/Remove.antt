-- ===== src/Tries/Ops/Remove.antt =====
-- `remove` of ops.rs.
pub mod Descent
pub mod Merge
pub mod Child
pub mod Leaf
pub mod Unwind
pub mod Laws
pub mod Lookups
use arity_arrays.Common.{
  ℕ, zero, suc, Bool, true, false, Option, none, some, ◌>>=◌, ◌==◌, ◌||◌, leb, not, if◌then◌else◌,
  List, [], ◌∷◌, length,
}
use arity_arrays.Tries.Paths.{join}
use arity_arrays.Tries.Node.{
  Node, Edge, Children, node, mem_edge, nil, cons, partial_path, value, children, set_partial_path,
  set_value, set_children, get, insert, remove, count, take_only_child, first, as_inline,
  materialize,
}
use arity_arrays.Tries.Frames.{Frames, frames, new, descend, write_child, close}
use arity_arrays.Tries.Ops.Descent.{Split, split_of, below}

pub data Detached (V H : Type 0) : Type 0 where
  detached_edge : Edge V H → Detached V H
  detached_root : Detached V H

abbrev pub is_some : {V : Type 0} → Option V → Bool
is_some none = false
is_some (some v) = true

module _ {V H : Type 0} where
  -- The stack at the node at the key, and whether it was found. On fuel.
  unfoldable pub descend_to : ℕ → Frames V H → List ℕ → Option (Frames V H × Bool)
  descend_to zero stack rest = none
  descend_to (suc fuel) (frames under cur) rest = do
    split ← split_of rest cur
    elim split.above [
      | some _ ↦ some (frames under cur, false)
      | none ↦ do
        key_below ← below split rest
        elim key_below [
          | none ↦ some (frames under cur, true)
          | some (i, key_rest) ↦ elim (get (children cur) i) [
            | none ↦ some (frames under cur, false)
            | some e ↦ do stack ← descend (frames under cur) i; descend_to fuel stack key_rest
          ]
        ]
    ]

  unfoldable pub merge_only_child : Node V H → Option (Node V H)
  unfolding join
  merge_only_child n = do
    (i, edge) ← take_only_child (children n)
    child ← as_inline edge
    some (set_partial_path child (join (partial_path n) i (partial_path child)))

  -- `get_mut(i).expect(..)` and `store.materialize` of what it gives.
  unfoldable pub materialize_at : Node V H → ℕ → Option (Node V H)
  materialize_at n i = do
    edge ← get (children n) i
    some (set_children n (insert (children n) i (materialize edge)))

  -- `children_mut().remove(i).expect("present")`
  unfoldable pub remove_at : Node V H → ℕ → Option (Node V H × Edge V H)
  remove_at n i = do edge ← get (children n) i; some (set_children n (remove (children n) i), edge)

  unfoldable pub clear_and_merge : Node V H → Option (Node V H × Option V)
  unfolding materialize_at merge_only_child
  clear_and_merge cur = do
    (i, _) ← first (children cur)
    cur ← materialize_at cur i
    merged ← merge_only_child (set_value cur none)
    some (merged, value cur)

  -- The first present index but i.
  unfoldable pub other_than : Children V H → ℕ → Option ℕ
  other_than nil i = none
  other_than (cons j d cs) i = if j == i then other_than cs i else some j

  -- The parent of two children after the one at i has left, and the edge to that.
  unfoldable pub remove_and_merge : Node V H → ℕ → Option (Node V H × Edge V H)
  unfolding other_than materialize_at remove_at merge_only_child
  remove_and_merge parent i = do
    survivor ← other_than (children parent) i
    parent ← materialize_at parent survivor
    (parent, edge) ← remove_at parent i
    merged ← merge_only_child parent
    some (merged, edge)

  -- The top node leaves, and its ancestors are repaired; `write_child` is the parent after the pop.
  unfoldable pub unwind_remove : List (Node V H × ℕ) → Node V H → Option (Node V H × Detached V H)
  unfolding remove_at remove_and_merge
  unwind_remove [] cur = some (cur, detached_root)
  unwind_remove ((parent, i) ∷ under) cur =
      let up = write_child parent i cur in
      let rest = unwind_remove under up in
      if is_some (value up) || leb 3 (count (children up))
      then (do (up, edge) ← remove_at up i; some (close under up, detached_edge edge))
      else (if count (children up) == 2
          then (do (up, edge) ← remove_and_merge up i; some (close under up, detached_edge edge))
          else rest)

  mutual
    -- The value inside a detached node.
    pub recover : Node V H → Option (Option V)
    recover (node p (some v) cs) = some (some v)
    recover (node p none cs) = recover_only_child cs

    -- `take_only_child()?`, and `recover` of the child, which is inline.
    recover_only_child : Children V H → Option (Option V)
    recover_only_child nil = some none
    recover_only_child (cons i (mem_edge n none) nil) = recover n
    recover_only_child (cons i (mem_edge n (some hash)) nil) = none
    recover_only_child (cons i d (cons j e cs)) = some none

  unfoldable pub recover_edge : Edge V H → Option (Option V)
  unfolding recover
  recover_edge edge = elim (as_inline edge) [ none ↦ some none | some n ↦ recover n ]

  -- What `remove` does at the node it has found: the root afterwards, and the value removed.
  unfoldable pub remove_found :
      List (Node V H × ℕ) → Node V H → Option (Option (Node V H) × Option V)
  unfolding unwind_remove recover clear_and_merge
  remove_found under cur = elim (value cur) [
    | none ↦ some (some (close under cur), none)
    | some v ↦ elim (count (children cur)) [
      | zero ↦ unwind_remove under cur >>= λ r. elim r.1 [
        | detached_root ↦ recover r.0 >>= λ found. some (none, found)
        | detached_edge edge ↦ recover_edge edge >>= λ found. some (some r.0, found)
      ]
      | suc zero ↦ do (cur, old) ← clear_and_merge cur; some (some (close under cur), old)
      | suc (suc n) ↦ some (some (close under (set_value cur none)), value cur)
    ]
  ]

  -- The root afterwards, and the value removed.
  unfoldable pub remove_value : Option (Node V H) → List ℕ → Option (Option (Node V H) × Option V)
  unfolding descend_to
  remove_value none key = some (none, none)
  remove_value (some root) key = descend_to (suc (length key)) (new root) key >>= λ r. elim r.0 [
    | frames under cur ↦ if r.1 then remove_found under cur else some (some (close under cur), none)
  ]
