-- ===== src/Tries/Hash.antt =====
-- The walk of crates/arity-tries/src/hash.rs that hashes every inline node and seals its edge, over a
-- stack of frames and a store that may fail. A pointer into a child is the frame below with the index
-- of that child; a popped child is written back to its parent. `none` is a panic, or fuel that has run
-- out.
pub mod Scheme
pub mod Digests
mod Children
mod Validity
mod Scans
mod Preparation
mod Stacks
mod Rounds
pub mod Results
mod Loop
pub mod Contract
mod Insertion
mod Removal
mod Prefixes
mod Canonical
pub mod Unique
pub mod Histories
pub mod Laws
use arity_arrays.Common.{
  ℕ, zero, suc, Bool, true, false, Option, none, some, ◌>>=◌, ◌==◌, if◌then◌else◌, List, [], ◌∷◌,
  ◌++◌, length,
}
use arity_arrays.Tries.Paths.{slice_to}
use arity_arrays.Tries.Node.{
  Node, partial_path, children, get, read, as_inline, materialize, inline, seal,
}
use arity_arrays.Tries.Walk.{truncate}
use arity_arrays.Tries.Ops.Subtree.{rounds}
use arity_arrays.Tries.Store.{Outcome, ok, err, Store}
use arity_arrays.Tries.Hash.Scheme.{
  TrieHasher, Frame, Scan, scan, new_scan, with_bit, put, put_child, hash_sealed_node, finish_node,
  seal_child,
}

-- A node that is ready to be pushed, with its frame and the path buffer.
pub record Prepared (V H : Type 0) : Type 0 where
  pub node : Node V H
  pub frame : Frame
  pub buf : List ℕ

-- The frames below the top: a node with its frame, and the index that it descended into.
abbrev pub Stack : Type 0 → Type 0 → Type 0
Stack V H = List (Node V H × ℕ × Frame)

unfoldable pub frame_of : Scan → Option ℕ → ℕ → ℕ → List ℕ → Frame
frame_of scanned index leading_len siblings pending = record {
  index_in_parent = index;
  leading_len = leading_len;
  siblings = siblings;
  count = scanned.count;
  pending = pending;
}

module _ {V H : Type 0} where
  -- The root with all that was changed through the stack.
  abbrev pub close : Stack V H → Node V H → Node V H
  close [] cur = cur
  close ((parent, i, frame) ∷ under) cur = close under (put_child parent i (inline cur))

module _ {V H S E : Type 0} (hasher : TrieHasher V H) (store : Store S E) where
  -- The rehash of the only sealed child, at i; `at` is its path. The node and the children to hash.
  unfoldable pub rehash :
      S → Node V H → ℕ → List ℕ → Scan → Option (S × Outcome E (Node V H × List ℕ))
  unfolding put hash_sealed_node with_bit
  rehash s n i at scanned = do
    edge ← get (children n) i
    let r = store.read s in
        elim r.1 [
          | some e ↦ some (r.0, err e)
          | none ↦ do
            rehashed ← hash_sealed_node hasher (read edge) at scanned.count
            elim rehashed [
              | some h ↦ some (r.0, ok (put_child n i (seal edge h), scanned.pending))
              | none ↦
                  let m = store.materialize r.0 in
                  elim m.1 [
                    | some e ↦ some (m.0, err e)
                    | none ↦
                        some
                          (m.0, ok (put_child n i (materialize edge), with_bit scanned.pending i))
                  ]
            ]
        ]

  abbrev pub prepared_of :
      Scan → Option ℕ → ℕ → ℕ → List ℕ → Outcome E (Node V H × List ℕ) → Outcome E (Prepared V H)
  prepared_of scanned index leading_len siblings buf (ok (n, pending)) =
      ok (record {
        node = n;
        frame = frame_of scanned index leading_len siblings pending;
        buf = buf;
      })
  prepared_of scanned index leading_len siblings buf (err e) = err e

  -- The state of the store, and the node with its frame; on an error nothing has changed.
  unfoldable pub prepare :
      S → Node V H → List ℕ → Option ℕ → ℕ → ℕ → Option (S × Outcome E (Prepared V H))
  unfolding rehash frame_of scan with_bit slice_to
  prepare s n buf index leading_len siblings =
      let scanned = scan new_scan (children n) in
      let plain =
        some (s, prepared_of scanned index leading_len siblings buf (ok (n, scanned.pending))) in
      if scanned.sealed == 1
      then (do
        leading ← slice_to buf leading_len
        if hasher.sibling_sensitive leading (partial_path n)
            then (do
              i ← scanned.last_sealed
              let at = (truncate leading_len buf ++ partial_path n) ++ (i ∷ [])
              r ← rehash s n i at scanned
              some (
                r.0,
                prepared_of scanned index leading_len siblings (truncate leading_len at) r.1,
              ))
            else plain)
      else plain

  -- The loop, on fuel: the state of the store, the root, and its hash or the error.
  unfoldable pub hash_loop :
      ℕ → S → Stack V H → Node V H → Frame → List ℕ → Option (S × Node V H × Outcome E H)
  hash_loop zero s under cur frame buf = none
  hash_loop (suc fuel) s under cur frame buf = elim frame.pending [
    | i ∷ pending ↦
        let buf' = (truncate frame.leading_len buf ++ partial_path cur) ++ (i ∷ []) in
        do
          edge ← get (children cur) i
          child ← as_inline edge
          r ← prepare s child buf' (some i) (length buf') frame.count
          let below = (cur, i, record frame { pending = pending }) ∷ under in
              elim r.1 [
                | err e ↦ some (r.0, close below child, err e)
                | ok p ↦ hash_loop fuel r.0 below p.node p.frame p.buf
              ]
    | [] ↦
        let buf' = truncate frame.leading_len buf in
        do
          finished ← finish_node hasher cur buf' frame.siblings
          elim frame.index_in_parent [
            | none ↦ some (s, close under finished.0, ok finished.1)
            | some i ↦ elim under [
              | [] ↦ none
              | (parent, j, below) ∷ rest ↦ do
                sealed ← seal_child (put_child parent j (inline finished.0)) i finished.1
                hash_loop fuel s rest sealed below buf'
            ]
          ]
  ]

  -- The state of the store, the root, and its hash or the error.
  unfoldable pub hash : S → Node V H → Option (S × Node V H × Outcome E H)
  unfolding rounds
  hash s root = do
    r ← prepare s root [] none 0 0
    elim r.1 [
      | err e ↦ some (r.0, root, err e)
      | ok p ↦ hash_loop (rounds root) r.0 [] p.node p.frame p.buf
    ]
