-- ===== src/Tries/Frames.antt =====
-- crates/arity-tries/src/frames.rs: the stack of nodes behind a mutation. A pointer into a node's
-- child is the frame below with the index of that child, since each frame below the top has
-- descended into one. A descent makes the edge inline in its parent; popping a frame writes the child
-- that was changed in place back to its parent, and leaves the edge's hash as it is.
pub mod Laws
use arity_arrays.Common.{
  ℕ, ◌≡◌, refl, Option, none, some, ◌==◌, ◌>>=◌, ◌∙◌, sym, false, List, [], ◌∷◌, ltb, ==_iff, ap,
  Bool-cases, inl, inr,
}
use arity_arrays.Tries.Node.{
  Node, Edge, Children, node, nil, cons, children, set_children, get, insert, write, read,
  materialize, inline, mem_edge,
}
use arity_arrays.Tries.Node.Maps.{get-insert}
use arity_arrays.Tries.Lookups.{set_child}

pub data Frames (V H : Type 0) : Type 0 where
  frames : List (Node V H × ℕ) → Node V H → Frames V H

module _ {V H : Type 0} where
  abbrev pub new : Node V H → Frames V H
  new root = frames [] root

  abbrev pub top : Frames V H → Node V H
  top (frames below cur) = cur

  -- `descend` of ops.rs, with `try_push_child`: a missing child panics, `none`.
  unfoldable pub descend : Frames V H → ℕ → Option (Frames V H)
  descend (frames below cur) i = do
    edge ← get (children cur) i
    let edge = materialize edge
    some (frames ((set_children cur (insert (children cur) i edge), i) ∷ below) (read edge))

  -- The parent after its child at i was changed in place.
  unfoldable pub write_child : Node V H → ℕ → Node V H → Node V H
  write_child parent i n = set_children parent (write (children parent) i n)

  -- The root with all that was changed through the stack.
  abbrev pub close : List (Node V H × ℕ) → Node V H → Node V H
  close [] cur = cur
  close ((parent, i) ∷ below) cur = close below (write_child parent i cur)

  -- A node whose edge at i a descent has made inline.
  unsealed_by : Node V H → ℕ → Option (Edge V H) → Node V H
  unsealed_by parent i none = parent
  unsealed_by parent i (some e) = set_children parent (insert (children parent) i (materialize e))

  unfoldable pub unsealed : Node V H → ℕ → Node V H
  unfolding unsealed_by
  unsealed parent i = unsealed_by parent i (get (children parent) i)

  unsealed-get :
      (parent : Node V H) (i : ℕ) (n : Node V H) (hash : Option H)
      → get (children parent) i ≡ some (mem_edge n hash)
      → unsealed parent i ≡ set_child parent i n
  unfolding unsealed unsealed_by
  unsealed-get parent i n hash present = ap (unsealed_by parent i) present

  -- The stack of the descents through these nodes.
  abbrev pub opened : List (Node V H × ℕ) → List (Node V H × ℕ)
  opened [] = []
  opened ((parent, i) ∷ under) = (unsealed parent i, i) ∷ opened under

  write-insert :
      (cs : Children V H) (i : ℕ) (m n : Node V H)
      → write (insert cs i (inline m)) i n ≡ insert cs i (inline n)
  unfolding write insert
  write-insert nil i m n = rw ((==_iff i i).1 refl)
  write-insert (cons j d cs) i m n = elim (Bool-cases (j == i)) [
    | inl same ↦ rw (same, (==_iff i i).1 refl)
    | inr other ↦ elim (Bool-cases (ltb i j)) [
      | inl less ↦ rw (other, less, (==_iff i i).1 refl)
      | inr more ↦ rw (other, more, other) (ap (cons j d) (write-insert cs i m n))
    ]
  ]

  pub write_child-unsealed :
      (parent : Node V H) (i : ℕ) (e : Edge V H) (n : Node V H)
      → get (children parent) i ≡ some e
      → write_child (unsealed parent i) i n ≡ set_child parent i n
  unfolding write_child
  write_child-unsealed (node p v cs) i (mem_edge m hash) n present =
      ap (λ parent. write_child parent i n) (unsealed-get (node p v cs) i m hash present)
      ∙ ap (node p v) (write-insert cs i m n)

  -- What a popped frame leaves of the root.
  pub close-opened :
      (under : List (Node V H × ℕ)) (parent : Node V H) (i : ℕ) (e : Edge V H) (n : Node V H)
      → get (children parent) i ≡ some e
      → close (opened ((parent, i) ∷ under)) n ≡ close (opened under) (set_child parent i n)
  close-opened under parent i e n present =
      ap (close (opened under)) (write_child-unsealed parent i e n present)

  pub descend-get :
      (under : List (Node V H × ℕ)) (n : Node V H) (k : ℕ) (e : Edge V H)
      → get (children n) k ≡ some e
      → descend (frames (opened under) n) k ≡ some (frames (opened ((n, k) ∷ under)) (read e))
  unfolding descend
  descend-get under n k (mem_edge m hash) present = rw present (
      ap (λ parent. some (frames ((parent, k) ∷ opened under) m))
        (sym (unsealed-get n k m hash present)))
