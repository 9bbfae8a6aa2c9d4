-- ===== src/Tries/Walk.antt =====
-- `Walk` of crates/arity-tries/src/iter.rs, the walk over every node behind iteration and validation,
-- over the in-memory store. The chain of handles only keeps the nodes in place; the set of the
-- children still to visit is the list of their indices, ascending. `none` is a panic, or fuel that has
-- run out.
pub mod Order
use arity_arrays.Common.{
  ℕ, zero, suc, Bool, true, false, Option, none, some, ◌>>=◌, ◌==◌, ltb, if◌then◌else◌, List, [],
  ◌∷◌, ◌++◌, length,
}
use arity_arrays.Tries.Paths.{PrefixOverlap, common_prefix}
use arity_arrays.Tries.Node.{Node, Edge, partial_path, children, get, read}
use arity_arrays.Tries.Ops.Subtree.{present}

pub data State : Type 0 where
  fresh : State
  seeking : State
  walking : State
  done : State

-- A node, the length of its full path, and its children still to visit; the top of the stack first.
abbrev pub Visits : Type 0 → Type 0 → Type 0
Visits V H = List (Node V H × ℕ × List ℕ)

pub record Walk (V H : Type 0) : Type 0 where
  pub frames : Visits V H
  pub buf : List ℕ
  pub root : Option (Node V H)
  pub state : State
  pub start : Option (List ℕ)

-- `Vec::truncate`
abbrev pub truncate : ℕ → List ℕ → List ℕ
truncate zero xs = []
truncate (suc n) [] = []
truncate (suc n) (x ∷ xs) = x ∷ truncate n xs

-- The members of a set that are not below an index.
abbrev pub drop_below : ℕ → List ℕ → List ℕ
drop_below si [] = []
drop_below si (j ∷ remaining) = if ltb j si then drop_below si remaining else j ∷ remaining

abbrev pub test : List ℕ → ℕ → Bool
test [] i = false
test (j ∷ remaining) i = if j == i then true else test remaining i

module _ {V H : Type 0} where
  abbrev pub new : Option (Node V H) → Option (List ℕ) → Walk V H
  new root start = record { frames = []; buf = []; root = root; state = State.fresh; start = start }

  -- `step`: the frames and the path afterwards, and the node.
  unfoldable pub step : Visits V H → List ℕ → Option (Visits V H × List ℕ × Option (Node V H))
  step [] buf = some ([], buf, none)
  step ((n, path_len, []) ∷ frames) buf = step frames buf
  step ((n, path_len, i ∷ remaining) ∷ frames) buf = do
    edge ← get (children n) i
    let child = read edge in
        let buf' = truncate path_len buf ++ (i ∷ partial_path child) in
        some (
          (child, length buf', present (children child)) ∷ (n, path_len, remaining) ∷ frames,
          buf',
          some child,
        )

  -- The loop of `seek`, on fuel.
  unfoldable pub seek_loop :
      ℕ → List ℕ → Visits V H → List ℕ → Option (Visits V H × List ℕ × Option (Node V H))
  unfolding step
  seek_loop zero start frames buf = none
  seek_loop (suc fuel) start [] buf = none
  seek_loop (suc fuel) start ((n, path_len, remaining) ∷ frames) buf = do
    o ← common_prefix buf start
    elim o.unique_b [
      | [] ↦ some ((n, path_len, remaining) ∷ frames, buf, some n)
      | b ∷ _ ↦ elim o.unique_a [
        | a ∷ _ ↦
            if ltb b a
            then some ((n, path_len, remaining) ∷ frames, buf, some n)
            else step frames buf
        | [] ↦
            let from = drop_below b remaining in
            let next = step ((n, path_len, from) ∷ frames) buf in
            let deeper = (next >>= λ r. seek_loop fuel start r.0 r.1) in
            if test from b then deeper else next
      ]
    ]

  -- Each round but the last descends by an index of `start`.
  unfoldable pub seek :
      Option (List ℕ) → Visits V H → List ℕ → Option (Visits V H × List ℕ × Option (Node V H))
  unfolding seek_loop
  seek start frames buf = start >>= λ s. seek_loop (suc (length s)) s frames buf

  -- The walk after a step, and the next node with its full path.
  abbrev settle :
      Walk V H → Visits V H × List ℕ × Option (Node V H) → Walk V H × Option (List ℕ × Node V H)
  settle w (frames, buf, none) =
      (record w { frames = frames; buf = buf; root = none; state = State.done }, none)
  settle w (frames, buf, some n) =
      (record w { frames = frames; buf = buf; root = none }, some (buf, n))

  unfoldable pub advance : Walk V H → Option (Walk V H × Option (List ℕ × Node V H))
  unfolding step seek
  advance w = elim w.state [
    | done ↦ some (w, none)
    | walking ↦ step w.frames w.buf >>= λ r. some (settle w r)
    | seeking ↦ seek w.start w.frames w.buf >>= λ r.
        some (settle (record w { state = State.walking; start = none }) r)
    | fresh ↦ elim w.root [
      | none ↦ some (settle w ([], w.buf, none))
      | some root ↦
          let buf = w.buf ++ partial_path root in
          let frames = (root, length buf, present (children root)) ∷ w.frames in
          elim w.start [
            | none ↦ some (settle (record w { state = State.walking }) (frames, buf, some root))
            | some start ↦ seek (some start) frames buf >>= λ r.
                some (settle (record w { state = State.walking; start = none }) r)
          ]
    ]
  ]
