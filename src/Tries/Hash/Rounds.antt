-- ===== src/Tries/Hash/Rounds.antt =====
-- One round of the loop of the hash walk: entering a child, or failing to, and leaving a node.
use arity_arrays.Common.{ℕ, suc, ◌≡◌, Option, none, some, List, [], ◌∷◌, ◌++◌, length}
use arity_arrays.Tries.Node.{Node, Children, node, mem_edge, get, inline}
use arity_arrays.Tries.Walk.{truncate}
use arity_arrays.Tries.Store.{ok, err, Store}
use arity_arrays.Tries.Hash.{Stack, Prepared, prepare, close, hash_loop}
use arity_arrays.Tries.Hash.Scheme.{TrieHasher, Frame, put, finish_node, seal_child}
use arity_arrays.Tries.Hash.Preparation.{truncate-append}
use arity_arrays.Tries.Hash.Stacks.{get-put, put-put}

abbrev pub frame_with : Option ℕ → ℕ → ℕ → ℕ → List ℕ → Frame
frame_with index len siblings c pending = record {
  index_in_parent = index;
  leading_len = len;
  siblings = siblings;
  count = c;
  pending = pending;
}

cut : (len : ℕ) (leading q : List ℕ) → len ≡ length leading → truncate len (leading ++ q) ≡ leading
cut len leading q long = rw long (truncate-append leading q)

module _ {V H S E : Type 0} (hasher : TrieHasher V H) (store : Store S E) where
  pub push_fails :
      (fuel : ℕ) (s s' : S) (under : Stack V H) (p : List ℕ) (v : Option V) (cs : Children V H)
      (index : Option ℕ) (len siblings c i : ℕ) (pending leading q : List ℕ) (child : Node V H)
      (e : E)
      → len ≡ length leading
      → get cs i ≡ some (mem_edge child none)
      → let path = (leading ++ p) ++ (i ∷ []) in
        prepare hasher store s child path (some i) (length path) c ≡ some (s', err e)
        → hash_loop hasher store
            (suc fuel)
            s
            under
            (node p v cs)
            (frame_with index len siblings c (i ∷ pending))
            (leading ++ q)
          ≡ some (
            s',
            close ((node p v cs, i, frame_with index len siblings c pending) ∷ under) child,
            err e,
          )
  unfolding hash_loop
  push_fails fuel s s' under p v cs index len siblings c i pending leading q child e long there
        fails =
      rw (cut len leading q long, there, fails)

  pub pushes :
      (fuel : ℕ) (s s' : S) (under : Stack V H) (p : List ℕ) (v : Option V) (cs : Children V H)
      (index : Option ℕ) (len siblings c i : ℕ) (pending leading q : List ℕ) (child : Node V H)
      (r : Prepared V H)
      → len ≡ length leading
      → get cs i ≡ some (mem_edge child none)
      → let path = (leading ++ p) ++ (i ∷ []) in
        prepare hasher store s child path (some i) (length path) c ≡ some (s', ok r)
        → hash_loop hasher store
            (suc fuel)
            s
            under
            (node p v cs)
            (frame_with index len siblings c (i ∷ pending))
            (leading ++ q)
          ≡ hash_loop hasher store fuel s'
              ((node p v cs, i, frame_with index len siblings c pending) ∷ under)
              r.node
              r.frame
              r.buf
  unfolding hash_loop
  pushes fuel s s' under p v cs index len siblings c i pending leading q child r long there
        prepared =
      rw (cut len leading q long, there, prepared)

  pub ends :
      (fuel : ℕ) (s : S) (n n' : Node V H) (len siblings c : ℕ) (leading q : List ℕ) (h : H)
      → len ≡ length leading
      → finish_node hasher n leading siblings ≡ some (n', h)
      → hash_loop hasher store (suc fuel) s [] n (frame_with none len siblings c []) (leading ++ q)
        ≡ some (s, n', ok h)
  unfolding hash_loop
  ends fuel s n n' len siblings c leading q h long finished = rw (cut len leading q long, finished)

  pub pops :
      (fuel : ℕ) (s : S) (under : Stack V H) (pp : List ℕ) (pv : Option V) (pcs : Children V H)
      (i : ℕ) (below : Frame) (n n' child : Node V H) (len siblings c : ℕ) (leading q : List ℕ)
      (h : H)
      → len ≡ length leading
      → finish_node hasher n leading siblings ≡ some (n', h)
      → get pcs i ≡ some (mem_edge child none)
      → hash_loop hasher store
          (suc fuel)
          s
          ((node pp pv pcs, i, below) ∷ under)
          n
          (frame_with (some i) len siblings c [])
          (leading ++ q)
        ≡ hash_loop hasher store fuel s under
            (node pp pv (put pcs i (mem_edge n' (some h))))
            below
            leading
  unfolding hash_loop seal_child
  pops fuel s under pp pv pcs i below n n' child len siblings c leading q h long finished there =
      rw (
        cut len leading q long,
        finished,
        get-put pcs i (mem_edge child none) (inline n') there,
        put-put pcs i (inline n') (mem_edge n' (some h)),
      )
