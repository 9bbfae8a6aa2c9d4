-- ===== src/Tries/Hash/Removal/Steps.antt =====
-- The steps of `remove` of ops.rs on one node keep the hash-validity contract.
use arity_arrays.Common.{
  ℕ, refl, ap, ◌∙◌, Option, none, some, ◌>>=◌, List, [], ◌∷◌, ◌++◌, Option-cases, inl, inr, ==_iff,
}
use mathlib.Core.List.{append_assoc}
use arity_arrays.Tries.Paths.{join}
use arity_arrays.Tries.Node.{
  Node, Edge, node, mem_edge, nil, cons, value, children, set_value, get, take_only_child, first,
  read,
}
use arity_arrays.Tries.Ops.Remove.{
  merge_only_child, materialize_at, remove_at, clear_and_merge, other_than, remove_and_merge,
}
use arity_arrays.Tries.Ops.Remove.Merge.{materialize-inline}
use arity_arrays.Tries.Hash.Scheme.{TrieHasher}
use arity_arrays.Tries.Hash.Digests.{IsValid}
use arity_arrays.Tries.Hash.Contract.{
  IsPositional, insert-IsValid, remove-IsValid, value-IsValid, moved-IsValid,
}
use arity_arrays.Tries.Hash.Insertion.{child-IsValid}
use arity_arrays.Tries.Hash.Removal.Calls.{Holds, bind-Holds, Anything, any-Holds}

module _ {V H : Type 0} (hasher : TrieHasher V H) (positional : IsPositional hasher) where
  pub merge_only_child-IsValid :
      (l : List ℕ) (n : Node V H)
      → IsValid hasher l n
      → Holds (IsValid hasher l) (merge_only_child n)
  unfolding merge_only_child take_only_child join get
  merge_only_child-IsValid l (node p v nil) h = tt
  merge_only_child-IsValid l (node p v (cons j (mem_edge (node q w ds) none) nil)) h =
      let child = mem_edge (node q w ds) none in
      moved-IsValid hasher positional ((l ++ p) ++ (j ∷ [])) q l ((p ++ (j ∷ [])) ++ q) w ds
        (ap (λ t. t ++ q) (append_assoc l p (j ∷ [])) ∙ append_assoc l (p ++ (j ∷ [])) q)
        (child-IsValid hasher l p v (cons j child nil) j child h (rw ((==_iff j j).1 refl)))
  merge_only_child-IsValid l (node p v (cons j (mem_edge n (some x)) nil)) h = tt
  merge_only_child-IsValid l (node p v (cons j d (cons k e cs))) h = tt

  pub materialize_at-IsValid :
      (l : List ℕ) (n : Node V H) (i : ℕ)
      → IsValid hasher l n
      → Holds (IsValid hasher l) (materialize_at n i)
  unfolding materialize_at
  materialize_at-IsValid l (node p v cs) i h = elim (Option-cases (get cs i)) [
    | inl missing ↦ rw missing tt
    | inr (e, there) ↦
        rw (there, materialize-inline e)
          (insert-IsValid hasher positional l p v cs i (read e) h
            (child-IsValid hasher l p v cs i e h there))
  ]

  -- The node afterwards, of an operation that gives something else besides.
  abbrev pub FirstIsValid : {B : Type 0} → List ℕ → Node V H × B → Type 0
  FirstIsValid l r = IsValid hasher l r.0

  pub remove_at-IsValid :
      (l : List ℕ) (n : Node V H) (i : ℕ)
      → IsValid hasher l n
      → Holds (FirstIsValid {B = Edge V H} l) (remove_at n i)
  unfolding remove_at
  remove_at-IsValid l (node p v cs) i h = elim (Option-cases (get cs i)) [
    | inl missing ↦ rw missing tt
    | inr (e, there) ↦ rw there (remove-IsValid hasher positional l p v cs i h)
  ]

  pub set_none-IsValid :
      (l : List ℕ) (n : Node V H) → IsValid hasher l n → IsValid hasher l (set_value n none)
  set_none-IsValid l (node p v cs) h = value-IsValid hasher positional l p v none cs h

  pub clear_and_merge-IsValid :
      (l : List ℕ) (n : Node V H)
      → IsValid hasher l n
      → Holds (FirstIsValid {B = Option V} l) (clear_and_merge n)
  unfolding clear_and_merge
  clear_and_merge-IsValid l n h =
      bind-Holds Anything (FirstIsValid {B = Option V} l) (first (children n))
        (λ x. materialize_at n x.0 >>= λ cur.
          merge_only_child (set_value cur none) >>= λ merged. some (merged, value cur))
        (any-Holds (first (children n)))
        (λ x _.
          bind-Holds (IsValid hasher l) (FirstIsValid {B = Option V} l) (materialize_at n x.0)
            (λ cur. merge_only_child (set_value cur none) >>= λ merged. some (merged, value cur))
            (materialize_at-IsValid l n x.0 h)
            (λ cur is.
              bind-Holds (IsValid hasher l) (FirstIsValid {B = Option V} l)
                (merge_only_child (set_value cur none)) (λ merged. some (merged, value cur))
                (merge_only_child-IsValid l (set_value cur none) (set_none-IsValid l cur is))
                (λ merged valid. valid)))

  pub remove_and_merge-IsValid :
      (l : List ℕ) (n : Node V H) (i : ℕ)
      → IsValid hasher l n
      → Holds (FirstIsValid {B = Edge V H} l) (remove_and_merge n i)
  unfolding remove_and_merge
  remove_and_merge-IsValid l n i h =
      bind-Holds Anything (FirstIsValid {B = Edge V H} l) (other_than (children n) i)
        (λ survivor. materialize_at n survivor >>= λ parent.
          remove_at parent i >>= λ r. merge_only_child r.0 >>= λ merged. some (merged, r.1))
        (any-Holds (other_than (children n) i))
        (λ survivor _.
          bind-Holds (IsValid hasher l) (FirstIsValid {B = Edge V H} l) (materialize_at n survivor)
            (λ parent.
              remove_at parent i >>= λ r. merge_only_child r.0 >>= λ merged. some (merged, r.1))
            (materialize_at-IsValid l n survivor h)
            (λ parent is.
              bind-Holds (FirstIsValid {B = Edge V H} l) (FirstIsValid {B = Edge V H} l)
                (remove_at parent i) (λ r. merge_only_child r.0 >>= λ merged. some (merged, r.1))
                (remove_at-IsValid l parent i is)
                (λ r left.
                  bind-Holds (IsValid hasher l) (FirstIsValid {B = Edge V H} l)
                    (merge_only_child r.0) (λ merged. some (merged, r.1))
                    (merge_only_child-IsValid l r.0 left) (λ merged valid. valid))))
