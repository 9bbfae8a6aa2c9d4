-- ===== src/Tries/Hash/Removal.antt =====
-- `remove` of ops.rs keeps the hash-validity contract.
pub mod Calls
mod Steps
use arity_arrays.Common.{
  ℕ, suc, ◌≡◌, refl, sym, ap, ◌∙◌, subst, Bool, true, false, Option, none, some, ◌>>=◌, ◌==◌, ◌||◌,
  leb, if◌then◌else◌, List, [], ◌∷◌, ◌++◌, length, arith, Option-cases, inl, inr, ==_iff,
}
use mathlib.Core.List.{append_assoc}
use arity_arrays.Tries.Paths.{join}
use arity_arrays.Tries.Node.{
  Node, Edge, node, mem_edge, nil, cons, partial_path, value, children, set_value, get, count,
  take_only_child, first, read,
}
use arity_arrays.Tries.Lookups.{set_child}
use arity_arrays.Tries.Frames.{close, opened, close-opened, write_child-unsealed}
use arity_arrays.Tries.Frames.Laws.{bottom, AreLinked}
use arity_arrays.Tries.Ops.Remove.{
  Detached, detached_root, detached_edge, is_some, merge_only_child, materialize_at, remove_at,
  clear_and_merge, other_than, remove_and_merge, unwind_remove, remove_found, remove_value, recover,
  recover_edge,
}
use arity_arrays.Tries.Ops.Remove.Descent.{descend_to-Reaches}
use arity_arrays.Tries.Ops.Remove.Merge.{materialize-inline}
use arity_arrays.Tries.Hash.Scheme.{TrieHasher}
use arity_arrays.Tries.Hash.Digests.{IsValid}
use arity_arrays.Tries.Hash.Contract.{
  IsPositional, insert-IsValid, remove-IsValid, value-IsValid, moved-IsValid,
}
use arity_arrays.Tries.Hash.Insertion.{IsValidRoot, child-IsValid}
use arity_arrays.Tries.Hash.Removal.Calls.{Holds, bind-Holds, if-Holds, Anything, any-Holds}
use arity_arrays.Tries.Hash.Removal.Steps.{
  merge_only_child-IsValid, materialize_at-IsValid, FirstIsValid, remove_at-IsValid,
  set_none-IsValid, clear_and_merge-IsValid, remove_and_merge-IsValid,
}

module _ {V H : Type 0} (hasher : TrieHasher V H) (positional : IsPositional hasher) where
  -- The nodes on a stack keep the contract, each at the path where it stands; the top stands at l.
  abbrev pub StackIsValid : List (Node V H × ℕ) → List ℕ → Type 0
  StackIsValid [] l = l ≡ []
  StackIsValid ((parent, i) ∷ under) l =
      (up : List ℕ) × (e : Edge V H) × (get (children parent) i ≡ some e)
      × (l ≡ (up ++ partial_path parent) ++ (i ∷ []))
      × IsValid hasher up parent
      × StackIsValid under up

  back-IsValid :
      (up : List ℕ) (parent : Node V H) (i : ℕ) (l : List ℕ) (cur : Node V H)
      → l ≡ (up ++ partial_path parent) ++ (i ∷ [])
      → IsValid hasher up parent
      → IsValid hasher l cur
      → IsValid hasher up (set_child parent i cur)
  back-IsValid up (node p v cs) i l cur place h is =
      insert-IsValid hasher positional up p v cs i cur h (rw place at is)

  pub close-IsValid :
      (under : List (Node V H × ℕ)) (l : List ℕ) (cur : Node V H)
      → StackIsValid under l
      → IsValid hasher l cur
      → IsValid hasher [] (close (opened under) cur)
  close-IsValid [] l cur stack is = rw (← stack) is
  close-IsValid ((parent, i) ∷ under) l cur (up, e, at, place, h, stack) is =
      subst (IsValid hasher []) (sym (close-opened under parent i e cur at)) (
        close-IsValid under up (set_child parent i cur) stack
          (back-IsValid up parent i l cur place h is))

  pub linked-IsValid :
      (under : List (Node V H × ℕ)) (cur : Node V H)
      → AreLinked under cur
      → IsValid hasher [] (bottom under cur)
      → (l : List ℕ) × StackIsValid under l × IsValid hasher l cur
  linked-IsValid [] cur linked h = ([], refl, h)
  linked-IsValid ((node p v cs, i) ∷ under) cur linked h =
      let (up, stack, is) = linked-IsValid under (node p v cs) linked.1 h in
      let child = linked.0 in
      (
        (up ++ p) ++ (i ∷ []),
        (up, child.edge, child.present, refl, is, stack),
        rw (← child.is_read) (child-IsValid hasher up p v cs i child.edge is child.present),
      )

  -- What unwinding leaves, unless the root itself leaves.
  abbrev pub IsUnwound : Node V H × Detached V H → Type 0
  IsUnwound (n, detached_root) = Unit
  IsUnwound (n, detached_edge e) = IsValid hasher [] n

  pub unwind_remove-IsValid :
      (under : List (Node V H × ℕ)) (l : List ℕ) (cur : Node V H)
      → StackIsValid under l
      → IsValid hasher l cur
      → Holds IsUnwound (unwind_remove (opened under) cur)
  unfolding unwind_remove
  unwind_remove-IsValid [] l cur stack is = tt
  unwind_remove-IsValid ((parent, i) ∷ under) l cur (up, e, at, place, h, stack) is =
      let back = back-IsValid up parent i l cur place h is in
      let raised = set_child parent i cur in
      rw (write_child-unsealed parent i e cur at) (
        if-Holds IsUnwound (is_some (value raised) || leb 3 (count (children raised)))
          (remove_at raised i >>= λ r. some (close (opened under) r.0, detached_edge r.1))
          (if count (children raised) == 2
            then (remove_and_merge raised i >>= λ r.
                some (close (opened under) r.0, detached_edge r.1))
            else unwind_remove (opened under) raised)
          (bind-Holds (FirstIsValid hasher positional {B = Edge V H} up) IsUnwound
            (remove_at raised i) (λ r. some (close (opened under) r.0, detached_edge r.1))
            (remove_at-IsValid hasher positional up raised i back)
            (λ r valid. close-IsValid under up r.0 stack valid))
          (if-Holds IsUnwound (count (children raised) == 2)
            (remove_and_merge raised i >>= λ r. some (close (opened under) r.0, detached_edge r.1))
            (unwind_remove (opened under) raised)
            (bind-Holds (FirstIsValid hasher positional {B = Edge V H} up) IsUnwound
              (remove_and_merge raised i) (λ r. some (close (opened under) r.0, detached_edge r.1))
              (remove_and_merge-IsValid hasher positional up raised i back)
              (λ r valid. close-IsValid under up r.0 stack valid))
            (unwind_remove-IsValid under up raised stack back)))

  -- The root afterwards.
  abbrev pub RootIsValid : Option (Node V H) × Option V → Type 0
  RootIsValid r = IsValidRoot hasher r.0

  -- What `remove` makes of an unwound stack.
  abbrev finish_leaf : Node V H × Detached V H → Option (Option (Node V H) × Option V)
  finish_leaf r = elim r.1 [
    | detached_root ↦ recover r.0 >>= λ found. some (none, found)
    | detached_edge edge ↦ recover_edge edge >>= λ found. some (some r.0, found)
  ]

  finish_leaf-IsValid :
      (r : Node V H × Detached V H) → IsUnwound r → Holds RootIsValid (finish_leaf r)
  finish_leaf-IsValid (n, detached_root) h =
      bind-Holds Anything RootIsValid (recover n) (λ found. some (none, found))
        (any-Holds (recover n)) (λ found _. tt)
  finish_leaf-IsValid (n, detached_edge e) h =
      bind-Holds Anything RootIsValid (recover_edge e) (λ found. some (some n, found))
        (any-Holds (recover_edge e)) (λ found _. h)

  remove_found-IsValid :
      (under : List (Node V H × ℕ)) (l : List ℕ) (cur : Node V H)
      → StackIsValid under l
      → IsValid hasher l cur
      → Holds RootIsValid (remove_found (opened under) cur)
  unfolding remove_found count
  remove_found-IsValid under l (node p none cs) stack is =
      close-IsValid under l (node p none cs) stack is
  remove_found-IsValid under l (node p (some v) nil) stack is =
      bind-Holds IsUnwound RootIsValid (unwind_remove (opened under) (node p (some v) nil))
        (finish_leaf) (unwind_remove-IsValid under l (node p (some v) nil) stack is)
        finish_leaf-IsValid
  remove_found-IsValid under l (node p (some v) (cons j d nil)) stack is =
      let cur = node p (some v) (cons j d nil) in
      bind-Holds (FirstIsValid hasher positional {B = Option V} l) RootIsValid (clear_and_merge cur)
        (λ r. some (some (close (opened under) r.0), r.1))
        (clear_and_merge-IsValid hasher positional l cur is)
        (λ r valid. close-IsValid under l r.0 stack valid)
  remove_found-IsValid under l (node p (some v) (cons j d (cons k e cs))) stack is =
      close-IsValid under l (node p none (cons j d (cons k e cs))) stack
        (value-IsValid hasher positional l p (some v) none (cons j d (cons k e cs)) is)

  pub remove_value-IsValid :
      (root : Option (Node V H)) (key : List ℕ)
      → IsValidRoot hasher root
      → Holds RootIsValid (remove_value root key)
  unfolding remove_value
  remove_value-IsValid none key h = tt
  remove_value-IsValid (some n) key h =
      let r = descend_to-Reaches (suc (length key)) [] n key (omega arith) tt in
      let (l, stack, is) =
        linked-IsValid r.below r.cur r.linked (subst (IsValid hasher []) (sym r.same_root) h) in
      rw r.runs (
        if-Holds RootIsValid r.found (remove_found (opened r.below) r.cur)
          (some (some (close (opened r.below) r.cur), none))
          (remove_found-IsValid r.below l r.cur stack is) (close-IsValid r.below l r.cur stack is))
