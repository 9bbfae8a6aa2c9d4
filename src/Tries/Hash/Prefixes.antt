-- ===== src/Tries/Hash/Prefixes.antt =====
-- `remove_prefix` and `materialize_subtree` of ops.rs keep the hash-validity contract.
use arity_arrays.Common.{
  ℕ, zero, suc, ◌≡◌, refl, subst, sym, Option, none, some, ◌>>=◌, List, [], ◌∷◌, ◌++◌, length,
  Option-cases, inl, inr,
}
use arity_arrays.Tries.Node.{Node, Edge, Children, node, mem_edge, nil, cons, children, get, read}
use arity_arrays.Tries.Node.Maps.{IsAscending}
use arity_arrays.Tries.Structure.{IsTrie, IsRoot}
use arity_arrays.Tries.Frames.{frames, descend, descend-get, close, opened}
use arity_arrays.Tries.Frames.Laws.{bottom, AreLinked, top-IsTrie}
use arity_arrays.Tries.Ops.Descent.{Split, split_of, below, split_of-Finds}
use arity_arrays.Tries.Ops.Subtree.Inlined.{materialize_subtree-inlined}
use arity_arrays.Tries.Ops.Subtree.Laws.{inlined, inlined_below}
use arity_arrays.Tries.Ops.Remove.{Detached, detached_root, detached_edge, unwind_remove}
use arity_arrays.Tries.Ops.Prefix.{leaves, prefix_loop, remove_prefix}
use arity_arrays.Tries.Hash.Scheme.{TrieHasher}
use arity_arrays.Tries.Hash.Digests.{sealed_count, IsValid, AreValid}
use arity_arrays.Tries.Hash.Scans.{none-AreExact}
use arity_arrays.Tries.Hash.Contract.{IsPositional}
use arity_arrays.Tries.Hash.Insertion.{IsValidRoot}
use arity_arrays.Tries.Hash.Removal.Calls.{Holds, bind-Holds}
use arity_arrays.Tries.Hash.Removal.{
  close-IsValid, linked-IsValid, IsUnwound, unwind_remove-IsValid,
}

module _ {V H : Type 0} where
  inlined-sealed : (cs : Children V H) → sealed_count (inlined_below cs) ≡ 0
  unfolding inlined
  inlined-sealed nil = refl
  inlined-sealed (cons j (mem_edge n x) cs) = inlined-sealed cs

  inlined-IsAscending :
      (lo : ℕ) (cs : Children V H) → IsAscending lo cs → IsAscending lo (inlined_below cs)
  unfolding inlined
  inlined-IsAscending lo nil h = tt
  inlined-IsAscending lo (cons j (mem_edge n x) cs) h = (h.0, inlined-IsAscending (suc j) cs h.1)

module _ {V H : Type 0} (hasher : TrieHasher V H) where
  mutual
    unfolding inlined IsValid

    pub inlined-IsValid :
        (l : List ℕ) (n : Node V H) → IsValid hasher l n → IsValid hasher l (inlined n)
    inlined-IsValid l (node p v cs) h = (
      inlined-IsAscending 0 cs h.0,
      λ settled. none-AreExact hasher (l ++ p) _ (inlined_below cs) (inlined-sealed cs),
      inlined-AreValid (l ++ p) cs h.2,
    )

    inlined-AreValid :
        (path : List ℕ) (cs : Children V H)
        → AreValid hasher path cs
        → AreValid hasher path (inlined_below cs)
    inlined-AreValid path nil h = tt
    inlined-AreValid path (cons j (mem_edge n none) cs) h =
        (inlined-IsValid (path ++ (j ∷ [])) n h.0, inlined-AreValid path cs h.1)
    inlined-AreValid path (cons j (mem_edge n (some x)) cs) h =
        (inlined-IsValid (path ++ (j ∷ [])) n h.0.0, inlined-AreValid path cs h.1)

  module _ (positional : IsPositional hasher) where
    -- What is left of a root once the stack above a prefix is unwound.
    abbrev left_root : Node V H × Detached V H → Option (Option (Node V H))
    left_root r = elim r.1 [ detached_root ↦ some none | detached_edge edge ↦ some (some r.0) ]

    left_root-IsValid :
        (r : Node V H × Detached V H)
        → IsUnwound hasher positional r
        → Holds (IsValidRoot hasher) (left_root r)
    left_root-IsValid (n, detached_root) h = tt
    left_root-IsValid (n, detached_edge e) h = h

    leaves-IsValid :
        (under : List (Node V H × ℕ)) (n : Node V H)
        → AreLinked under n
        → IsTrie (bottom under n)
        → IsValid hasher [] (bottom under n)
        → Holds (IsValidRoot hasher) (leaves (frames (opened under) n))
    unfolding leaves
    leaves-IsValid under n linked is valid =
        let (run, trie, same) = materialize_subtree-inlined n (top-IsTrie under n linked is) in
        let (l, stack, here) = linked-IsValid hasher positional under n linked valid in
        rw run (
          bind-Holds (IsUnwound hasher positional) (IsValidRoot hasher)
            (unwind_remove (opened under) (inlined n)) left_root
            (unwind_remove-IsValid hasher positional under l (inlined n) stack
              (inlined-IsValid l n here))
            left_root-IsValid)

    stays-IsValid :
        (under : List (Node V H × ℕ)) (n : Node V H)
        → AreLinked under n
        → IsValid hasher [] (bottom under n)
        → IsValid hasher [] (close (opened under) n)
    stays-IsValid under n linked valid =
        let (l, stack, here) = linked-IsValid hasher positional under n linked valid in
        close-IsValid hasher positional under l n stack here

    abbrev follow :
        List (Node V H × ℕ)
        → Node V H
        → ℕ
        → List ℕ
        → ℕ
        → Option (Edge V H)
        → Option (Option (Node V H))
    follow under cur k q fuel none = some (some (close (opened under) cur))
    follow under cur k q fuel (some e) =
        descend (frames (opened under) cur) k >>= λ stack. prefix_loop fuel stack q

    step-IsValid :
        (fuel : ℕ) (under : List (Node V H × ℕ)) (n : Node V H) (rest : List ℕ) (m : ℕ)
        (next : Option ℕ) (b a : Option (ℕ × List ℕ))
        → let split : Split = record { shared_len = m; key_next = next; above = a } in
          split_of rest n ≡ some split
          → below split rest ≡ some b
          → AreLinked under n
          → IsTrie (bottom under n)
          → IsValid hasher [] (bottom under n)
          → ((e : Edge V H) (k : ℕ) (q : List ℕ)
              → get (children n) k ≡ some e
              → Holds
                  (IsValidRoot hasher)
                  (prefix_loop fuel (frames (opened ((n, k) ∷ under)) (read e)) q))
          → Holds (IsValidRoot hasher) (prefix_loop (suc fuel) (frames (opened under) n) rest)
    unfolding prefix_loop
    step-IsValid fuel under n rest m next none a is_split is_below linked is valid deeper =
        rw (is_split, is_below) (leaves-IsValid under n linked is valid)
    step-IsValid fuel under n rest m next (some (k, q)) (some x) is_split is_below linked is valid
          deeper =
        rw (is_split, is_below) (stays-IsValid under n linked valid)
    step-IsValid fuel under n rest m next (some (k, q)) none is_split is_below linked is valid
          deeper =
        elim (Option-cases (get (children n) k)) [
          | inl absent ↦
              rw (is_split, is_below)
                (subst (λ o. Holds (IsValidRoot hasher) (follow under n k q fuel o)) (sym absent)
                  (stays-IsValid under n linked valid))
          | inr (e, present) ↦
              rw (is_split, is_below)
                (subst (λ o. Holds (IsValidRoot hasher) (follow under n k q fuel o)) (sym present)
                  (rw (descend-get under n k e present) (deeper e k q present)))
        ]

    prefix_loop-IsValid :
        (fuel : ℕ) (under : List (Node V H × ℕ)) (n : Node V H) (rest : List ℕ)
        → AreLinked under n
        → IsTrie (bottom under n)
        → IsValid hasher [] (bottom under n)
        → Holds (IsValidRoot hasher) (prefix_loop fuel (frames (opened under) n) rest)
    unfolding prefix_loop
    prefix_loop-IsValid zero under n rest linked is valid = tt
    prefix_loop-IsValid (suc fuel) under n rest linked is valid =
        let f = split_of-Finds rest n in
        step-IsValid fuel under n rest f.split.shared_len f.split.key_next f.key_below f.split.above
          f.is_split f.is_below linked is valid
          (λ e k q present.
            prefix_loop-IsValid fuel ((n, k) ∷ under) (read e) q
              (record { edge = e; present = present; is_read = refl }, linked) is valid)

    pub remove_prefix-IsValid :
        (root : Option (Node V H)) (prefix : List ℕ)
        → IsRoot root
        → IsValidRoot hasher root
        → Holds (IsValidRoot hasher) (remove_prefix root prefix)
    unfolding remove_prefix
    remove_prefix-IsValid none prefix is valid = tt
    remove_prefix-IsValid (some n) prefix is valid =
        prefix_loop-IsValid (suc (length prefix)) [] n prefix tt is valid
