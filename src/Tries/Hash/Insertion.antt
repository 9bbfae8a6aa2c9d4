-- ===== src/Tries/Hash/Insertion.antt =====
-- `insert` of ops.rs keeps the hash-validity contract.
use arity_arrays.Common.{ℕ, ◌≡◌, refl, sym, ◌∙◌, Option, none, some, List, [], ◌∷◌, ◌++◌}
use mathlib.Core.List.{append_assoc}
use arity_arrays.Tries.Node.{
  Node, Edge, Children, node, mem_edge, nil, leaf, insert, inline, read, get,
}
use arity_arrays.Tries.Ops.Insert.{split_above, add_leaf, fork, insert_value}
use arity_arrays.Tries.Ops.Insert.Laws.{
  Inserted, replaced, above, added, forked, descended, insert_value-Inserted,
}
use arity_arrays.Tries.Hash.Scheme.{TrieHasher}
use arity_arrays.Tries.Hash.Digests.{IsValid, IsValidEdge}
use arity_arrays.Tries.Hash.Validity.{valid_of, get-IsValidEdge, inline_parts, sealed_parts}
use arity_arrays.Tries.Hash.Contract.{IsPositional, insert-IsValid, value-IsValid, moved-IsValid}

-- The contract of a root, which may be missing.
abbrev pub IsValidRoot : {V H : Type 0} → TrieHasher V H → Option (Node V H) → Type 0
IsValidRoot hasher none = Unit
IsValidRoot hasher (some n) = IsValid hasher [] n

module _ {V H : Type 0} (hasher : TrieHasher V H) where
  nil-IsValid : (l p : List ℕ) (v : Option V) → IsValid hasher l (node p v nil)
  unfolding IsValid
  nil-IsValid l p v = (tt, λ settled. tt, tt)

  read-IsValid : (l : List ℕ) (e : Edge V H) → IsValidEdge hasher l e → IsValid hasher l (read e)
  read-IsValid l (mem_edge n none) h = inline_parts hasher l n h
  read-IsValid l (mem_edge n (some x)) h = (sealed_parts hasher l n x h).0

  pub child-IsValid :
      (l p : List ℕ) (v : Option V) (cs : Children V H) (i : ℕ) (e : Edge V H)
      → IsValid hasher l (node p v cs)
      → get cs i ≡ some e
      → IsValid hasher ((l ++ p) ++ (i ∷ [])) (read e)
  child-IsValid l p v cs i e h there =
      read-IsValid ((l ++ p) ++ (i ∷ [])) e
        (get-IsValidEdge hasher (l ++ p) cs i e (valid_of hasher l p v cs h).2 there)

  module _ (positional : IsPositional hasher) where
    -- The lower part of a split node, beneath the upper part.
    below-IsValid :
        (l s : List ℕ) (i : ℕ) (path : List ℕ) (v : Option V) (cs : Children V H)
        → IsValid hasher l (node (s ++ (i ∷ path)) v cs)
        → IsValid hasher ((l ++ s) ++ (i ∷ [])) (node path v cs)
    below-IsValid l s i path v cs h =
        moved-IsValid hasher positional l (s ++ (i ∷ path)) ((l ++ s) ++ (i ∷ [])) path v cs
          (sym (append_assoc l s (i ∷ path)) ∙ sym (append_assoc (l ++ s) (i ∷ []) path)) h

    one-IsValid :
        (l s : List ℕ) (w : Option V) (i : ℕ) (path : List ℕ) (v : Option V) (cs : Children V H)
        → IsValid hasher l (node (s ++ (i ∷ path)) v cs)
        → IsValid hasher l (node s w (insert nil i (inline (node path v cs))))
    one-IsValid l s w i path v cs h =
        insert-IsValid hasher positional l s w nil i (node path v cs) (nil-IsValid l s w)
          (below-IsValid l s i path v cs h)

    Inserted-IsValid :
        (w : V) (l : List ℕ) (n : Node V H) (key : List ℕ) (n' : Node V H) (old : Option V)
        → Inserted w n key n' old
        → IsValid hasher l n
        → IsValid hasher l n'
    unfolding split_above add_leaf fork
    Inserted-IsValid w l _ _ _ _ (replaced p v cs) h =
        value-IsValid hasher positional l p v (some w) cs h
    Inserted-IsValid w l _ _ _ _ (above s i path v cs) h = one-IsValid l s (some w) i path v cs h
    Inserted-IsValid w l _ _ _ _ (added p v cs k q missing) h =
        insert-IsValid hasher positional l p v cs k (leaf q w) h
          (nil-IsValid ((l ++ p) ++ (k ∷ [])) q (some w))
    Inserted-IsValid w l _ _ _ _ (forked s k q i path v cs apart) h =
        insert-IsValid hasher positional l s none (insert nil i (inline (node path v cs))) k
          (leaf q w) (one-IsValid l s none i path v cs h)
          (nil-IsValid ((l ++ s) ++ (k ∷ [])) q (some w))
    Inserted-IsValid w l _ _ _ _ (descended p v cs k q e n' old present step) h =
        insert-IsValid hasher positional l p v cs k n' h (
          Inserted-IsValid w ((l ++ p) ++ (k ∷ [])) (read e) q n' old step
            (child-IsValid l p v cs k e h present))

    pub insert_value-IsValid :
        (root : Option (Node V H)) (key : List ℕ) (w : V)
        → IsValidRoot hasher root
        → (root' : Node V H) × (old : Option V) × (insert_value root key w ≡ some (root', old))
          × IsValid hasher [] root'
    unfolding insert_value
    insert_value-IsValid none key w h = (leaf key w, none, refl, nil-IsValid [] key (some w))
    insert_value-IsValid (some root) key w h =
        let (root', old, run, done) = insert_value-Inserted root key w in
        (root', old, run, Inserted-IsValid w [] root key root' old done h)
