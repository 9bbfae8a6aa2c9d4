-- ===== src/Tries/Ops/Insert/Arms.antt =====
-- The four ways in which an insertion changes a node, as updates of what the trie holds.
use arity_arrays.Common.{
  ℕ, ◌≡◌, refl, false, Option, none, some, ◌==◌, ==_iff, if◌then◌else◌, ◌>>=◌, List, [], ◌∷◌, ◌++◌,
  arith, Bool-cases, inl, inr,
}
use arity_arrays.Tries.Paths.Laws.{covers, strip, strip-update}
use arity_arrays.Tries.Node.{Node, Children, node, nil, leaf, get, insert, inline}
use arity_arrays.Tries.Node.Maps.{get-insert}
use arity_arrays.Tries.Lookups.{lookup, after, lookup-node, Updates, lookup-leaf, sunk, lookup-sunk}
use arity_arrays.Tries.Ops.Insert.{split_above, add_leaf, fork}

module _ {V H : Type 0} where
  -- An update of what is left of the keys after s.
  at_path :
      (s : List ℕ) (q : List ℕ) (w : Option V) (n n' : Node V H) (F G : List ℕ → Option V)
      → ((key : List ℕ) → lookup n key ≡ (strip s key >>= G))
      → ((key : List ℕ) → lookup n' key ≡ (strip s key >>= F))
      → ((t : List ℕ) → F t ≡ (if covers false q t then w else G t))
      → Updates (s ++ q) w n n'
  at_path s q w n n' F G from to h key = rw (from key, to key) (strip-update false s q key w F G h)

  pub split_above-Updates :
      (s : List ℕ) (w : V) (i : ℕ) (path : List ℕ) (v : Option V) (cs : Children V H)
      → Updates
          (s ++ [])
          (some w)
          (node (s ++ (i ∷ path)) v cs)
          (split_above s w i path (node (s ++ (i ∷ path)) v cs))
  unfolding split_above get insert
  split_above-Updates s w i path v cs =
      at_path s [] (some w) (node (s ++ (i ∷ path)) v cs)
        (split_above s w i path (node (s ++ (i ∷ path)) v cs))
        (after (some w) (insert nil i (inline (node path v cs)))) (sunk i path v cs)
        (lookup-sunk s i path v cs)
        (lookup-node s (some w) (insert nil i (inline (node path v cs)))) at_end
    where
      at_end :
          (t : List ℕ)
          → after (some w) (insert nil i (inline (node path v cs))) t
            ≡ (if covers false [] t then some w else sunk i path v cs t)
      at_end [] = refl
      at_end (j ∷ t) = elim (Bool-cases (i == j)) [
        | inl same ↦ rw same (lookup-node path v cs t)
        | inr other ↦ rw other
      ]

  pub add_leaf-Updates :
      (p : List ℕ) (v : Option V) (cs : Children V H) (k : ℕ) (q : List ℕ) (w : V)
      → get cs k ≡ none
      → Updates (p ++ (k ∷ q)) (some w) (node p v cs) (add_leaf (node p v cs) k q w)
  unfolding add_leaf
  add_leaf-Updates p v cs k q w missing =
      at_path p (k ∷ q) (some w) (node p v cs) (add_leaf (node p v cs) k q w)
        (after v (insert cs k (inline (leaf q w)))) (after v cs) (lookup-node p v cs)
        (lookup-node p v (insert cs k (inline (leaf q w)))) at_child
    where
      at_child :
          (t : List ℕ)
          → after v (insert cs k (inline (leaf q w))) t
            ≡ (if covers false (k ∷ q) t then some w else after v cs t)
      at_child [] = refl
      at_child (j ∷ t) = elim (Bool-cases (k == j)) [
        | inl same ↦
            let eq = (==_iff k j).0 same in
            rw (get-insert cs k (inline (leaf q w)) j, same, lookup-leaf H q w t, ← eq, missing)
        | inr other ↦ rw (get-insert cs k (inline (leaf q w)) j, other)
      ]

  abbrev both : ℕ → List ℕ → Option V → Children V H → ℕ → List ℕ → V → Children V H
  both i path v cs k q w = insert (insert nil i (inline (node path v cs))) k (inline (leaf q w))

  at_fork :
      (i : ℕ) (path : List ℕ) (v : Option V) (cs : Children V H) (k : ℕ) (q : List ℕ) (w : V)
      → (k == i) ≡ false
      → (t : List ℕ)
      → after none (both i path v cs k q w) t
        ≡ (if covers false (k ∷ q) t then some w else sunk i path v cs t)
  unfolding get
  at_fork i path v cs k q w apart [] = refl
  at_fork i path v cs k q w apart (j ∷ t) = elim (Bool-cases (k == j)) [
    | inl same ↦
        let eq = (==_iff k j).0 same in
        let other : (i == j) ≡ false = ground arith in
        rw (
          get-insert (insert nil i (inline (node path v cs))) k (inline (leaf q w)) j,
          same,
          lookup-leaf H q w t,
          other,
        )
    | inr other ↦
        rw
          (
            get-insert (insert nil i (inline (node path v cs))) k (inline (leaf q w)) j,
            other,
            get-insert nil i (inline (node path v cs)) j,
          )
          (elim (Bool-cases (i == j)) [
            | inl same ↦ rw same (lookup-node path v cs t)
            | inr apart ↦ rw apart
          ])
  ]

  pub fork-Updates :
      (s : List ℕ) (w : V) (k : ℕ) (q : List ℕ) (i : ℕ) (path : List ℕ) (v : Option V)
      (cs : Children V H)
      → (k == i) ≡ false
      → Updates
          (s ++ (k ∷ q))
          (some w)
          (node (s ++ (i ∷ path)) v cs)
          (fork s w k q i path (node (s ++ (i ∷ path)) v cs))
  unfolding fork
  fork-Updates s w k q i path v cs apart =
      at_path s (k ∷ q) (some w) (node (s ++ (i ∷ path)) v cs)
        (fork s w k q i path (node (s ++ (i ∷ path)) v cs)) (after none (both i path v cs k q w))
        (sunk i path v cs) (lookup-sunk s i path v cs) (lookup-node s none (both i path v cs k q w))
        (at_fork i path v cs k q w apart)
