-- ===== src/Tries/Ops/Insert/Structure.antt =====
-- Insertion keeps the structural invariant.
use arity_arrays.Common.{ℕ, ◌≡◌, refl, false, Option, none, some, ◌==◌, List, ◌∷◌, ◌++◌, arith}
use arity_arrays.Tries.Node.{Node, Edge, node, nil, leaf, insert, inline, read, count}
use arity_arrays.Tries.Structure.{
  IsTrie, IsRoot, AreTries, parts_of, IsTrie-of, nil-AreTries, get-IsTrie, insert-AreTries,
  set_child-IsTrie, moved,
}
use arity_arrays.Tries.Ops.Insert.{split_above, add_leaf, fork, insert_value}
use arity_arrays.Tries.Ops.Insert.Laws.{
  Inserted, replaced, above, added, forked, descended, insert_value-Inserted,
}

leaf-IsTrie :
    {V : Type 0} (H : Type 0) (path : List ℕ) (w : V) → IsTrie {V = V} {H = H} (leaf path w)
leaf-IsTrie {V} H path w = IsTrie-of path (some w) nil tt (nil-AreTries V H 0)

module _ {V H : Type 0} where
  one-AreTries : (i : ℕ) (n : Node V H) → IsTrie n → AreTries 0 (insert nil i (inline n))
  one-AreTries i n is = insert-AreTries 0 nil i n (nil-AreTries V H 0) (omega arith) is

  count_two :
      (i k : ℕ) (d e : Edge V H) → (k == i) ≡ false → count (insert (insert nil i d) k e) ≡ 2
  unfolding insert count
  count_two i k d e apart = ground arith

  two-AreTries :
      (i k : ℕ) (n m : Node V H)
      → IsTrie n
      → IsTrie m
      → AreTries 0 (insert (insert nil i (inline n)) k (inline m))
  two-AreTries i k n m is_n is_m =
      insert-AreTries 0 (insert nil i (inline n)) k m (one-AreTries i n is_n) (omega arith) is_m

  Inserted-IsTrie :
      (w : V) (n : Node V H) (key : List ℕ) (n' : Node V H) (old : Option V)
      → Inserted w n key n' old
      → IsTrie n
      → IsTrie n'
  unfolding split_above add_leaf fork
  Inserted-IsTrie w _ _ _ _ (replaced p v cs) h = IsTrie-of p (some w) cs tt (parts_of p v cs h).1
  Inserted-IsTrie w _ _ _ _ (above s i path v cs) h =
      IsTrie-of s (some w) (insert nil i (inline (node path v cs))) tt
        (one-AreTries i (node path v cs) (moved (s ++ (i ∷ path)) path v cs h))
  Inserted-IsTrie w _ _ _ _ (added p v cs k q missing) h =
      set_child-IsTrie p v cs k (leaf q w) h (leaf-IsTrie H q w)
  Inserted-IsTrie w _ _ _ _ (forked s k q i path v cs apart) h =
      IsTrie-of s none (insert (insert nil i (inline (node path v cs))) k (inline (leaf q w)))
        (rw (count_two i k (inline (node path v cs)) (inline (leaf q w)) apart) (omega arith))
        (two-AreTries i k (node path v cs) (leaf q w) (moved (s ++ (i ∷ path)) path v cs h)
          (leaf-IsTrie H q w))
  Inserted-IsTrie w _ _ _ _ (descended p v cs k q e n' old present step) h =
      let child = get-IsTrie 0 cs k e (parts_of p v cs h).1 present in
      set_child-IsTrie p v cs k n' h (Inserted-IsTrie w (read e) q n' old step child)

  -- `insert` into a trie that satisfies the structural invariant, or into none, gives one that
  -- satisfies it: each node without a value has two children at least, and the indices of each node's
  -- children ascend.
  pub insert_value-IsTrie :
      (root : Option (Node V H)) (key : List ℕ) (w : V)
      → IsRoot root
      → (root' : Node V H) × (old : Option V) × (insert_value root key w ≡ some (root', old))
        × IsTrie root'
  unfolding insert_value
  insert_value-IsTrie none key w h = (leaf key w, none, refl, leaf-IsTrie H key w)
  insert_value-IsTrie (some root) key w h =
      let (root', old, run, done) = insert_value-Inserted root key w in
      (root', old, run, Inserted-IsTrie w root key root' old done h)
