-- ===== src/Tries/Ops/Insert/Laws.antt =====
-- Insertion: the loop over the frames does what the relation `Inserted` says of one node, and what
-- that means for the values the trie holds.
use arity_arrays.Common.{
  ℕ, zero, suc, ◌<◌, ◌≡◌, refl, sym, ◌∙◌, ap, false, Option, none, some, ◌==◌, ◌>>=◌, List, [], ◌∷◌,
  ◌++◌, length, arith, Option-cases, inl, inr,
}
use arity_arrays.Tries.Paths.{slice_to}
use arity_arrays.Tries.Paths.Laws.{
  strip, strip_self, strip_apart, strip_shared, Parts, append_nil, shorter_than,
}
use arity_arrays.Tries.Node.{Node, Edge, Children, node, get, read}
use arity_arrays.Tries.Lookups.{
  lookup, lookup-node, Updates, Changes-set_child, set_child, set_value-Updates,
}
use arity_arrays.Tries.Frames.{frames, descend, close, opened, descend-get, close-opened}
use arity_arrays.Tries.Ops.Descent.{Split, split_of, below, whole, split_of-Finds}
use arity_arrays.Tries.Ops.Insert.{split_above, add_leaf, fork, end_at, insert_loop, insert_value}
use arity_arrays.Tries.Ops.Insert.Arms.{split_above-Updates, add_leaf-Updates, fork-Updates}

-- What an insertion makes of a node, and the value that it displaces.
pub data Inserted {V H : Type 0} (w : V) : Node V H → List ℕ → Node V H → Option V → Type 0 where
  replaced :
      (p : List ℕ) (v : Option V) (cs : Children V H)
      → Inserted w (node p v cs) p (node p (some w) cs) v
  above :
      (s : List ℕ) (i : ℕ) (path : List ℕ) (v : Option V) (cs : Children V H)
      → Inserted w
          (node (s ++ (i ∷ path)) v cs)
          (s ++ [])
          (split_above s w i path (node (s ++ (i ∷ path)) v cs))
          none
  added :
      (p : List ℕ) (v : Option V) (cs : Children V H) (k : ℕ) (q : List ℕ)
      → get cs k ≡ none
      → Inserted w (node p v cs) (p ++ (k ∷ q)) (add_leaf (node p v cs) k q w) none
  forked :
      (s : List ℕ) (k : ℕ) (q : List ℕ) (i : ℕ) (path : List ℕ) (v : Option V) (cs : Children V H)
      → (k == i) ≡ false
      → Inserted w
          (node (s ++ (i ∷ path)) v cs)
          (s ++ (k ∷ q))
          (fork s w k q i path (node (s ++ (i ∷ path)) v cs))
          none
  descended :
      (p : List ℕ) (v : Option V) (cs : Children V H) (k : ℕ) (q : List ℕ) (e : Edge V H)
      (n' : Node V H) (old : Option V)
      → get cs k ≡ some e
      → Inserted w (read e) q n' old
      → Inserted w (node p v cs) (p ++ (k ∷ q)) (set_child (node p v cs) k n') old

module _ {V H : Type 0} where
  pub Inserted-Updates :
      (w : V) (n : Node V H) (key : List ℕ) (n' : Node V H) (old : Option V)
      → Inserted w n key n' old
      → Updates key (some w) n n'
  Inserted-Updates w _ _ _ _ (replaced p v cs) = set_value-Updates p v cs (some w)
  Inserted-Updates w _ _ _ _ (above s i path v cs) = split_above-Updates s w i path v cs
  Inserted-Updates w _ _ _ _ (added p v cs k q missing) = add_leaf-Updates p v cs k q w missing
  Inserted-Updates w _ _ _ _ (forked s k q i path v cs apart) =
      fork-Updates s w k q i path v cs apart
  Inserted-Updates w _ _ _ _ (descended p v cs k q e n' old present step) =
      Changes-set_child false (node p v cs) k (read e) n' q (some w) e present refl
        (Inserted-Updates w (read e) q n' old step)

  -- The value displaced is the one that the trie held.
  pub Inserted-lookup :
      (w : V) (n : Node V H) (key : List ℕ) (n' : Node V H) (old : Option V)
      → Inserted w n key n' old
      → old ≡ lookup n key
  Inserted-lookup w _ _ _ _ (replaced p v cs) = rw (lookup-node p v cs p, strip_all p)
    where
      strip_all : (p : List ℕ) → strip p p ≡ some []
      strip_all p = ap (strip p) (sym (append_nil p)) ∙ strip_self p []
  Inserted-lookup w _ _ _ _ (above s i path v cs) =
      rw (lookup-node (s ++ (i ∷ path)) v cs (s ++ []), strip_shared s (i ∷ path) [])
  Inserted-lookup w _ _ _ _ (added p v cs k q missing) =
      rw (lookup-node p v cs (p ++ (k ∷ q)), strip_self p (k ∷ q), missing)
  Inserted-lookup w _ _ _ _ (forked s k q i path v cs apart) = rw (
    lookup-node (s ++ (i ∷ path)) v cs (s ++ (k ∷ q)),
    strip_shared s (i ∷ path) (k ∷ q),
    strip_apart i path (k ∷ q) apart,
  )
  Inserted-lookup w _ _ _ _ (descended p v cs k q e n' old present step) =
      rw (lookup-node p v cs (p ++ (k ∷ q)), strip_self p (k ∷ q), present)
        (Inserted-lookup w (read e) q n' old step)

  -- The loop ends with the change of the node at its place.
  record Inserts (fuel : ℕ) (under : List (Node V H × ℕ)) (n : Node V H) (rest : List ℕ) (w : V)
      : Type 0 where
    pub result : Node V H
    pub old : Option V
    pub runs :
        insert_loop fuel (frames (opened under) n) rest w ≡ some (close (opened under) result, old)
    pub inserted : Inserted w n rest result old

  ends :
      (p rest s : List ℕ) (v : Option V) (cs : Children V H) (w : V) (split : Split)
      (a : Option (ℕ × List ℕ))
      → slice_to rest split.shared_len ≡ some s
      → rest ≡ s ++ []
      → p ≡ s ++ whole a
      → (n' : Node V H) × (old : Option V) × (end_at split rest w (node p v cs) a ≡ some (n', old))
        × Inserted w (node p v cs) rest n' old
  unfolding end_at
  ends p rest s v cs w split none shared is_rest is_path =
      (node p (some w) cs, v, refl, rw (is_rest, ← is_path) (replaced p v cs))
  ends p rest s v cs w split (some (i, path)) shared is_rest is_path = (
    split_above s w i path (node p v cs),
    none,
    rw shared,
    rw (is_rest, is_path) (above s i path v cs),
  )

  abbrev follow :
      List (Node V H × ℕ)
      → Node V H
      → ℕ
      → List ℕ
      → V
      → ℕ
      → Option (Edge V H)
      → Option (Node V H × Option V)
  unfolding insert_loop
  follow under cur k q w fuel none = some (close (opened under) (add_leaf cur k q w), none)
  follow under cur k q w fuel (some e) =
      descend (frames (opened under) cur) k >>= λ stack. insert_loop fuel stack q w

  step :
      (fuel : ℕ) (under : List (Node V H × ℕ)) (p rest : List ℕ) (v : Option V) (cs : Children V H)
      (w : V) (s : List ℕ) (m : ℕ) (next : Option ℕ) (b a : Option (ℕ × List ℕ))
      → let split : Split = record { shared_len = m; key_next = next; above = a } in
        split_of rest (node p v cs) ≡ some split
        → below split rest ≡ some b
        → slice_to rest m ≡ some s
        → rest ≡ s ++ whole b
        → p ≡ s ++ whole a
        → Parts (whole b) (whole a)
        → ((under : List (Node V H × ℕ)) (e : Edge V H) (q : List ℕ)
            → length q < length (whole b)
            → Inserts fuel under (read e) q w)
        → Inserts (suc fuel) under (node p v cs) rest w
  unfolding insert_loop
  step fuel under p rest v cs w s m next none a is_split is_below shared is_rest is_path parts
        deeper =
      let split : Split = record { shared_len = m; key_next = next; above = a } in
      let (n', old, run, done) = ends p rest s v cs w split a shared is_rest is_path in
      record { result = n'; old = old; runs = rw (is_split, is_below, run); inserted = done }
  step fuel under p rest v cs w s m next (some (k, q)) (some (i, path)) is_split is_below shared
        is_rest is_path parts deeper =
      record {
        result = fork s w k q i path (node p v cs);
        old = none;
        runs = rw (is_split, is_below, shared);
        inserted = rw (is_rest, is_path) (forked s k q i path v cs parts);
      }
  step fuel under p rest v cs w s m next (some (k, q)) none is_split is_below shared is_rest is_path
        parts deeper =
      let same : p ≡ s = is_path ∙ append_nil s in
      elim (Option-cases (get cs k)) [
        | inl missing ↦ record {
          result = add_leaf (node p v cs) k q w;
          old = none;
          runs = rw (is_split, is_below) (ap (follow under (node p v cs) k q w fuel) missing);
          inserted = rw (is_rest, ← same) (added p v cs k q missing);
        }
        | inr (e, present) ↦
            let deep = deeper ((node p v cs, k) ∷ under) e q (omega arith) in
            record {
              result = set_child (node p v cs) k deep.result;
              old = deep.old;
              runs =
                  rw (is_split, is_below)
                    (ap (follow under (node p v cs) k q w fuel) present
                      ∙ rw (descend-get under (node p v cs) k e present) (
                          deep.runs
                          ∙ ap (λ r. some (r, deep.old))
                              (close-opened under (node p v cs) k e deep.result present)));
              inserted =
                  rw (is_rest, ← same)
                    (descended p v cs k q e deep.result deep.old present deep.inserted);
            }
      ]

  insert_loop-Inserts :
      (fuel : ℕ) (under : List (Node V H × ℕ)) (n : Node V H) (rest : List ℕ) (w : V)
      → length rest < fuel
      → Inserts fuel under n rest w
  insert_loop-Inserts zero under n rest w h = absurd (omega arith)
  insert_loop-Inserts (suc fuel) under (node p v cs) rest w h =
      let f = split_of-Finds rest (node p v cs) in
      step fuel under p rest v cs w f.s f.split.shared_len f.split.key_next f.key_below
        f.split.above f.is_split f.is_below f.is_shared f.is_rest f.is_path f.parts
        (λ under e q shorter.
          insert_loop-Inserts fuel under (read e) q w
            (shorter_than f.s (whole f.key_below) rest q fuel f.is_rest shorter h))

  -- `insert` of a value at a key, into a trie that is not empty, does not panic or run out of fuel:
  -- it makes of the root what `Inserted` says, which does not speak of frames, and returns the value
  -- that this displaces.
  pub insert_value-Inserted :
      (root : Node V H) (key : List ℕ) (w : V)
      → (root' : Node V H) × (old : Option V) × (insert_value (some root) key w ≡ some (root', old))
        × Inserted w root key root' old
  unfolding insert_value insert_loop
  insert_value-Inserted root key w =
      let done = insert_loop-Inserts (suc (length key)) [] root key w (omega arith) in
      (done.result, done.old, done.runs, done.inserted)
