-- ===== src/Tries/Ops/Remove/Child.antt =====
-- A node that loses its value, or the child that held one key only.
use arity_arrays.Common.{
  ℕ, ◌≡◌, refl, ◌∙◌, false, Option, none, some, ◌==◌, ==_iff, if◌then◌else◌, ◌>>=◌, List, [], ◌∷◌,
  ◌++◌, arith, Bool-cases, inl, inr, Bool,
}
use arity_arrays.Tries.Paths.Laws.{covers, strip-update}
use arity_arrays.Tries.Node.{Node, Edge, Children, node, get, insert, count, read, inline}
use arity_arrays.Tries.Node.Maps.{get-insert}
use arity_arrays.Tries.Node.Counts.{count_insert_present, count-Only}
use arity_arrays.Tries.Lookups.{
  lookup, lookup-node, after, Updates, Changes, Same, set_value-Updates, Changes, Same-set_child,
}
use arity_arrays.Tries.Structure.{IsTrie, parts_of, get-IsTrie, insert-AreTries, ascending}
use arity_arrays.Tries.Ops.Remove.{materialize_at, clear_and_merge}
use arity_arrays.Tries.Ops.Remove.Merge.{merge_only_child-Merges, materialize-inline}

module _ {V H : Type 0} where
  -- The child is replaced by itself, inline.
  refreshed :
      (p : List ℕ) (v : Option V) (cs : Children V H) (k : ℕ) (e : Edge V H)
      → get cs k ≡ some e
      → Same (node p v cs) (node p v (insert cs k (inline (read e))))
  refreshed p v cs k e at = Same-set_child (node p v cs) k (read e) e at (λ key. refl)

  pub get_back : (cs : Children V H) (k : ℕ) (d : Edge V H) → get (insert cs k d) k ≡ some d
  get_back cs k d = rw (get-insert cs k d k, (==_iff k k).1 refl)

  -- What `clear_and_merge` makes of a node.
  pub record Clears (n : Node V H) (p : List ℕ) (v : V) : Type 0 where
    pub merged : Node V H
    pub runs : clear_and_merge n ≡ some (merged, some v)
    pub updates : Updates p none n merged
    pub is_trie : IsTrie merged

  pub clear_and_merge-Clears :
      (p : List ℕ) (v : V) (cs : Children V H)
      → IsTrie (node p (some v) cs)
      → count cs ≡ 1
      → Clears (node p (some v) cs) p v
  unfolding clear_and_merge materialize_at
  clear_and_merge-Clears p v cs h one =
      let o = count-Only cs one in
      let tries = (parts_of p (some v) cs h).1 in
      let at : get cs o.index ≡ some o.edge =
        rw (o.gets o.index, (==_iff o.index o.index).1 refl) in
      let cs' = insert cs o.index (inline (read o.edge)) in
      let m =
        merge_only_child-Merges p cs' o.index (read o.edge)
          (insert-AreTries 0 cs o.index (read o.edge) tries (omega arith)
            (get-IsTrie 0 cs o.index o.edge tries at))
          (count_insert_present 0 cs o.index o.edge (inline (read o.edge)) (ascending 0 cs tries) at
            ∙ one)
          (get_back cs o.index (inline (read o.edge))) in
      record {
        merged = m.merged;
        runs = rw (o.is_first, at, materialize-inline o.edge, m.runs);
        updates = λ key.
            m.same key
            ∙ set_value-Updates p (some v) cs' none key
            ∙ rw (refreshed p (some v) cs o.index o.edge at key);
        is_trie = m.is_trie;
      }

  -- What is read of the child at an index.
  abbrev pub child : Children V H → ℕ → List ℕ → Option V
  child cs j t = get cs j >>= λ e. lookup (read e) t

  -- n holds nothing but what the test covers.
  abbrev pub IsCovered : Bool → List ℕ → Node V H → Type 0
  IsCovered below q n = (t : List ℕ) → covers below q t ≡ false → lookup n t ≡ none

  pub child_removed :
      (below : Bool) (p : List ℕ) (v0 : Option V) (cs cs' : Children V H) (i : ℕ) (q : List ℕ)
      (e : Edge V H)
      → get cs i ≡ some e
      → IsCovered below q (read e)
      → get cs' i ≡ none
      → ((j : ℕ) → (i == j) ≡ false → (t : List ℕ) → child cs' j t ≡ child cs j t)
      → Changes below (p ++ (i ∷ q)) none (node p v0 cs) (node p v0 cs')
  child_removed below p v0 cs cs' i q e at holds gone others key =
      rw (lookup-node p v0 cs' key, lookup-node p v0 cs key)
        (strip-update below p (i ∷ q) key none (after v0 cs') (after v0 cs) at_child)
    where
      at_child :
          (t : List ℕ) → after v0 cs' t ≡ (if covers below (i ∷ q) t then none else after v0 cs t)
      at_child [] = refl
      at_child (j ∷ t) = elim (Bool-cases (i == j)) [
        | inl same ↦
            let eq = (==_iff i j).0 same in
            rw (same, ← eq, gone, at)
              (elim (Bool-cases (covers below q t)) [
                | inl here ↦ rw here
                | inr there ↦ rw (there, holds t there)
              ])
        | inr other ↦ rw other (others j other t)
      ]
