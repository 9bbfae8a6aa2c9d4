-- ===== src/Tries/Ops/Remove/Merge.antt =====
-- Merging a node with its only child, and the node that loses its value or a child that way.
use arity_arrays.Common.{
  ℕ, ◌≡◌, refl, ap, fun_ext, none, some, ◌==◌, ==_iff, if◌then◌else◌, ◌>>=◌, List, [], ◌∷◌, ◌++◌,
  Bool-cases, inl, inr,
}
use arity_arrays.Tries.Paths.Laws.{strip, join_cons}
use arity_arrays.Tries.Node.{
  Node, Edge, Children, node, mem_edge, get, count, read, inline, materialize, take_only_child,
}
use arity_arrays.Tries.Node.Counts.{Only, count-Only}
use arity_arrays.Tries.Lookups.{lookup-node, after, Same, sunk, lookup-sunk}
use arity_arrays.Tries.Structure.{IsTrie, AreTries, get-IsTrie, moved}
use arity_arrays.Tries.Ops.Remove.{merge_only_child}

module _ {V H : Type 0} where
  -- What merging makes of a node without a value.
  pub record Merges (n : Node V H) : Type 0 where
    pub merged : Node V H
    pub runs : merge_only_child n ≡ some merged
    pub same : Same n merged
    pub is_trie : IsTrie merged

  pub materialize-inline : (e : Edge V H) → materialize e ≡ inline (read e)
  materialize-inline (mem_edge n hash) = refl

  joined :
      (p : List ℕ) (cs : Children V H) (k : ℕ) (m : Node V H)
      → take_only_child cs ≡ some (k, inline m)
      → ((j : ℕ) → get cs j ≡ (if k == j then some (inline m) else none))
      → IsTrie m
      → Merges (node p none cs)
  unfolding merge_only_child
  joined p cs k (node pm vm cm) takes gets is = record {
    merged = node (p ++ (k ∷ pm)) vm cm;
    runs = rw (takes, join_cons p k pm);
    same = λ key.
        rw (lookup-sunk p k pm vm cm key, lookup-node p none cs key)
          (ap (◌>>=◌ (strip p key)) (fun_ext at_child));
    is_trie = moved pm (p ++ (k ∷ pm)) vm cm is;
  }
    where
      at_child : (t : List ℕ) → sunk k pm vm cm t ≡ after none cs t
      at_child [] = refl
      at_child (j ∷ t) = elim (Bool-cases (k == j)) [
        | inl same ↦ rw (gets j, same, lookup-node pm vm cm t)
        | inr other ↦ rw (gets j, other)
      ]

  Only-is :
      (cs : Children V H) (o : Only cs) (k : ℕ) (e : Edge V H)
      → get cs k ≡ some e
      → (o.index ≡ k) × (o.edge ≡ e)
  Only-is cs o k e at = elim (Bool-cases (o.index == k)) [
    | inl same ↦ let here = rw same at (o.gets k) in ((==_iff o.index k).0 same, cc)
    | inr other ↦ let here = rw other at (o.gets k) in absurd cc
  ]

  pub merge_only_child-Merges :
      (p : List ℕ) (cs : Children V H) (k : ℕ) (m : Node V H)
      → AreTries 0 cs
      → count cs ≡ 1
      → get cs k ≡ some (inline m)
      → Merges (node p none cs)
  merge_only_child-Merges p cs k m tries one at =
      let o = count-Only cs one in
      let (index, edge) = Only-is cs o k (inline m) at in
      joined p cs k m (rw (← index, ← edge) o.takes) (rw (← index, ← edge) o.gets)
        (get-IsTrie 0 cs k (inline m) tries at)
