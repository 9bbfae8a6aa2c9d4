-- ===== src/Tries/Ops/Subtree/Inlined.antt =====
-- Materializing a subtree changes no value and keeps the structural invariant.
use arity_arrays.Common.{
  ℕ, suc, ◌≡◌, refl, sym, ◌∙◌, ap, subst, fun_ext, Option, some, ◌==◌, ◌>>=◌, List, [], ◌∷◌,
  Bool-cases, inl, inr,
}
use arity_arrays.Tries.Paths.Laws.{strip}
use arity_arrays.Tries.Node.{Node, Children, node, mem_edge, nil, cons, get, read, count}
use arity_arrays.Tries.Lookups.{lookup, lookup-node, after, Same}
use arity_arrays.Tries.Structure.{IsTrie, AreTries, Settled}
use arity_arrays.Tries.Ops.Subtree.{materialize_subtree}
use arity_arrays.Tries.Ops.Subtree.Laws.{inlined, inlined_below, materialize_subtree_lem}

module _ {V H : Type 0} where
  count-inlined : (cs : Children V H) → count (inlined_below cs) ≡ count cs
  unfolding count inlined
  count-inlined nil = refl
  count-inlined (cons j (mem_edge n hash) cs) = ap suc (count-inlined cs)

  mutual
    unfolding inlined IsTrie

    inlined-IsTrie : (n : Node V H) → IsTrie n → IsTrie (inlined n)
    inlined-IsTrie (node p v cs) h =
        (subst (Settled v) (sym (count-inlined cs)) h.0, inlined-AreTries 0 cs h.1)

    inlined-AreTries :
        (lo : ℕ) (cs : Children V H) → AreTries lo cs → AreTries lo (inlined_below cs)
    inlined-AreTries lo nil h = tt
    inlined-AreTries lo (cons j (mem_edge n hash) cs) h =
        (h.0, inlined-IsTrie n h.1, inlined-AreTries (suc j) cs h.2)

  after_same :
      (v : Option V) (cs cs' : Children V H)
      → ((i : ℕ) (t : List ℕ)
          → (get cs' i >>= λ e. lookup (read e) t) ≡ (get cs i >>= λ e. lookup (read e) t))
      → (t : List ℕ) → after v cs' t ≡ after v cs t
  after_same v cs cs' h [] = refl
  after_same v cs cs' h (i ∷ t) = h i t

  mutual
    unfolding inlined get

    inlined-Same : (n : Node V H) → Same n (inlined n)
    inlined-Same (node p v cs) key =
        lookup-node p v (inlined_below cs) key
        ∙ ap (◌>>=◌ (strip p key))
            (fun_ext (after_same v cs (inlined_below cs) (λ i t. inlined-child cs i t)))
        ∙ sym (lookup-node p v cs key)

    inlined-child :
        (cs : Children V H) (i : ℕ) (t : List ℕ)
        → (get (inlined_below cs) i >>= λ e. lookup (read e) t)
          ≡ (get cs i >>= λ e. lookup (read e) t)
    inlined-child nil i t = refl
    inlined-child (cons j (mem_edge n hash) cs) i t = elim (Bool-cases (j == i)) [
      | inl same ↦ rw same (inlined-Same n t)
      | inr other ↦ rw other (inlined-child cs i t)
    ]

  -- `materialize_subtree` of a trie that satisfies the structural invariant does not panic and does
  -- not run out of fuel. It leaves the node with every edge below it inline; this satisfies the
  -- invariant, and holds the same value for each key.
  pub materialize_subtree-inlined :
      (n : Node V H)
      → IsTrie n
      → (materialize_subtree n ≡ some (inlined n)) × IsTrie (inlined n) × Same n (inlined n)
  materialize_subtree-inlined n h =
      (materialize_subtree_lem n h, inlined-IsTrie n h, inlined-Same n)
