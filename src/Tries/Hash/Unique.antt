-- ===== src/Tries/Hash/Unique.antt =====
-- What a trie holds determines it, but for its seals: stated of `validate`, `get` and
-- `materialize_subtree`.
use arity_arrays.Common.{ℕ, ◌≡◌, refl, sym, ap, ap₂, ◌∙◌, Option, none, some, List}
use arity_arrays.Tries.Node.{Node, Children, node, mem_edge, nil, cons}
use arity_arrays.Tries.Lookups.{Same}
use arity_arrays.Tries.Ops.Read.{get_value}
use arity_arrays.Tries.Ops.Read.Laws.{get_value-lookup}
use arity_arrays.Tries.Ops.Subtree.{materialize_subtree}
use arity_arrays.Tries.Ops.Subtree.Laws.{inlined, inlined_below, materialize_subtree_lem}
use arity_arrays.Tries.Walk.Order.{IsOrdered}
use arity_arrays.Tries.Validate.{validate}
use arity_arrays.Tries.Validate.Laws.{validate-IsTrie}
use arity_arrays.Tries.Hash.Digests.{image, images}
use arity_arrays.Tries.Hash.Laws.{map_same}
use arity_arrays.Tries.Hash.Canonical.{canonical}

module _ {V H : Type 0} where
  mutual
    unfolding image inlined

    image-inlined : (n : Node V H) → image (λ (t : V). t) n ≡ inlined n
    image-inlined (node p v cs) = ap₂ (node p) (map_same v) (images-inlined cs)

    images-inlined : (cs : Children V H) → images (λ (t : V). t) cs ≡ inlined_below cs
    images-inlined nil = refl
    images-inlined (cons j (mem_edge n x) cs) =
        ap₂ (λ m ds. cons j (mem_edge m none) ds) (image-inlined n) (images-inlined cs)

  -- Two tries that `get` reads alike hold the same values.
  pub Same-get_value :
      (m n : Node V H) → ((k : List ℕ) → get_value (some m) k ≡ get_value (some n) k) → Same m n
  Same-get_value m n same k =
      let here = same k in
      let at_m = get_value-lookup (some m) k in
      let at_n = get_value-lookup (some n) k in some_inj (sym at_n ∙ sym here ∙ at_m)
    where
      some_inj : {a b : Option V} → some a ≡ some b → a ≡ b
      some_inj e = cc

  -- Two tries whose child maps ascend, as their type guarantees, that `validate` accepts, and that
  -- `get` reads alike at every key: `materialize_subtree`, which only unseals edges, returns the same
  -- trie for both.
  pub validated_alike :
      (m n : Node V H)
      → IsOrdered m
      → IsOrdered n
      → validate (some m) ≡ some none
      → validate (some n) ≡ some none
      → ((k : List ℕ) → get_value (some m) k ≡ get_value (some n) k)
      → (t : Node V H) × (materialize_subtree m ≡ some t) × (materialize_subtree n ≡ some t)
  validated_alike m n ordered_m ordered_n valid_m valid_n same =
      let is_m = (validate-IsTrie m ordered_m).0 valid_m in
      let is_n = (validate-IsTrie n ordered_n).0 valid_n in
      let alike = canonical m n is_m is_n (Same-get_value m n same) in
      (
        inlined m,
        materialize_subtree_lem m is_m,
        materialize_subtree_lem n is_n
            ∙ ap some (sym (image-inlined n) ∙ sym alike ∙ image-inlined m),
      )
