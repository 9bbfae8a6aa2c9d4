-- ===== src/Tries/Hash/Canonical.antt =====
-- Two tries that satisfy the structural invariant and hold the same values are the same, but for their
-- seals: the partial paths and the children are forced.
mod Holders
use arity_arrays.Common.{
  ℕ, suc, ◌<◌, ◌≡◌, refl, sym, ap, ap₂, ◌∙◌, false, Option, none, some, ◌==◌, ltb, ◌>>=◌, List, [],
  ◌∷◌, ◌++◌, arith, Bool-cases, inl, inr, ==_iff,
}
use arity_arrays.Tries.Paths.Laws.{strip, strip_self}
use arity_arrays.Tries.Node.{Node, Edge, Children, node, mem_edge, nil, cons, get, read, count}
use arity_arrays.Tries.Node.Maps.{get-below}
use arity_arrays.Tries.Lookups.{lookup, lookup-node, after, Same}
use arity_arrays.Tries.Structure.{IsTrie, AreTries, parts_of, tries_of, ascending, nil-AreTries}
use arity_arrays.Tries.Hash.Digests.{image, images}
use arity_arrays.Tries.Hash.Canonical.Holders.{
  Avoids, same_path, Holder, first_child, later_child, holder, avoid,
}

module _ {V H : Type 0} where
  -- What a map of children finds for an index and the rest of a key.
  abbrev find : Children V H → ℕ → List ℕ → Option V
  find cs i t = get cs i >>= λ e. lookup (read e) t

  find-first :
      (j : ℕ) (n : Node V H) (x : Option H) (cs : Children V H) (t : List ℕ)
      → find (cons j (mem_edge n x) cs) j t ≡ lookup n t
  find-first j n x cs t = rw (first_child j (mem_edge n x) cs)

  find-below :
      (lo : ℕ) (cs : Children V H) (i : ℕ) (t : List ℕ)
      → AreTries lo cs
      → i < lo
      → find cs i t ≡ none
  find-below lo cs i t h less = rw (get-below lo cs i (ascending lo cs h) less)

  -- An index that only one of two maps has.
  extra :
      (j : ℕ) (n : Node V H) (x : Option H) (cs ds : Children V H)
      → IsTrie n
      → ((t : List ℕ) → find ds j t ≡ none)
      → ¬ ((i : ℕ) (t : List ℕ) → find (cons j (mem_edge n x) cs) i t ≡ find ds i t)
  extra j n x cs ds is missing same =
      let held = holder n is in
      let here = sym (find-first j n x cs held.key) ∙ same j held.key ∙ missing held.key in
      let found = held.finds in absurd cc

  missing :
      (i j : ℕ) (e : Edge V H) (ds : Children V H)
      → AreTries (suc j) ds
      → i < j
      → (t : List ℕ) → find (cons j e ds) i t ≡ none
  missing i j e ds h less t =
      ap (λ o. o >>= λ e. lookup (read e) t) (later_child j i e ds (ground arith))
      ∙ find-below (suc j) ds i t h (omega arith)

  -- The maps without their first indices, which are the same.
  tails :
      (j : ℕ) (d e : Edge V H) (cs ds : Children V H)
      → AreTries (suc j) cs
      → AreTries (suc j) ds
      → ((i : ℕ) (t : List ℕ) → find (cons j d cs) i t ≡ find (cons j e ds) i t)
      → (i : ℕ) (t : List ℕ) → find cs i t ≡ find ds i t
  tails j d e cs ds h k same i t = elim (Bool-cases (j == i)) [
    | inl eq ↦
        let is = (==_iff j i).0 eq in
        find-below (suc j) cs i t h (omega arith) ∙ sym (find-below (suc j) ds i t k (omega arith))
    | inr other ↦
        ap (λ o. o >>= λ e. lookup (read e) t) (sym (later_child j i d cs other))
        ∙ same i t
        ∙ ap (λ o. o >>= λ e. lookup (read e) t) (later_child j i e ds other)
  ]

  node_of :
      (p q : List ℕ) (v w : Option V) (cs ds : Children V H)
      → p ≡ q
      → v ≡ w
      → images (λ (t : V). t) cs ≡ images (λ (t : V). t) ds
      → image (λ (t : V). t) (node p v cs) ≡ image (λ (t : V). t) (node q w ds)
  unfolding image
  node_of p q v w cs ds a b c = rw (a, b, c)

  cons_of :
      (j k : ℕ) (m n : Node V H) (x y : Option H) (cs ds : Children V H)
      → j ≡ k
      → image (λ (t : V). t) m ≡ image (λ (t : V). t) n
      → images (λ (t : V). t) cs ≡ images (λ (t : V). t) ds
      → images (λ (t : V). t) (cons j (mem_edge m x) cs)
        ≡ images (λ (t : V). t) (cons k (mem_edge n y) ds)
  unfolding image
  cons_of j k m n x y cs ds a b c = rw (a, b, c)

  mutual
    node_alike :
        (m n : Node V H)
        → IsTrie m
        → IsTrie n
        → Same m n
        → image (λ (t : V). t) m ≡ image (λ (t : V). t) n
    node_alike (node p v cs) (node q w ds) is_m is_n same =
        let (paths, rests) =
          same_path p q (after v cs) (after w ds) (λ y. avoid y p v cs is_m)
            (λ y. avoid y q w ds is_n)
            (λ k. sym (lookup-node p v cs k) ∙ sym (same k) ∙ lookup-node q w ds k) in
        node_of p q v w cs ds paths (rests []) (
          children_alike 0 cs ds (parts_of p v cs is_m).1 (parts_of q w ds is_n).1
            (λ i t. rests (i ∷ t)))

    children_alike :
        (lo : ℕ) (cs ds : Children V H)
        → AreTries lo cs
        → AreTries lo ds
        → ((i : ℕ) (t : List ℕ) → find cs i t ≡ find ds i t)
        → images (λ (t : V). t) cs ≡ images (λ (t : V). t) ds
    children_alike lo nil nil h k same = refl
    children_alike lo nil (cons j (mem_edge n y) ds) h k same = absurd (
        extra j n y ds nil (tries_of lo j n y ds k).1
          (λ t. find-below (suc j) nil j t (nil-AreTries V H (suc j)) (omega arith))
          (λ i t. sym (same i t)))
    children_alike lo (cons j (mem_edge m x) cs) nil h k same = absurd (
        extra j m x cs nil (tries_of lo j m x cs h).1
          (λ t. find-below (suc j) nil j t (nil-AreTries V H (suc j)) (omega arith)) same)
    children_alike lo (cons i (mem_edge m x) cs) (cons j (mem_edge n y) ds) h k same =
        let (le, is_m, rest_h) = tries_of lo i m x cs h in
        let (le', is_n, rest_k) = tries_of lo j n y ds k in
        elim (Bool-cases (i == j)) [
          | inl eq ↦
              let is = (==_iff i j).0 eq in
              let rest_k' = rw (← is) at rest_k in
              let same' : (a : ℕ) (t : List ℕ)
                  → find (cons i (mem_edge m x) cs) a t ≡ find (cons i (mem_edge n y) ds) a t =
                λ a t. same a t ∙ ap (λ z. find (cons z (mem_edge n y) ds) a t) (sym is) in
              cons_of i j m n x y cs ds is
                (node_alike m n is_m is_n
                  (λ t. sym (find-first i n y ds t) ∙ sym (same' i t) ∙ find-first i m x cs t))
                (children_alike (suc i) cs ds rest_h rest_k'
                  (tails i (mem_edge m x) (mem_edge n y) cs ds rest_h rest_k' same'))
          | inr other ↦ elim (Bool-cases (ltb i j)) [
            | inl less ↦ absurd (
                extra i m x cs (cons j (mem_edge n y) ds) is_m
                  (missing i j (mem_edge n y) ds rest_k (ground arith)) same)
            | inr more ↦ absurd (
                extra j n y ds (cons i (mem_edge m x) cs) is_n
                  (missing j i (mem_edge m x) cs rest_h (ground arith)) (λ a t. sym (same a t)))
          ]
        ]

  -- Two tries that satisfy the structural invariant and hold the same value for each key are the same,
  -- but for their seals.
  pub canonical :
      (m n : Node V H)
      → IsTrie m
      → IsTrie n
      → Same m n
      → image (λ (t : V). t) m ≡ image (λ (t : V). t) n
  canonical m n is_m is_n same = node_alike m n is_m is_n same
