-- ===== src/Tries/Hash/Children.antt =====
-- Child maps with sealed and inline edges: what a write of one edge does to their counts, their order,
-- the indices of their inline edges, and what they hold.
use arity_arrays.Common.{
  ℕ, suc, ◌+◌, ◌≤◌, ◌≡◌, refl, sym, ap, ◌∙◌, false, Option, none, some, ◌==◌, List, [], ◌∷◌, arith,
  Bool-cases, inl, inr, ==_iff, cons_inj,
}
use arity_arrays.Tries.Node.{Node, Edge, Children, node, mem_edge, nil, cons, get, count}
use arity_arrays.Tries.Node.Maps.{IsAscending}
use arity_arrays.Tries.Ops.Subtree.{rounds, rounds_below}
use arity_arrays.Tries.Hash.Scheme.{put, any_inline}
use arity_arrays.Tries.Hash.Digests.{inlines, image, images}

module _ {V H : Type 0} where
  pub count-put : (cs : Children V H) (i : ℕ) (e : Edge V H) → count (put cs i e) ≡ count cs
  unfolding count put
  count-put nil i e = refl
  count-put (cons j d cs) i e = ground (arith, count-put cs i e)

  pub put-IsAscending :
      (lo : ℕ) (cs : Children V H) (i : ℕ) (e : Edge V H)
      → IsAscending lo cs
      → IsAscending lo (put cs i e)
  unfolding put
  put-IsAscending lo nil i e h = tt
  put-IsAscending lo (cons j d cs) i e h = elim (Bool-cases (j == i)) [
    | inl same ↦ rw same h
    | inr other ↦ rw other (h.0, put-IsAscending (suc j) cs i e h.1)
  ]

  -- The first inline child.
  pub record Next (cs : Children V H) (i : ℕ) : Type 0 where
    pub tail : List ℕ
    pub held : Option V
    pub below : Children V H
    pub there : get cs i ≡ some (mem_edge (node tail held below) none)

  inlines-le :
      (lo : ℕ) (cs : Children V H) (i : ℕ) (rest : List ℕ)
      → IsAscending lo cs
      → inlines cs ≡ i ∷ rest
      → lo ≤ i
  inlines-le lo nil i rest h e = cc
  inlines-le lo (cons j (mem_edge n none) cs) i rest h e =
      let (same, others) = cons_inj e in let first = h.0 in omega arith
  inlines-le lo (cons j (mem_edge n (some x)) cs) i rest h e =
      let le = inlines-le (suc j) cs i rest h.1 e in let first = h.0 in omega arith

  pub first_inline :
      (lo : ℕ) (cs : Children V H) (i : ℕ) (rest : List ℕ)
      → IsAscending lo cs
      → inlines cs ≡ i ∷ rest
      → Next cs i
  unfolding get
  first_inline lo nil i rest h e = cc
  first_inline lo (cons j (mem_edge (node q w ds) none) cs) i rest h e = record {
    tail = q;
    held = w;
    below = ds;
    there = rw ((==_iff j i).1 (cons_inj e).0);
  }
  first_inline lo (cons j (mem_edge n (some x)) cs) i rest h e =
      let later = first_inline (suc j) cs i rest h.1 e in
      let le = inlines-le (suc j) cs i rest h.1 e in
      let other : (j == i) ≡ false = ground arith in
      record {
        tail = later.tail;
        held = later.held;
        below = later.below;
        there = rw other later.there;
      }

  pub inlines-put_sealed :
      (lo : ℕ) (cs : Children V H) (i : ℕ) (rest : List ℕ) (n : Node V H) (h : H)
      → IsAscending lo cs
      → inlines cs ≡ i ∷ rest
      → inlines (put cs i (mem_edge n (some h))) ≡ rest
  unfolding put
  inlines-put_sealed lo nil i rest n h asc e = cc
  inlines-put_sealed lo (cons j (mem_edge m none) cs) i rest n h asc e =
      let (same, others) = cons_inj e in rw ((==_iff j i).1 same) others
  inlines-put_sealed lo (cons j (mem_edge m (some x)) cs) i rest n h asc e =
      let le = inlines-le (suc j) cs i rest asc.1 e in
      let other : (j == i) ≡ false = ground arith in
      rw other (inlines-put_sealed (suc j) cs i rest n h asc.1 e)

  pub inlines-put_resealed :
      (cs : Children V H) (i : ℕ) (m n : Node V H) (x h : H)
      → get cs i ≡ some (mem_edge m (some x))
      → inlines (put cs i (mem_edge n (some h))) ≡ inlines cs
  unfolding get put
  inlines-put_resealed nil i m n x h there = refl
  inlines-put_resealed (cons j (mem_edge k none) cs) i m n x h there = elim (Bool-cases (j == i)) [
    | inl same ↦ let found = rw same at there in cc
    | inr other ↦ rw other (ap (◌∷◌ j) (inlines-put_resealed cs i m n x h (rw other at there)))
  ]
  inlines-put_resealed (cons j (mem_edge k (some y)) cs) i m n x h there =
      elim (Bool-cases (j == i)) [
        | inl same ↦ rw same
        | inr other ↦ rw other (inlines-put_resealed cs i m n x h (rw other at there))
      ]

  pub inlines-nil : (cs : Children V H) → inlines cs ≡ [] → any_inline cs ≡ false
  unfolding any_inline
  inlines-nil nil e = refl
  inlines-nil (cons j (mem_edge n none) cs) e = cc
  inlines-nil (cons j (mem_edge n (some h)) cs) e = inlines-nil cs e

  pub inlines-nil_inv : (cs : Children V H) → any_inline cs ≡ false → inlines cs ≡ []
  unfolding any_inline
  inlines-nil_inv nil e = refl
  inlines-nil_inv (cons j (mem_edge n none) cs) e = cc
  inlines-nil_inv (cons j (mem_edge n (some h)) cs) e = inlines-nil_inv cs e

  -- The rounds that the walk still needs for the inline children.
  abbrev pub load : Children V H → ℕ
  load nil = 0
  load (cons j (mem_edge n none) cs) = suc (rounds n + load cs)
  load (cons j (mem_edge n (some h)) cs) = load cs

  -- The same, after the first of them.
  abbrev pub rest_load : Children V H → ℕ
  rest_load nil = 0
  rest_load (cons j (mem_edge n none) cs) = load cs
  rest_load (cons j (mem_edge n (some h)) cs) = rest_load cs

  pub load-le : (cs : Children V H) → load cs ≤ rounds_below cs
  unfolding rounds
  load-le nil = omega arith
  load-le (cons j (mem_edge n none) cs) = omega (arith, load-le cs)
  load-le (cons j (mem_edge n (some h)) cs) = omega (arith, load-le cs)

  pub load-next :
      (lo : ℕ) (cs : Children V H) (i : ℕ) (rest : List ℕ) (n : Node V H)
      → IsAscending lo cs
      → inlines cs ≡ i ∷ rest
      → get cs i ≡ some (mem_edge n none)
      → load cs ≡ suc (rounds n + rest_load cs)
  unfolding get
  load-next lo nil i rest n h e there = cc
  load-next lo (cons j (mem_edge m none) cs) i rest n h e there =
      let found = rw ((==_iff j i).1 (cons_inj e).0) at there in let is : m ≡ n = cc in rw is
  load-next lo (cons j (mem_edge m (some x)) cs) i rest n h e there =
      let le = inlines-le (suc j) cs i rest h.1 e in
      let other : (j == i) ≡ false = ground arith in
      load-next (suc j) cs i rest n h.1 e (rw other at there)

  pub load-put_sealed :
      (lo : ℕ) (cs : Children V H) (i : ℕ) (rest : List ℕ) (n : Node V H) (h : H)
      → IsAscending lo cs
      → inlines cs ≡ i ∷ rest
      → load (put cs i (mem_edge n (some h))) ≡ rest_load cs
  unfolding put
  load-put_sealed lo nil i rest n h asc e = cc
  load-put_sealed lo (cons j (mem_edge m none) cs) i rest n h asc e =
      rw ((==_iff j i).1 (cons_inj e).0)
  load-put_sealed lo (cons j (mem_edge m (some x)) cs) i rest n h asc e =
      let le = inlines-le (suc j) cs i rest asc.1 e in
      let other : (j == i) ≡ false = ground arith in
      rw other (load-put_sealed (suc j) cs i rest n h asc.1 e)

  pub rounds-put :
      (cs : Children V H) (i : ℕ) (n : Node V H) (x y : Option H)
      → get cs i ≡ some (mem_edge n x)
      → rounds_below (put cs i (mem_edge n y)) ≡ rounds_below cs
  unfolding get put rounds
  rounds-put nil i n x y there = refl
  rounds-put (cons j (mem_edge m z) cs) i n x y there = elim (Bool-cases (j == i)) [
    | inl same ↦ let found = rw same at there in let is : m ≡ n = cc in rw (same, is)
    | inr other ↦
        rw other (ap (λ (k : ℕ). suc (rounds m + k)) (rounds-put cs i n x y (rw other at there)))
  ]

module _ {V W H : Type 0} (view : V → W) where
  pub images-put :
      (cs : Children V H) (i : ℕ) (m n : Node V H) (x y : Option H)
      → get cs i ≡ some (mem_edge m x)
      → image view n ≡ image view m
      → images view (put cs i (mem_edge n y)) ≡ images view cs
  unfolding get put image
  images-put nil i m n x y there e = refl
  images-put (cons j (mem_edge k z) cs) i m n x y there e = elim (Bool-cases (j == i)) [
    | inl same ↦
        let found = rw same at there in
        let is : k ≡ m = cc in
        rw same (ap (λ t. cons j (mem_edge t none) (images view cs)) (e ∙ sym (ap (image view) is)))
    | inr other ↦
        rw other (
          ap (cons j (mem_edge (image view k) none))
            (images-put cs i m n x y (rw other at there) e))
  ]
