-- ===== src/Tries/Hash/Contract.antt =====
-- What the hash-validity contract needs of a hasher, and that it survives a change of the children: a
-- child that becomes inline or leaves, and a node that moves to another partial path.
mod Ascents
use arity_arrays.Common.{
  ℕ, suc, ◌≤◌, ◌≡◌, refl, sym, ◌∙◌, ◌⊎◌, inl, inr, Bool, true, false, Option, none, some, ◌==◌, ltb,
  ◌&&◌, List, [], ◌∷◌, ◌++◌, arith, Bool-cases, ==_iff,
}
use arity_arrays.Tries.Node.{
  Node, Edge, Children, node, mem_edge, nil, cons, insert, remove, count, inline,
}
use arity_arrays.Tries.Node.Maps.{IsAscending}
use arity_arrays.Tries.Hash.Scheme.{TrieHasher, HashInput}
use arity_arrays.Tries.Hash.Digests.{
  sealed_count, digest, digests, AreExact, is_unsettled, IsValid, AreValid,
}
use arity_arrays.Tries.Hash.Validity.{valid_of}
use arity_arrays.Tries.Hash.Scans.{none-AreExact}
use arity_arrays.Tries.Hash.Contract.Ascents.{
  sealed-le, insert-IsAscending, sealed-insert, remove-IsAscending, sealed-remove,
}

-- What the documentation of the trait asks of a hasher: whether the children of a node depend on their
-- siblings is a matter of its full path, and where they do, then on being alone only.
pub record IsPositional {V H : Type 0} (hasher : TrieHasher V H) : Type 0 where
  pub by_path :
      (l p l' p' : List ℕ)
      → l ++ p ≡ l' ++ p'
      → hasher.sibling_sensitive l p ≡ hasher.sibling_sensitive l' p'
  pub alone_or_not :
      (l p : List ℕ) (i : ℕ) (x : HashInput V H) (s : ℕ)
      → x.leading_path ≡ (l ++ p) ++ (i ∷ [])
      → (hasher.sibling_sensitive l p ≡ false) ⊎ ((2 ≤ x.siblings) × (2 ≤ s))
      → hasher.hash_node (record x { siblings = s }) ≡ hasher.hash_node x

two_sealed : (n : ℕ) → (n == 0) ≡ false → (n == 1) && true ≡ false → 2 ≤ n
two_sealed n some_sealed settled = ground arith

and_false : (b : Bool) → b && false ≡ false
and_false true = refl
and_false false = refl

module _ {V H : Type 0} (hasher : TrieHasher V H) where
  insert-AreExact :
      (path : List ℕ) (c : ℕ) (cs : Children V H) (i : ℕ) (n : Node V H)
      → AreExact hasher path c cs
      → AreExact hasher path c (insert cs i (inline n))
  unfolding insert
  insert-AreExact path c nil i n h = (tt, tt)
  insert-AreExact path c (cons j d cs) i n h = elim (Bool-cases (j == i)) [
    | inl same ↦ rw same (tt, h.1)
    | inr other ↦ elim (Bool-cases (ltb i j)) [
      | inl less ↦ rw (other, less) (tt, h)
      | inr more ↦ rw (other, more) (h.0, insert-AreExact path c cs i n h.1)
    ]
  ]

  insert-AreValid :
      (path : List ℕ) (cs : Children V H) (i : ℕ) (n : Node V H)
      → AreValid hasher path cs
      → IsValid hasher (path ++ (i ∷ [])) n
      → AreValid hasher path (insert cs i (inline n))
  unfolding insert IsValid
  insert-AreValid path nil i n h is = (is, tt)
  insert-AreValid path (cons j d cs) i n h is = elim (Bool-cases (j == i)) [
    | inl same ↦ rw same (is, h.1)
    | inr other ↦ elim (Bool-cases (ltb i j)) [
      | inl less ↦ rw (other, less) (is, h)
      | inr more ↦ rw (other, more) (h.0, insert-AreValid path cs i n h.1 is)
    ]
  ]

  remove-AreExact :
      (path : List ℕ) (c : ℕ) (cs : Children V H) (i : ℕ)
      → AreExact hasher path c cs
      → AreExact hasher path c (remove cs i)
  unfolding remove
  remove-AreExact path c nil i h = tt
  remove-AreExact path c (cons j d cs) i h = elim (Bool-cases (j == i)) [
    | inl same ↦ rw same h.1
    | inr other ↦ rw other (h.0, remove-AreExact path c cs i h.1)
  ]

  remove-AreValid :
      (path : List ℕ) (cs : Children V H) (i : ℕ)
      → AreValid hasher path cs
      → AreValid hasher path (remove cs i)
  unfolding remove IsValid
  remove-AreValid path nil i h = tt
  remove-AreValid path (cons j d cs) i h = elim (Bool-cases (j == i)) [
    | inl same ↦ rw same h.1
    | inr other ↦ rw other (h.0, remove-AreValid path cs i h.1)
  ]

  module _ (positional : IsPositional hasher) where
    digest-siblings :
        (l p : List ℕ) (i c c' : ℕ) (n : Node V H)
        → (hasher.sibling_sensitive l p ≡ false) ⊎ ((2 ≤ c) × (2 ≤ c'))
        → digest hasher ((l ++ p) ++ (i ∷ [])) c n ≡ digest hasher ((l ++ p) ++ (i ∷ [])) c' n
    unfolding digest
    digest-siblings l p i c c' (node q v cs) free =
        let leading = (l ++ p) ++ (i ∷ []) in
        sym (
          positional.alone_or_not l p i
            (record {
              leading_path = leading;
              partial_path = q;
              value = v;
              siblings = c;
              children = digests hasher (leading ++ q) (count cs) cs;
            })
            c' refl free)

    recount :
        (l p : List ℕ) (c c' : ℕ) (cs : Children V H)
        → (hasher.sibling_sensitive l p ≡ false) ⊎ ((2 ≤ c) × (2 ≤ c'))
        → AreExact hasher (l ++ p) c cs
        → AreExact hasher (l ++ p) c' cs
    recount l p c c' nil free h = tt
    recount l p c c' (cons j (mem_edge n none) cs) free h = (tt, recount l p c c' cs free h.1)
    recount l p c c' (cons j (mem_edge n (some x)) cs) free h =
        (h.0 ∙ digest-siblings l p j c c' n free, recount l p c c' cs free h.1)

    exact_now :
        (l p : List ℕ) (cs cs' : Children V H)
        → (is_unsettled hasher l p cs ≡ false → AreExact hasher (l ++ p) (count cs) cs)
        → sealed_count cs' ≤ sealed_count cs
        → ((c : ℕ) → AreExact hasher (l ++ p) c cs → AreExact hasher (l ++ p) c cs')
        → is_unsettled hasher l p cs' ≡ false
        → AreExact hasher (l ++ p) (count cs') cs'
    exact_now l p cs cs' before fewer exact settled =
        elim (Bool-cases (hasher.sibling_sensitive l p)) [
          | inl sensitive ↦ elim (Bool-cases (sealed_count cs' == 0)) [
            | inl none_sealed ↦
                none-AreExact hasher (l ++ p) (count cs') cs'
                  ((==_iff (sealed_count cs') 0).0 none_sealed)
            | inr some_sealed ↦
                let more : 2 ≤ sealed_count cs' =
                  two_sealed (sealed_count cs') some_sealed (rw sensitive at settled) in
                let not_one : (sealed_count cs == 1) ≡ false = ground arith in
                let enough : (2 ≤ count cs) × (2 ≤ count cs') =
                  (omega (arith, sealed-le cs), omega (arith, sealed-le cs')) in
                recount l p (count cs) (count cs') cs' (inr enough)
                  (exact (count cs) (before (rw not_one)))
          ]
          | inr calm ↦
              recount l p (count cs) (count cs') cs' (inl calm)
                (exact (count cs) (before (rw calm (and_false (sealed_count cs == 1)))))
        ]

    -- The children change, and no more of them are sealed than before.
    pub change-IsValid :
        (l p : List ℕ) (v v' : Option V) (cs cs' : Children V H)
        → IsValid hasher l (node p v cs)
        → IsAscending 0 cs'
        → AreValid hasher (l ++ p) cs'
        → sealed_count cs' ≤ sealed_count cs
        → ((c : ℕ) → AreExact hasher (l ++ p) c cs → AreExact hasher (l ++ p) c cs')
        → IsValid hasher l (node p v' cs')
    unfolding IsValid
    change-IsValid l p v v' cs cs' h asc valid fewer exact =
        (asc, exact_now l p cs cs' h.1 fewer exact, valid)

    pub insert-IsValid :
        (l p : List ℕ) (v : Option V) (cs : Children V H) (i : ℕ) (n : Node V H)
        → IsValid hasher l (node p v cs)
        → IsValid hasher ((l ++ p) ++ (i ∷ [])) n
        → IsValid hasher l (node p v (insert cs i (inline n)))
    insert-IsValid l p v cs i n h is =
        let (asc, exact, valid) = valid_of hasher l p v cs h in
        change-IsValid l p v v cs (insert cs i (inline n)) h
          (insert-IsAscending 0 cs i (inline n) (omega arith) asc)
          (insert-AreValid (l ++ p) cs i n valid is) (sealed-insert cs i n)
          (λ c. insert-AreExact (l ++ p) c cs i n)

    pub remove-IsValid :
        (l p : List ℕ) (v : Option V) (cs : Children V H) (i : ℕ)
        → IsValid hasher l (node p v cs)
        → IsValid hasher l (node p v (remove cs i))
    remove-IsValid l p v cs i h =
        let (asc, exact, valid) = valid_of hasher l p v cs h in
        change-IsValid l p v v cs (remove cs i) h (remove-IsAscending 0 cs i asc)
          (remove-AreValid (l ++ p) cs i valid) (sealed-remove cs i)
          (λ c. remove-AreExact (l ++ p) c cs i)

    pub value-IsValid :
        (l p : List ℕ) (v v' : Option V) (cs : Children V H)
        → IsValid hasher l (node p v cs)
        → IsValid hasher l (node p v' cs)
    value-IsValid l p v v' cs h =
        let (asc, exact, valid) = valid_of hasher l p v cs h in
        change-IsValid l p v v' cs cs h asc valid (omega arith) (λ c exact. exact)

    -- A node at another partial path, with the same full path.
    pub moved-IsValid :
        (l p l' p' : List ℕ) (v : Option V) (cs : Children V H)
        → l ++ p ≡ l' ++ p'
        → IsValid hasher l (node p v cs)
        → IsValid hasher l' (node p' v cs)
    unfolding IsValid
    moved-IsValid l p l' p' v cs same h = (
      h.0,
      λ settled. rw (← same) (h.1 (rw (positional.by_path l p l' p' same) settled)),
      rw (← same) h.2,
    )
