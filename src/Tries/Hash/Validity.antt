-- ===== src/Tries/Hash/Validity.antt =====
-- The hash-validity contract under a write of one edge, and the hashes that the walk reads from sealed
-- children.
use mathlib.Core.Option
use arity_arrays.Common.{
  ℕ, ◌≡◌, refl, true, false, Option, none, some, ◌==◌, List, [], ◌∷◌, ◌++◌, Bool-cases, inl, inr,
  ==_iff,
}
use arity_arrays.Tries.Node.{Node, Edge, Children, node, mem_edge, nil, cons, children, get, count}
use arity_arrays.Tries.Node.Maps.{IsAscending}
use arity_arrays.Tries.Hash.Scheme.{
  TrieHasher, put, any_inline, sealed_hashes, hash_sealed_node, input_of, updated, finish_node,
}
use arity_arrays.Tries.Hash.Digests.{
  digest, digests, IsExact, AreExact, is_unsettled, ExactWhenSealed, IsValid, IsValidEdge, AreValid,
}

module _ {V H : Type 0} (hasher : TrieHasher V H) where
  pub put-AreExact :
      (path : List ℕ) (c : ℕ) (cs : Children V H) (i : ℕ) (e : Edge V H)
      → AreExact hasher path c cs
      → IsExact hasher (path ++ (i ∷ [])) c e
      → AreExact hasher path c (put cs i e)
  unfolding put
  put-AreExact path c nil i e h is = tt
  put-AreExact path c (cons j d cs) i e h is = elim (Bool-cases (j == i)) [
    | inl same ↦ let eq = (==_iff j i).0 same in rw (same, eq) (is, h.1)
    | inr other ↦ rw other (h.0, put-AreExact path c cs i e h.1 is)
  ]

  pub put-AreValid :
      (path : List ℕ) (cs : Children V H) (i : ℕ) (e : Edge V H)
      → AreValid hasher path cs
      → IsValidEdge hasher (path ++ (i ∷ [])) e
      → AreValid hasher path (put cs i e)
  unfolding put IsValid
  put-AreValid path nil i e h is = tt
  put-AreValid path (cons j d cs) i e h is = elim (Bool-cases (j == i)) [
    | inl same ↦ let eq = (==_iff j i).0 same in rw (same, eq) (is, h.1)
    | inr other ↦ rw other (h.0, put-AreValid path cs i e h.1 is)
  ]

  pub get-IsValidEdge :
      (path : List ℕ) (cs : Children V H) (i : ℕ) (e : Edge V H)
      → AreValid hasher path cs
      → get cs i ≡ some e
      → IsValidEdge hasher (path ++ (i ∷ [])) e
  unfolding get IsValid
  get-IsValidEdge path nil i e h there = cc
  get-IsValidEdge path (cons j d cs) i e h there = elim (Bool-cases (j == i)) [
    | inl same ↦
        let found = rw same at there in let is : d ≡ e = cc in rw (← is, ← (==_iff j i).0 same) h.0
    | inr other ↦ get-IsValidEdge path cs i e h.1 (rw other at there)
  ]

  -- What a node with valid edges is, but for the exactness of its sealed children.
  pub valid_of :
      (leading p : List ℕ) (v : Option V) (cs : Children V H)
      → IsValid hasher leading (node p v cs)
      → IsAscending 0 cs
        × (is_unsettled hasher leading p cs ≡ false → AreExact hasher (leading ++ p) (count cs) cs)
        × AreValid hasher (leading ++ p) cs
  unfolding IsValid
  valid_of leading p v cs h = h

  pub IsValid-of :
      (leading p : List ℕ) (v : Option V) (cs : Children V H)
      → IsAscending 0 cs
      → AreExact hasher (leading ++ p) (count cs) cs
      → AreValid hasher (leading ++ p) cs
      → IsValid hasher leading (node p v cs)
  unfolding IsValid
  IsValid-of leading p v cs asc exact valid = (asc, λ settled. exact, valid)

  pub inline-IsValidEdge :
      (leading : List ℕ) (n : Node V H)
      → IsValid hasher leading n
      → IsValidEdge hasher leading (mem_edge n none)
  unfolding IsValid
  inline-IsValidEdge leading n h = h

  pub inline_parts :
      (leading : List ℕ) (n : Node V H)
      → IsValidEdge hasher leading (mem_edge n none)
      → IsValid hasher leading n
  unfolding IsValid
  inline_parts leading n h = h

  pub sealed-IsValidEdge :
      (leading : List ℕ) (n : Node V H) (h : H)
      → IsValid hasher leading n
      → ExactWhenSealed hasher leading n
      → IsValidEdge hasher leading (mem_edge n (some h))
  unfolding IsValid
  sealed-IsValidEdge leading n h is exact = (is, exact)

  pub sealed_parts :
      (leading : List ℕ) (n : Node V H) (h : H)
      → IsValidEdge hasher leading (mem_edge n (some h))
      → IsValid hasher leading n × ExactWhenSealed hasher leading n
  unfolding IsValid
  sealed_parts leading n h is = is

  pub sealed_hashes-digests :
      (path : List ℕ) (c : ℕ) (cs : Children V H)
      → any_inline cs ≡ false
      → AreExact hasher path c cs
      → sealed_hashes cs ≡ some (digests hasher path c cs)
  unfolding sealed_hashes any_inline digest
  sealed_hashes-digests path c nil all h = refl
  sealed_hashes-digests path c (cons j (mem_edge n none) cs) all h = cc
  sealed_hashes-digests path c (cons j (mem_edge n (some x)) cs) all h =
      rw (sealed_hashes-digests path c cs all h.1, h.0)

  pub hash_sealed_node-digest :
      (leading : List ℕ) (siblings : ℕ) (n : Node V H)
      → any_inline (children n) ≡ false
      → ExactWhenSealed hasher leading n
      → hash_sealed_node hasher n leading siblings ≡ some (some (digest hasher leading siblings n))
  unfolding hash_sealed_node input_of digest
  hash_sealed_node-digest leading siblings (node p v cs) all exact =
      rw (all, sealed_hashes-digests (leading ++ p) (count cs) cs all (exact all))

  pub hash_sealed_node-none :
      (leading : List ℕ) (siblings : ℕ) (n : Node V H)
      → any_inline (children n) ≡ true
      → hash_sealed_node hasher n leading siblings ≡ some none
  unfolding hash_sealed_node
  hash_sealed_node-none leading siblings n some_inline = rw some_inline

  -- The value of a node whose children are sealed, as the hasher rewrites it.
  abbrev pub rewritten : List ℕ → List ℕ → Children V H → Option V → Option V
  rewritten leading p cs v =
      Option.map (hasher.update_value leading p (digests hasher (leading ++ p) (count cs) cs)) v

  pub finish_node-digest :
      (leading p : List ℕ) (v : Option V) (cs : Children V H) (siblings : ℕ)
      → any_inline cs ≡ false
      → AreExact hasher (leading ++ p) (count cs) cs
      → let n' = node p (rewritten leading p cs v) cs in
        finish_node hasher (node p v cs) leading siblings
        ≡ some (n', digest hasher leading siblings n')
  unfolding finish_node updated input_of digest
  finish_node-digest leading p none cs siblings all exact =
      rw (sealed_hashes-digests (leading ++ p) (count cs) cs all exact)
  finish_node-digest leading p (some v) cs siblings all exact =
      rw (sealed_hashes-digests (leading ++ p) (count cs) cs all exact)
