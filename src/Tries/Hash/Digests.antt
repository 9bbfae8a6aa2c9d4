-- ===== src/Tries/Hash/Digests.antt =====
-- The hash of a trie as a recursive function of what it holds and of where it stands, which reads no
-- sealed hash; and the hash-validity contract of crates/arity-tries/src/node.rs.
use mathlib.Core.Option
use arity_arrays.Common.{ℕ, suc, ◌≡◌, Bool, false, none, some, ◌==◌, ◌&&◌, List, [], ◌∷◌, ◌++◌}
use arity_arrays.Tries.Node.{
  Node, Edge, Children, node, mem_edge, nil, cons, partial_path, children, count, inline,
}
use arity_arrays.Tries.Node.Maps.{IsAscending}
use arity_arrays.Tries.Hash.Scheme.{TrieHasher, any_inline}

module _ {V H : Type 0} where
  -- The indices of the inline children.
  abbrev pub inlines : Children V H → List ℕ
  inlines nil = []
  inlines (cons j (mem_edge n none) cs) = j ∷ inlines cs
  inlines (cons j (mem_edge n (some h)) cs) = inlines cs

  abbrev pub sealed_count : Children V H → ℕ
  sealed_count nil = 0
  sealed_count (cons j (mem_edge n none) cs) = sealed_count cs
  sealed_count (cons j (mem_edge n (some h)) cs) = suc (sealed_count cs)

module _ {V W H : Type 0} (view : V → W) where
  unfoldable mutual
    -- What a trie holds, without its seals and under a view of the values.
    pub image : Node V H → Node W H
    image (node p v cs) = node p (Option.map view v) (images cs)

    pub images : Children V H → Children W H
    images nil = nil
    images (cons j (mem_edge n hash) cs) = cons j (inline (image n)) (images cs)

module _ {V H : Type 0} (hasher : TrieHasher V H) where
  unfoldable mutual
    pub digest : List ℕ → ℕ → Node V H → H
    digest leading siblings (node p v cs) = hasher.hash_node (record {
      leading_path = leading;
      partial_path = p;
      value = v;
      siblings = siblings;
      children = digests (leading ++ p) (count cs) cs;
    })

    pub digests : List ℕ → ℕ → Children V H → List (ℕ × H)
    digests path siblings nil = []
    digests path siblings (cons j (mem_edge n hash) cs) =
        (j, digest (path ++ (j ∷ [])) siblings n) ∷ digests path siblings cs

  -- A sealed edge carries the hash of its node at this path, next to so many siblings.
  abbrev pub IsExact : List ℕ → ℕ → Edge V H → Type 0
  IsExact leading siblings (mem_edge n none) = Unit
  IsExact leading siblings (mem_edge n (some h)) = h ≡ digest leading siblings n

  abbrev pub AreExact : List ℕ → ℕ → Children V H → Type 0
  AreExact path siblings nil = Unit
  AreExact path siblings (cons j e cs) =
      IsExact (path ++ (j ∷ [])) siblings e × AreExact path siblings cs

  -- Nothing records in which form the hash of the only sealed child was taken.
  abbrev pub is_unsettled : List ℕ → List ℕ → Children V H → Bool
  is_unsettled leading p cs = (sealed_count cs == 1) && hasher.sibling_sensitive leading p

  -- The sealed children of a node whose children are all sealed.
  abbrev pub ExactWhenSealed : List ℕ → Node V H → Type 0
  ExactWhenSealed leading n =
      any_inline (children n) ≡ false
      → AreExact (leading ++ partial_path n) (count (children n)) (children n)

  unfoldable mutual
    -- The hash-validity contract of a node: each sealed edge below it carries the hash of its node
    -- where it stands, but for the only sealed child of a node that is sensitive to siblings. With
    -- it stands what the type of a child map guarantees, that its indices ascend.
    pub IsValid : List ℕ → Node V H → Type 0
    IsValid leading (node p v cs) =
        IsAscending 0 cs
        × (is_unsettled leading p cs ≡ false → AreExact (leading ++ p) (count cs) cs)
        × AreValid (leading ++ p) cs

    pub IsValidEdge : List ℕ → Edge V H → Type 0
    IsValidEdge leading (mem_edge n none) = IsValid leading n
    IsValidEdge leading (mem_edge n (some h)) = IsValid leading n × ExactWhenSealed leading n

    pub AreValid : List ℕ → Children V H → Type 0
    AreValid path nil = Unit
    AreValid path (cons j e cs) = IsValidEdge (path ++ (j ∷ [])) e × AreValid path cs
