-- ===== src/Tries/Hash/Histories.antt =====
-- Tries that insertions, removals of keys and of prefixes, materializations and hash walks have made, in
-- any order, with walks that may fail.
use arity_arrays.Common.{ℕ, suc, ◌≡◌, sym, subst, Option, none, some, List, []}
use arity_arrays.Tries.Node.{Node, Children, node, mem_edge, nil, cons}
use arity_arrays.Tries.Structure.{IsTrie, AreTries, Settled, IsRoot}
use arity_arrays.Tries.Ops.Read.{get_value}
use arity_arrays.Tries.Ops.Insert.{insert_value}
use arity_arrays.Tries.Ops.Insert.Structure.{insert_value-IsTrie}
use arity_arrays.Tries.Ops.Remove.{remove_value}
use arity_arrays.Tries.Ops.Remove.Lookups.{remove_value-IsRoot}
use arity_arrays.Tries.Ops.Prefix.{remove_prefix}
use arity_arrays.Tries.Ops.Prefix.Laws.{get_value-remove_prefix}
use arity_arrays.Tries.Ops.Subtree.{materialize_subtree}
use arity_arrays.Tries.Ops.Subtree.Laws.{inlined}
use arity_arrays.Tries.Ops.Subtree.Inlined.{materialize_subtree-inlined}
use arity_arrays.Tries.Store.{Outcome, ok, err, Store}
use arity_arrays.Tries.Hash.{hash}
use arity_arrays.Tries.Hash.Scheme.{TrieHasher}
use arity_arrays.Tries.Hash.Digests.{image, images, digest, IsValid}
use arity_arrays.Tries.Hash.Contract.{IsPositional}
use arity_arrays.Tries.Hash.Insertion.{IsValidRoot, insert_value-IsValid}
use arity_arrays.Tries.Hash.Removal.{remove_value-IsValid}
use arity_arrays.Tries.Hash.Prefixes.{inlined-IsValid, remove_prefix-IsValid}
use arity_arrays.Tries.Hash.Laws.{
  Keeps, count-images, hash-Hashes, HashedAs, hash-digest, digest_same,
}
use arity_arrays.Tries.Hash.Canonical.{canonical}
use arity_arrays.Tries.Hash.Unique.{Same-get_value}
use arity_arrays.Tries.Hash.Results.{IsSound}

-- What the operations make of the empty trie, one after the other.
pub data Reached {V H S E : Type 0} (hasher : TrieHasher V H) (store : Store S E)
    : Option (Node V H) → Type 0 where
  empty : Reached hasher store none
  inserted :
      (root : Option (Node V H)) (key : List ℕ) (w : V) (root' : Node V H) (old : Option V)
      → Reached hasher store root
      → insert_value root key w ≡ some (root', old)
      → Reached hasher store (some root')
  removed :
      (root : Option (Node V H)) (key : List ℕ) (root' : Option (Node V H)) (old : Option V)
      → Reached hasher store root
      → remove_value root key ≡ some (root', old)
      → Reached hasher store root'
  pruned :
      (root : Option (Node V H)) (prefix : List ℕ) (root' : Option (Node V H))
      → Reached hasher store root
      → remove_prefix root prefix ≡ some root'
      → Reached hasher store root'
  materialized :
      (root root' : Node V H)
      → Reached hasher store (some root)
      → materialize_subtree root ≡ some root'
      → Reached hasher store (some root')
  hashed :
      (root : Node V H) (s s' : S) (root' : Node V H) (outcome : Outcome E H)
      → Reached hasher store (some root)
      → hash hasher store s root ≡ some (s', root', outcome)
      → Reached hasher store (some root')

module _ {V H : Type 0} where
  mutual
    unfolding IsTrie image

    image-IsTrie : (n : Node V H) → IsTrie n → IsTrie (image (λ (t : V). t) n)
    image-IsTrie (node p none cs) h =
        (subst (Settled {V = V} none) (sym (count-images cs)) h.0, images-AreTries 0 cs h.1)
    image-IsTrie (node p (some v) cs) h = (tt, images-AreTries 0 cs h.1)

    images-AreTries :
        (lo : ℕ) (cs : Children V H) → AreTries lo cs → AreTries lo (images (λ (t : V). t) cs)
    images-AreTries lo nil h = tt
    images-AreTries lo (cons j (mem_edge n x) cs) h =
        (h.0, image-IsTrie n h.1, images-AreTries (suc j) cs h.2)

  mutual
    unfolding IsTrie image

    image-IsTrie_inv : (n : Node V H) → IsTrie (image (λ (t : V). t) n) → IsTrie n
    image-IsTrie_inv (node p none cs) h =
        (subst (Settled {V = V} none) (count-images cs) h.0, images-AreTries_inv 0 cs h.1)
    image-IsTrie_inv (node p (some v) cs) h = (tt, images-AreTries_inv 0 cs h.1)

    images-AreTries_inv :
        (lo : ℕ) (cs : Children V H) → AreTries lo (images (λ (t : V). t) cs) → AreTries lo cs
    images-AreTries_inv lo nil h = tt
    images-AreTries_inv lo (cons j (mem_edge n x) cs) h =
        (h.0, image-IsTrie_inv n h.1, images-AreTries_inv (suc j) cs h.2)

  same-IsTrie :
      (m n : Node V H) → image (λ (t : V). t) n ≡ image (λ (t : V). t) m → IsTrie m → IsTrie n
  same-IsTrie m n e h = image-IsTrie_inv n (rw e (image-IsTrie m h))

module _ {V H S E : Type 0} (hasher : TrieHasher V H) (store : Store S E) (keeps : Keeps hasher)
    (positional : IsPositional hasher) where
  -- What all tries that are reached have in common.
  abbrev IsSettled : Option (Node V H) → Type 0
  IsSettled root = IsRoot root × IsValidRoot hasher root

  sound-IsValid :
      (n : Node V H) (outcome : Outcome E H)
      → IsSound (λ (t : V). t) hasher store n outcome
      → IsValid hasher [] n
  sound-IsValid n (ok h) sound = sound.0
  sound-IsValid n (err e) sound = sound

  pub Reached-IsSettled : (root : Option (Node V H)) → Reached hasher store root → IsSettled root
  Reached-IsSettled _ empty = (tt, tt)
  Reached-IsSettled _ (inserted root key w root' old r e) =
      let (is, valid) = Reached-IsSettled root r in
      let (n, o, run, trie) = insert_value-IsTrie root key w is in
      let (n2, o2, run2, valid2) = insert_value-IsValid hasher positional root key w valid in
      let same : n ≡ root' = cc in
      let same2 : n2 ≡ root' = cc in
      (subst IsTrie same trie, subst (IsValid hasher []) same2 valid2)
  Reached-IsSettled _ (removed root key root' old r e) =
      let (is, valid) = Reached-IsSettled root r in
      let (n, o, run, trie) = remove_value-IsRoot root key is in
      let same : n ≡ root' = cc in
      let left = remove_value-IsValid hasher positional root key valid in
      (subst IsRoot same trie, rw e at left)
  Reached-IsSettled _ (pruned root prefix root' r e) =
      let (is, valid) = Reached-IsSettled root r in
      let (n, run, reads, trie) = get_value-remove_prefix root prefix is in
      let same : n ≡ root' = cc in
      let left = remove_prefix-IsValid hasher positional root prefix is valid in
      (subst IsRoot same trie, rw e at left)
  Reached-IsSettled _ (materialized root root' r e) =
      let (is, valid) = Reached-IsSettled (some root) r in
      let (run, trie, alike) = materialize_subtree-inlined root is in
      let same : inlined root ≡ root' = cc in
      (
        subst IsTrie same trie,
        subst (IsValid hasher []) same (inlined-IsValid hasher [] root valid),
      )
  Reached-IsSettled _ (hashed root s s' root' outcome r e) =
      let (is, valid) = Reached-IsSettled (some root) r in
      let done = hash-Hashes (λ (t : V). t) hasher store s root keeps valid in
      let runs = done.returns in
      let same : done.root ≡ root' = cc in
      (
        subst IsTrie same (same-IsTrie root done.root done.same is),
        subst (IsValid hasher []) same (sound-IsValid done.root done.outcome done.sound),
      )

  -- Two tries that insertions, removals of keys and of prefixes, materializations of the whole trie and
  -- hash walks have made of the empty trie, in any order, with hash walks over any store, where walks
  -- may have failed, and that `get` reads alike at every key: `hash` over the in-memory store returns
  -- the same hash for both, the one computed anew from what the tries hold. The hasher never rewrites a
  -- value, and depends on siblings as its trait documents.
  pub hash-get_value :
      (m n : Node V H)
      → Reached hasher store (some m)
      → Reached hasher store (some n)
      → ((k : List ℕ) → get_value (some m) k ≡ get_value (some n) k)
      → HashedAs hasher m (digest hasher [] 0 m) × HashedAs hasher n (digest hasher [] 0 m)
  hash-get_value m n reached_m reached_n same =
      let settled_m = Reached-IsSettled (some m) reached_m in
      let settled_n = Reached-IsSettled (some n) reached_n in
      let alike = canonical m n settled_m.0 settled_n.0 (Same-get_value m n same) in
      (
        hash-digest hasher m keeps settled_m.1,
        rw (digest_same hasher m n alike) (hash-digest hasher n keeps settled_n.1),
      )
