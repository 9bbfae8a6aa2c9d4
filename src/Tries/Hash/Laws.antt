-- ===== src/Tries/Hash/Laws.antt =====
-- The hash walk over any store and any hasher, and what a failed walk leaves for the next one.
use mathlib.Core.Option
use arity_arrays.Common.{
  ℕ, suc, ◌+◌, ◌≤◌, ◌≡◌, refl, sym, ap, ◌∙◌, inl, inr, Option, none, some, List, [], ◌∷◌, ◌++◌,
  arith,
}
use arity_arrays.Tries.Node.{Node, Children, node, mem_edge, nil, cons, count}
use arity_arrays.Tries.Ops.Subtree.{rounds, rounds_below}
use arity_arrays.Tries.Store.{Outcome, ok, err, Store, in_memory}
use arity_arrays.Tries.Hash.{hash}
use arity_arrays.Tries.Hash.Scheme.{TrieHasher}
use arity_arrays.Tries.Hash.Digests.{image, images, digest, digests, IsValid}
use arity_arrays.Tries.Hash.Children.{load, load-le}
use arity_arrays.Tries.Hash.Preparation.{prepare_lem}
use arity_arrays.Tries.Hash.Stacks.{image_of}
use arity_arrays.Tries.Hash.Results.{IsSound, Hashes, settled-Ready}
use arity_arrays.Tries.Hash.Loop.{loop_lem}

module _ {V H : Type 0} where
  rounds-below :
      (p : List ℕ) (v : Option V) (cs cs' : Children V H)
      → rounds_below cs' ≡ rounds_below cs
      → suc (load cs') + 0 ≤ rounds (node p v cs)
  unfolding rounds
  rounds-below p v cs cs' same = omega (arith, load-le cs')

module _ {V W H S E : Type 0} (view : V → W) (hasher : TrieHasher V H) (store : Store S E) where
  -- `hash` of a trie that keeps the hash-validity contract, over any store, and with a hasher that
  -- rewrites only what a view of the values does not show: it does not panic and does not run out of
  -- fuel. The trie that it leaves keeps the contract, and is the same under the view: the paths, the
  -- indices and what the view shows of each value. Where it returns a hash, this is the digest of
  -- that trie, and each child of the root is sealed with its own digest.
  pub hash-Hashes :
      (s : S) (root : Node V H)
      → ((leading p : List ℕ) (hashes : List (ℕ × H)) (v : V)
          → view (hasher.update_value leading p hashes v) ≡ view v)
      → IsValid hasher [] root
      → Hashes view hasher store (image view root) (hash hasher store s root)
  unfolding hash
  hash-Hashes s (node p v cs) kept is = elim (prepare_lem view hasher store [] p v cs s none 0 is) [
    | inl (s', e, failed) ↦ record {
      state = s';
      root = node p v cs;
      outcome = err e;
      returns = rw failed;
      same = refl;
      sound = is;
    }
    | inr r ↦
        let looped =
          loop_lem view hasher store kept (rounds (node p v cs)) r.state [] p v r.cs' none 0 0
            (count cs) r.pending [] [] (image view (node p v cs))
            (settled-Ready view hasher store [] p v cs r.cs' r.pending r.settles) (refl, refl, refl)
            (rounds-below p v cs r.cs' r.settles.same_rounds)
            (image_of view p v r.cs' cs r.settles.same_images) in
        rw r.returns looped
  ]

pub map_same : {V : Type 0} (v : Option V) → Option.map (λ (t : V). t) v ≡ v
map_same none = refl
map_same (some v) = refl

module _ {V H : Type 0} where
  pub count-images : (cs : Children V H) → count (images (λ (t : V). t) cs) ≡ count cs
  unfolding image count
  count-images nil = refl
  count-images (cons j (mem_edge n h) cs) = ap suc (count-images cs)

module _ {V H : Type 0} (hasher : TrieHasher V H) where
  mutual
    unfolding digest image

    digest-image :
        (leading : List ℕ) (siblings : ℕ) (n : Node V H)
        → digest hasher leading siblings (image (λ (t : V). t) n) ≡ digest hasher leading siblings n
    digest-image leading siblings (node p v cs) =
        rw (map_same v, count-images cs, digests-images (leading ++ p) (count cs) cs)

    digests-images :
        (path : List ℕ) (c : ℕ) (cs : Children V H)
        → digests hasher path c (images (λ (t : V). t) cs) ≡ digests hasher path c cs
    digests-images path c nil = refl
    digests-images path c (cons j (mem_edge n h) cs) =
        rw (digest-image (path ++ (j ∷ [])) c n, digests-images path c cs)

  pub digest_same :
      (m n : Node V H)
      → image (λ (t : V). t) m ≡ image (λ (t : V). t) n
      → digest hasher [] 0 m ≡ digest hasher [] 0 n
  digest_same m n e = sym (digest-image [] 0 m) ∙ ap (digest hasher [] 0) e ∙ digest-image [] 0 n

  -- A hasher that never rewrites a value.
  abbrev pub Keeps : Type 0
  Keeps =
      (leading p : List ℕ) (hashes : List (ℕ × H)) (v : V)
      → hasher.update_value leading p hashes v ≡ v

  -- What `hash` over the in-memory store leaves and returns, when it returns a hash.
  pub record HashedAs (root : Node V H) (h : H) : Type 0 where
    pub root' : Node V H
    pub returns : hash hasher in_memory tt root ≡ some (tt, root', ok h)
    pub same : image (λ (t : V). t) root' ≡ image (λ (t : V). t) root
    pub valid : IsValid hasher [] root'

  hashed_of :
      (root : Node V H) (state : Unit) (root' : Node V H) (outcome : Outcome ⊥ H)
      → hash hasher in_memory tt root ≡ some (state, root', outcome)
      → image (λ (t : V). t) root' ≡ image (λ (t : V). t) root
      → IsSound (λ (t : V). t) hasher in_memory root' outcome
      → HashedAs root (digest hasher [] 0 root)
  hashed_of root state root' (ok h) returns same sound = record {
    root' = root';
    returns = returns ∙ ap (λ t. some (tt, root', ok t)) (sound.1 ∙ digest_same root' root same);
    same = same;
    valid = sound.0;
  }
  hashed_of root state root' (err e) returns same sound = absurd e

  -- `hash` over the in-memory store, of a trie that keeps the hash-validity contract and with a hasher
  -- that never rewrites a value, returns the digest of the trie: the hash computed anew from what the
  -- trie holds, whichever of its edges were sealed. It leaves a trie that holds the same and keeps the
  -- contract.
  pub hash-digest :
      (root : Node V H) → Keeps → IsValid hasher [] root → HashedAs root (digest hasher [] 0 root)
  hash-digest root keeps is =
      let r = hash-Hashes (λ (t : V). t) hasher in_memory tt root keeps is in
      hashed_of root r.state r.root r.outcome r.returns r.same r.sound

  -- The hash is that of the root, or `hash` over the in-memory store gets it from what is left.
  abbrev pub Recovers : {E : Type 0} → Node V H → Node V H → Outcome E H → Type 0
  Recovers root left (ok h) = h ≡ digest hasher [] 0 root
  Recovers root left (err e) = HashedAs left (digest hasher [] 0 root)

  recovers :
      {S E : Type 0} (store : Store S E) (root left : Node V H) (outcome : Outcome E H)
      → Keeps
      → image (λ (t : V). t) left ≡ image (λ (t : V). t) root
      → IsSound (λ (t : V). t) hasher store left outcome
      → Recovers root left outcome
  recovers store root left (ok h) keeps same sound = sound.1 ∙ digest_same left root same
  recovers store root left (err e) keeps same sound =
      rw (← digest_same left root same) (hash-digest left keeps sound)

  -- A walk that fails leaves the rest of the work to the next: with a hasher that never rewrites a
  -- value, `hash` over any store of a trie that keeps the hash-validity contract neither panics nor
  -- runs out of fuel. It returns the digest of the trie, or an error; after an error, `hash` over the
  -- in-memory store of what the failed walk has left returns the digest of the trie that the failed
  -- walk began with.
  pub hash_again :
      {S E : Type 0} (store : Store S E) (s : S) (root : Node V H)
      → Keeps
      → IsValid hasher [] root
      → (s' : S) × (left : Node V H) × (outcome : Outcome E H) × (hash hasher store s root
          ≡ some (s', left, outcome))
        × Recovers root left outcome
  hash_again store s root keeps is =
      let r = hash-Hashes (λ (t : V). t) hasher store s root keeps is in
      (
        r.state,
        r.root,
        r.outcome,
        r.returns,
        recovers store root r.root r.outcome keeps r.same r.sound,
      )
