-- ===== src/Tries/Hash/Results.antt =====
-- What the hash walk leaves and returns: an outcome that is sound, and a trie that is the same under a
-- view of its values.
use arity_arrays.Common.{ℕ, ◌≡◌, refl, sym, ◌∙◌, false, Option, none, some, List, [], ◌++◌, length}
use arity_arrays.Tries.Node.{Node, Children, node, partial_path, children, count}
use arity_arrays.Tries.Store.{Outcome, ok, err, Store}
use arity_arrays.Tries.Hash.Scheme.{TrieHasher, any_inline}
use arity_arrays.Tries.Hash.Digests.{image, digest, digests, AreExact, IsValid}
use arity_arrays.Tries.Hash.Validity.{rewritten}
use arity_arrays.Tries.Hash.Preparation.Rehashing.{Settles}
use arity_arrays.Tries.Hash.Stacks.{Ready}

module _ {V W H S E : Type 0} (view : V → W) (hasher : TrieHasher V H) (store : Store S E) where
  -- What is true of the outcome: an error leaves the contract kept, and a hash is that of the trie,
  -- whose root has each child sealed with its own.
  abbrev pub IsSound : Node V H → Outcome E H → Type 0
  IsSound root (err e) = IsValid hasher [] root
  IsSound root (ok h) =
      IsValid hasher [] root
      × (h ≡ digest hasher [] 0 root)
      × (any_inline (children root) ≡ false)
      × AreExact hasher (partial_path root) (count (children root)) (children root)

  -- The walk returns, and the view of the trie is this one.
  pub record Hashes (seen : Node W H) (result : Option (S × Node V H × Outcome E H)) : Type 0 where
    pub state : S
    pub root : Node V H
    pub outcome : Outcome E H
    pub returns : result ≡ some (state, root, outcome)
    pub same : image view root ≡ seen
    pub sound : IsSound root outcome

  pub returns_as :
      (seen : Node W H) (a b : Option (S × Node V H × Outcome E H))
      → a ≡ b
      → Hashes seen b
      → Hashes seen a
  returns_as seen a b e r = record {
    state = r.state;
    root = r.root;
    outcome = r.outcome;
    returns = e ∙ r.returns;
    same = r.same;
    sound = r.sound;
  }

  pub settled-Ready :
      (at p : List ℕ) (v : Option V) (cs cs' : Children V H) (pending : List ℕ)
      → Settles view hasher store (at ++ p) cs cs' pending
      → Ready hasher at (node p v cs') (length at) (count cs) pending
  settled-Ready at p v cs cs' pending settled = record {
    asc = settled.asc;
    exact = settled.exact;
    valid = settled.valid;
    inline_are = settled.inline_are;
    counted = sym settled.same_count;
    len = refl;
  }

  -- The hasher rewrites what the view does not show.
  module _
      (kept : (leading p : List ℕ) (hashes : List (ℕ × H)) (v : V)
        → view (hasher.update_value leading p hashes v) ≡ view v) where
    pub image-rewritten :
        (leading p : List ℕ) (v : Option V) (cs : Children V H)
        → image view (node p (rewritten hasher leading p cs v) cs) ≡ image view (node p v cs)
    unfolding image
    image-rewritten leading p none cs = refl
    image-rewritten leading p (some v) cs =
        rw (kept leading p (digests hasher (leading ++ p) (count cs) cs) v)
