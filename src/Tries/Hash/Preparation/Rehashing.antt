-- ===== src/Tries/Hash/Preparation/Rehashing.antt =====
-- `rehash`: it hashes the only sealed child again for the siblings that the node has now, or leaves
-- it inline, or fails and changes nothing.
use arity_arrays.Common.{
  ℕ, ◌≡◌, refl, sym, ap, ◌∙◌, ◌⊎◌, inl, inr, Option, none, some, List, [], ◌∷◌, ◌++◌, Bool-cases,
  Option-cases,
}
use arity_arrays.Tries.Node.{Node, Children, node, mem_edge, children, get, count}
use arity_arrays.Tries.Node.Maps.{IsAscending}
use arity_arrays.Tries.Ops.Subtree.{rounds_below}
use arity_arrays.Tries.Store.{Outcome, ok, err, Store}
use arity_arrays.Tries.Hash.{rehash}
use arity_arrays.Tries.Hash.Scheme.{TrieHasher, Scan, put, with_bit, any_inline}
use arity_arrays.Tries.Hash.Digests.{
  inlines, sealed_count, images, IsExact, AreExact, IsValid, IsValidEdge, AreValid, digest,
}
use arity_arrays.Tries.Hash.Children.{
  count-put, put-IsAscending, inlines-put_resealed, images-put, rounds-put,
}
use arity_arrays.Tries.Hash.Validity.{
  put-AreValid, get-IsValidEdge, valid_of, inline-IsValidEdge, sealed-IsValidEdge, sealed_parts,
  hash_sealed_node-digest, hash_sealed_node-none,
}
use arity_arrays.Tries.Hash.Scans.{OnlySealed, only-AreExact}

module _ {V W H S E : Type 0} (view : V → W) (hasher : TrieHasher V H) (store : Store S E) where
  -- What `prepare` makes of the children of a node at a path.
  pub record Settles (path : List ℕ) (cs cs' : Children V H) (pending : List ℕ) : Type 0 where
    pub asc : IsAscending 0 cs'
    pub exact : AreExact hasher path (count cs') cs'
    pub valid : AreValid hasher path cs'
    pub same_count : count cs' ≡ count cs
    pub inline_are : inlines cs' ≡ pending
    pub same_images : images view cs' ≡ images view cs
    pub same_rounds : rounds_below cs' ≡ rounds_below cs

  pub unchanged-Settles :
      (path : List ℕ) (cs : Children V H) (pending : List ℕ)
      → IsAscending 0 cs
      → AreExact hasher path (count cs) cs
      → AreValid hasher path cs
      → inlines cs ≡ pending
      → Settles path cs cs pending
  unchanged-Settles path cs pending asc exact valid pends = record {
    asc = asc;
    exact = exact;
    valid = valid;
    same_count = refl;
    inline_are = pends;
    same_images = refl;
    same_rounds = refl;
  }

  pub record Rehashed (leading p : List ℕ) (v : Option V) (cs : Children V H)
      (result : Option (S × Outcome E (Node V H × List ℕ))) : Type 0 where
    pub state : S
    pub cs' : Children V H
    pub pending : List ℕ
    pub returns : result ≡ some (state, ok (node p v cs', pending))
    pub settles : Settles (leading ++ p) cs cs' pending

  pub put-Settles :
      (path : List ℕ) (cs : Children V H) (i : ℕ) (n : Node V H) (h : H) (x : Option H)
      (pending : List ℕ)
      → IsAscending 0 cs
      → AreValid hasher path cs
      → sealed_count cs ≡ 1
      → get cs i ≡ some (mem_edge n (some h))
      → IsExact hasher (path ++ (i ∷ [])) (count cs) (mem_edge n x)
      → IsValidEdge hasher (path ++ (i ∷ [])) (mem_edge n x)
      → inlines (put cs i (mem_edge n x)) ≡ pending
      → Settles path cs (put cs i (mem_edge n x)) pending
  put-Settles path cs i n h x pending asc valid one there is is_valid pends =
      let same = count-put cs i (mem_edge n x) in
      record {
        asc = put-IsAscending 0 cs i (mem_edge n x) asc;
        exact = rw same (only-AreExact hasher path (count cs) cs i n h (mem_edge n x) one there is);
        valid = put-AreValid hasher path cs i (mem_edge n x) valid is_valid;
        same_count = same;
        inline_are = pends;
        same_images = images-put view cs i n n (some h) x there refl;
        same_rounds = rounds-put cs i n (some h) x there;
      }

  pub rehash_lem :
      (leading p : List ℕ) (v : Option V) (cs : Children V H) (s : S) (lone : Scan) (scanned : Scan)
      (only : OnlySealed lone 0 cs)
      → IsValid hasher leading (node p v cs)
      → sealed_count cs ≡ 1
      → scanned.count ≡ count cs
      → scanned.pending ≡ inlines cs
      → let result =
          rehash hasher store s
            (node p v cs)
            only.index
            ((leading ++ p) ++ (only.index ∷ []))
            scanned in
        ((s' : S) × (e : E) × (result ≡ some (s', err e))) ⊎ Rehashed leading p v cs result
  unfolding rehash
  rehash_lem leading p v cs s lone scanned only h one counted pends =
      let i = only.index in
      let n = only.child in
      let path = leading ++ p in
      let (asc, exact, valid) = valid_of hasher leading p v cs h in
      let (sub, when_sealed) =
        sealed_parts hasher (path ++ (i ∷ [])) n only.hash
          (get-IsValidEdge hasher path cs i (mem_edge n (some only.hash)) valid only.there) in
      let digest_of = digest hasher (path ++ (i ∷ [])) scanned.count n in
      elim (Option-cases (store.read s).1) [
        | inr (e, failed) ↦ inl ((store.read s).0, e, rw (only.there, failed))
        | inl read_ok ↦ elim (Bool-cases (any_inline (children n))) [
          | inl unsealed ↦
              let none_yet =
                hash_sealed_node-none hasher (path ++ (i ∷ [])) scanned.count n unsealed in
              elim (Option-cases (store.materialize (store.read s).0).1) [
                | inr (e, failed) ↦ inl (
                  (store.materialize (store.read s).0).0,
                  e,
                  rw (only.there, read_ok, none_yet, failed),
                )
                | inl materialize_ok ↦ inr (record {
                  state = (store.materialize (store.read s).0).0;
                  cs' = put cs i (mem_edge n none);
                  pending = with_bit scanned.pending i;
                  returns = rw (only.there, read_ok, none_yet, materialize_ok);
                  settles =
                      put-Settles path cs i n only.hash none (with_bit scanned.pending i) asc valid
                        one only.there tt (inline-IsValidEdge hasher (path ++ (i ∷ [])) n sub)
                        (sym (ap (λ t. with_bit t i) pends ∙ only.pending));
                })
              ]
          | inr sealed ↦
              let is =
                hash_sealed_node-digest hasher (path ++ (i ∷ [])) scanned.count n sealed
                  when_sealed in
              inr (record {
                state = (store.read s).0;
                cs' = put cs i (mem_edge n (some digest_of));
                pending = scanned.pending;
                returns = rw (only.there, read_ok, is);
                settles =
                    put-Settles path cs i n only.hash (some digest_of) scanned.pending asc valid one
                      only.there (rw counted)
                      (sealed-IsValidEdge hasher (path ++ (i ∷ [])) n digest_of sub when_sealed)
                      (inlines-put_resealed cs i n n only.hash digest_of only.there ∙ sym pends);
              })
        ]
      ]
