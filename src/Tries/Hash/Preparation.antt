-- ===== src/Tries/Hash/Preparation.antt =====
-- `prepare`: it leaves every sealed child exact and the inline ones pending, or fails and changes
-- nothing.
pub mod Rehashing
use arity_arrays.Common.{
  ℕ, ◌≡◌, refl, sym, ap, ◌∙◌, ◌⊎◌, inl, inr, false, Option, none, some, ◌==◌, List, [], ◌∷◌, ◌++◌,
  length, arith, Bool-cases, Option-cases, ==_iff,
}
use mathlib.Core.List.{append_assoc}
use arity_arrays.Tries.Paths.{slice_to}
use arity_arrays.Tries.Node.{Node, Children, node, mem_edge, children, get, count}
use arity_arrays.Tries.Node.Maps.{IsAscending}
use arity_arrays.Tries.Walk.{truncate}
use arity_arrays.Tries.Ops.Subtree.{rounds_below}
use arity_arrays.Tries.Store.{Outcome, ok, err, Store}
use arity_arrays.Tries.Hash.{Prepared, rehash, prepare, frame_of}
use arity_arrays.Tries.Hash.Scheme.{TrieHasher, Scan, scan, new_scan, put, with_bit, any_inline}
use arity_arrays.Tries.Hash.Digests.{
  inlines, sealed_count, images, IsExact, AreExact, is_unsettled, IsValid, IsValidEdge, AreValid,
  digest,
}
use arity_arrays.Tries.Hash.Children.{
  count-put, put-IsAscending, inlines-put_resealed, images-put, rounds-put,
}
use arity_arrays.Tries.Hash.Validity.{
  put-AreValid, get-IsValidEdge, valid_of, inline-IsValidEdge, sealed-IsValidEdge, sealed_parts,
  hash_sealed_node-digest, hash_sealed_node-none,
}
use arity_arrays.Tries.Hash.Scans.{
  OnlySealed, only_sealed, only-AreExact, scan-count, scan-sealed, scan-pending,
}
use arity_arrays.Tries.Hash.Preparation.Rehashing.{Settles, unchanged-Settles, Rehashed, rehash_lem}

pub truncate-append : (xs ys : List ℕ) → truncate (length xs) (xs ++ ys) ≡ xs
truncate-append [] ys = refl
truncate-append (x ∷ xs) ys = ap (◌∷◌ x) (truncate-append xs ys)

pub truncate_all : (xs : List ℕ) → truncate (length xs) xs ≡ xs
truncate_all [] = refl
truncate_all (x ∷ xs) = ap (◌∷◌ x) (truncate_all xs)

truncate_at :
    (leading p : List ℕ) (i : ℕ)
    → truncate (length leading) ((truncate (length leading) leading ++ p) ++ (i ∷ [])) ≡ leading
truncate_at leading p i =
    ap (λ t. truncate (length leading) ((t ++ p) ++ (i ∷ []))) (truncate_all leading)
    ∙ ap (truncate (length leading)) (append_assoc leading p (i ∷ []))
    ∙ truncate-append leading (p ++ (i ∷ []))

slice_all : (xs : List ℕ) → slice_to xs (length xs) ≡ some xs
unfolding slice_to
slice_all [] = refl
slice_all (x ∷ xs) = rw (slice_all xs)

module _ {V W H S E : Type 0} (view : V → W) (hasher : TrieHasher V H) (store : Store S E) where
  -- What a prepared node is ready for: with its frame, at the top of the stack.
  pub record IsPrepared (leading p : List ℕ) (v : Option V) (cs : Children V H) (index : Option ℕ)
      (siblings : ℕ) (result : Option (S × Outcome E (Prepared V H))) : Type 0 where
    pub state : S
    pub cs' : Children V H
    pub pending : List ℕ
    pub returns :
        result
        ≡ some (
          state,
          ok (record {
            node = node p v cs';
            frame = record {
              index_in_parent = index;
              leading_len = length leading;
              siblings = siblings;
              count = count cs;
              pending = pending;
            };
            buf = leading;
          }),
        )
    pub settles : Settles view hasher store (leading ++ p) cs cs' pending

  pub prepare_lem :
      (leading p : List ℕ) (v : Option V) (cs : Children V H) (s : S) (index : Option ℕ)
      (siblings : ℕ)
      → IsValid hasher leading (node p v cs)
      → let result = prepare hasher store s (node p v cs) leading index (length leading) siblings in
        ((s' : S) × (e : E) × (result ≡ some (s', err e)))
        ⊎ IsPrepared leading p v cs index siblings result
  unfolding prepare frame_of
  prepare_lem leading p v cs s index siblings h =
      let (asc, exact, valid) = valid_of hasher leading p v cs h in
      let path = leading ++ p in
      let scanned = scan new_scan cs in
      let counted : scanned.count ≡ count cs = omega (arith, scan-count new_scan cs) in
      let sealed : scanned.sealed ≡ sealed_count cs = omega (arith, scan-sealed new_scan cs) in
      let pends = scan-pending cs asc in
      let plain = λ (settled : is_unsettled hasher leading p cs ≡ false).
        unchanged-Settles view hasher store path cs scanned.pending asc (exact settled) valid
          (sym pends) in
      elim (Bool-cases (scanned.sealed == 1)) [
        | inl one ↦ elim (Bool-cases (hasher.sibling_sensitive leading p)) [
          | inl sensitive ↦
              let sealed_one : sealed_count cs ≡ 1 = sym sealed ∙ (==_iff scanned.sealed 1).0 one in
              let only = only_sealed new_scan 0 cs asc sealed_one in
              let i = only.index in
              let at = λ (t : List ℕ). (t ++ p) ++ (i ∷ []) in
              let place =
                ap (λ t. rehash hasher store s (node p v cs) i (at t) scanned)
                  (truncate_all leading) in
              elim (rehash_lem view hasher store leading p v cs s new_scan scanned only h sealed_one
                counted pends) [
                  | inl (s', e, failed) ↦
                      inl (
                        s',
                        e,
                        rw (one, slice_all leading, sensitive, only.is_last, place ∙ failed),
                      )
                  | inr r ↦ inr (record {
                    state = r.state;
                    cs' = r.cs';
                    pending = r.pending;
                    returns = rw (
                      one,
                      slice_all leading,
                      sensitive,
                      only.is_last,
                      place ∙ r.returns,
                      truncate_at leading p i,
                      counted,
                    );
                    settles = r.settles;
                  })
                ]
          | inr calm ↦ inr (record {
            state = s;
            cs' = cs;
            pending = scanned.pending;
            returns = rw (one, slice_all leading, calm, counted);
            settles = plain (rw (← sealed, one, calm));
          })
        ]
        | inr other ↦ inr (record {
          state = s;
          cs' = cs;
          pending = scanned.pending;
          returns = rw (other, counted);
          settles = plain (rw (← sealed, other));
        })
      ]
