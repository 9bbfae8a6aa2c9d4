-- ===== src/Tries/Hash/Stacks.antt =====
-- The stack of the hash walk: what a node on it is ready for, how the frames below fit to the top, and
-- what the whole trie is when the walk stops there.
use arity_arrays.Common.{
  ℕ, suc, ◌+◌, ◌≡◌, refl, sym, ap, ◌∙◌, Option, none, some, ◌==◌, List, [], ◌∷◌, ◌++◌, length,
  Bool-cases, inl, inr,
}
use arity_arrays.Tries.Node.{
  Node, Edge, Children, node, mem_edge, nil, cons, partial_path, children, get, count, inline,
}
use arity_arrays.Tries.Node.Maps.{IsAscending}
use arity_arrays.Tries.Hash.{Stack, close}
use arity_arrays.Tries.Hash.Scheme.{TrieHasher, Frame, put}
use arity_arrays.Tries.Hash.Digests.{
  inlines, image, images, AreExact, digest, IsValid, AreValid, IsValidEdge,
}
use arity_arrays.Tries.Hash.Children.{
  count-put, put-IsAscending, inlines-put_sealed, images-put, rest_load,
}
use arity_arrays.Tries.Hash.Validity.{put-AreExact, put-AreValid, IsValid-of, inline-IsValidEdge}

module _ {V H : Type 0} where
  pub get-put :
      (cs : Children V H) (i : ℕ) (d e : Edge V H) → get cs i ≡ some d → get (put cs i e) i ≡ some e
  unfolding get put
  get-put nil i d e there = cc
  get-put (cons j c cs) i d e there = elim (Bool-cases (j == i)) [
    | inl same ↦ rw (same, same)
    | inr other ↦ rw (other, other) (get-put cs i d e (rw other at there))
  ]

  pub put-put : (cs : Children V H) (i : ℕ) (d e : Edge V H) → put (put cs i d) i e ≡ put cs i e
  unfolding put
  put-put nil i d e = refl
  put-put (cons j c cs) i d e = elim (Bool-cases (j == i)) [
    | inl same ↦ rw (same, same)
    | inr other ↦ rw (other, other) (ap (cons j c) (put-put cs i d e))
  ]

  -- The rounds that the frames below the top still need.
  abbrev pub weight : Stack V H → ℕ
  weight [] = 0
  weight ((parent, i, frame) ∷ under) = suc (rest_load (children parent)) + weight under

module _ {V W H : Type 0} (view : V → W) where
  images-put_cong :
      (cs : Children V H) (i : ℕ) (m n : Node V H) (x y : Option H)
      → image view m ≡ image view n
      → images view (put cs i (mem_edge m x)) ≡ images view (put cs i (mem_edge n y))
  unfolding put image
  images-put_cong nil i m n x y e = refl
  images-put_cong (cons j (mem_edge k z) cs) i m n x y e = elim (Bool-cases (j == i)) [
    | inl same ↦ rw same (ap (λ t. cons j (mem_edge t none) (images view cs)) e)
    | inr other ↦
        rw other (ap (cons j (mem_edge (image view k) none)) (images-put_cong cs i m n x y e))
  ]

  pub image_of :
      (p : List ℕ) (v : Option V) (cs cs' : Children V H)
      → images view cs ≡ images view cs'
      → image view (node p v cs) ≡ image view (node p v cs')
  unfolding image
  image_of p v cs cs' e = rw e

  pub image-close :
      (under : Stack V H) (m n : Node V H)
      → image view m ≡ image view n
      → image view (close under m) ≡ image view (close under n)
  image-close [] m n e = e
  image-close ((node p v cs, i, frame) ∷ under) m n e =
      image-close under (node p v (put cs i (inline m))) (node p v (put cs i (inline n))) (
        image_of p v (put cs i (inline m)) (put cs i (inline n))
          (images-put_cong cs i m n none none e))

  -- The whole trie does not change when the walk enters a child, or leaves it with a seal.
  pub image-enter :
      (under : Stack V H) (p : List ℕ) (v : Option V) (cs : Children V H) (i : ℕ) (frame : Frame)
      (n : Node V H)
      → get cs i ≡ some (mem_edge n none)
      → image view (close ((node p v cs, i, frame) ∷ under) n)
        ≡ image view (close under (node p v cs))
  image-enter under p v cs i frame n there =
      image-close under (node p v (put cs i (inline n))) (node p v cs)
        (image_of p v (put cs i (inline n)) cs (images-put view cs i n n none none there refl))

  pub image-leave :
      (under : Stack V H) (p : List ℕ) (v : Option V) (cs : Children V H) (i : ℕ) (frame : Frame)
      (n : Node V H) (h : H)
      → image view (close under (node p v (put cs i (mem_edge n (some h)))))
        ≡ image view (close ((node p v cs, i, frame) ∷ under) n)
  image-leave under p v cs i frame n h =
      image-close under (node p v (put cs i (mem_edge n (some h)))) (node p v (put cs i (inline n)))
        (image_of p v (put cs i (mem_edge n (some h))) (put cs i (inline n))
          (images-put_cong cs i n n (some h) none refl))

module _ {V H : Type 0} (hasher : TrieHasher V H) where
  -- The sealed children of a node are exact; these children are pending.
  pub record Ready (leading : List ℕ) (n : Node V H) (leading_len c : ℕ) (pending : List ℕ)
      : Type 0 where
    pub asc : IsAscending 0 (children n)
    pub exact : AreExact hasher (leading ++ partial_path n) (count (children n)) (children n)
    pub valid : AreValid hasher (leading ++ partial_path n) (children n)
    pub inline_are : inlines (children n) ≡ pending
    pub counted : c ≡ count (children n)
    pub len : leading_len ≡ length leading

  -- The frames below a node, which stands at a path, at an index of its parent next to its siblings.
  abbrev pub Fits : Stack V H → List ℕ → Option ℕ → ℕ → Type 0
  Fits [] leading index siblings = (leading ≡ []) × (siblings ≡ 0) × (index ≡ none)
  Fits ((parent, i, below) ∷ under) leading index siblings =
      (up : List ℕ) × (leading ≡ (up ++ partial_path parent) ++ (i ∷ []))
      × (siblings ≡ below.count)
      × (index ≡ some i)
      × Ready up parent below.leading_len below.count (i ∷ below.pending)
      × Fits under up below.index_in_parent below.siblings

  -- A parent with a valid child written back.
  pub back-IsValid :
      (up p : List ℕ) (v : Option V) (cs : Children V H) (len c : ℕ) (pending : List ℕ) (i : ℕ)
      (n : Node V H)
      → Ready up (node p v cs) len c pending
      → IsValid hasher ((up ++ p) ++ (i ∷ [])) n
      → IsValid hasher up (node p v (put cs i (inline n)))
  back-IsValid up p v cs len c pending i n r is =
      let path = up ++ p in
      IsValid-of hasher up p v (put cs i (inline n)) (put-IsAscending 0 cs i (inline n) r.asc)
        (rw (count-put cs i (inline n))
          (put-AreExact hasher path (count cs) cs i (inline n) r.exact tt))
        (put-AreValid hasher path cs i (inline n) r.valid
          (inline-IsValidEdge hasher (path ++ (i ∷ [])) n is))

  pub close-IsValid :
      (under : Stack V H) (leading : List ℕ) (index : Option ℕ) (siblings : ℕ) (n : Node V H)
      → Fits under leading index siblings
      → IsValid hasher leading n
      → IsValid hasher [] (close under n)
  close-IsValid [] leading index siblings n fits is = rw (← fits.0) is
  close-IsValid ((node p v cs, i, below) ∷ under) leading index siblings n fits is =
      let (up, place, same, at_index, ready, rest) = fits in
      close-IsValid under up below.index_in_parent below.siblings (node p v (put cs i (inline n)))
        rest
        (back-IsValid up p v cs below.leading_len below.count (i ∷ below.pending) i n ready
          (rw place at is))

  -- A parent with its pending child sealed.
  pub sealed-Ready :
      (up p : List ℕ) (v : Option V) (cs : Children V H) (len c : ℕ) (pending : List ℕ) (i : ℕ)
      (n : Node V H) (h : H)
      → Ready up (node p v cs) len c (i ∷ pending)
      → IsValidEdge hasher ((up ++ p) ++ (i ∷ [])) (mem_edge n (some h))
      → h ≡ digest hasher ((up ++ p) ++ (i ∷ [])) c n
      → Ready up (node p v (put cs i (mem_edge n (some h)))) len c pending
  sealed-Ready up p v cs len c pending i n h r is exact =
      let e = mem_edge n (some h) in
      let same = count-put cs i e in
      record {
        asc = put-IsAscending 0 cs i e r.asc;
        exact =
            rw same
              (put-AreExact hasher (up ++ p) (count cs) cs i e r.exact (exact ∙ rw r.counted));
        valid = put-AreValid hasher (up ++ p) cs i e r.valid is;
        inline_are = inlines-put_sealed 0 cs i pending n h r.asc r.inline_are;
        counted = r.counted ∙ sym same;
        len = r.len;
      }
