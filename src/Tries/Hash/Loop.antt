-- ===== src/Tries/Hash/Loop.antt =====
-- The loop of the hash walk: with a round for each node and each edge it returns a sound outcome.
use arity_arrays.Common.{
  ℕ, zero, suc, ◌+◌, ◌≤◌, ◌≡◌, refl, sym, ap, ap₂, ◌∙◌, inl, inr, Option, none, some, List, [], ◌∷◌,
  ◌++◌, length, arith,
}
use mathlib.Core.List.{append-nil, append_assoc}
use arity_arrays.Tries.Node.{Node, Children, node, mem_edge, count}
use arity_arrays.Tries.Ops.Subtree.{rounds, rounds_below}
use arity_arrays.Tries.Store.{ok, err, Store}
use arity_arrays.Tries.Hash.{Stack, close, hash_loop}
use arity_arrays.Tries.Hash.Scheme.{TrieHasher, Frame, put}
use arity_arrays.Tries.Hash.Digests.{image, digest}
use arity_arrays.Tries.Hash.Children.{
  Next, first_inline, inlines-nil, load, rest_load, load-le, load-next, load-put_sealed,
}
use arity_arrays.Tries.Hash.Validity.{
  IsValid-of, inline_parts, sealed-IsValidEdge, get-IsValidEdge, rewritten, finish_node-digest,
}
use arity_arrays.Tries.Hash.Preparation.{prepare_lem}
use arity_arrays.Tries.Hash.Preparation.Rehashing.{Settles}
use arity_arrays.Tries.Hash.Stacks.{
  weight, image_of, image-close, image-enter, image-leave, Ready, Fits, close-IsValid, sealed-Ready,
}
use arity_arrays.Tries.Hash.Rounds.{frame_with, push_fails, pushes, ends, pops}
use arity_arrays.Tries.Hash.Results.{Hashes, returns_as, settled-Ready, image-rewritten}

module _ {V H : Type 0} where
  -- The rounds that are left after one that enters a child.
  enters :
      (p : List ℕ) (v : Option V) (below below' cs : Children V H) (fuel w : ℕ)
      → suc (load cs) + w ≤ suc fuel
      → load cs ≡ suc (rounds (node p v below) + rest_load cs)
      → rounds_below below' ≡ rounds_below below
      → suc (load below') + (suc (rest_load cs) + w) ≤ fuel
  unfolding rounds
  enters p v below below' cs fuel w enough now same = omega (arith, load-le below')

module _ {V W H S E : Type 0} (view : V → W) (hasher : TrieHasher V H) (store : Store S E) where
  -- The hasher rewrites what the view does not show.
  module _
      (kept : (leading p : List ℕ) (hashes : List (ℕ × H)) (v : V)
        → view (hasher.update_value leading p hashes v) ≡ view v) where
    -- A round that enters a child, with what the rounds after it do.
    push_round :
        (fuel : ℕ) (s : S) (under : Stack V H) (p : List ℕ) (v : Option V) (cs : Children V H)
        (index : Option ℕ) (len siblings c i : ℕ) (pending leading q : List ℕ) (seen : Node W H)
        (next : Next cs i)
        → let frame = frame_with index len siblings c (i ∷ pending) in
          let at = (leading ++ p) ++ (i ∷ []) in
          Ready hasher leading (node p v cs) len c (i ∷ pending)
          → Fits hasher under leading index siblings
          → image view (close under (node p v cs)) ≡ seen
          → ((s' : S) (cs' : Children V H) (pending' : List ℕ)
              → Settles view hasher store (at ++ next.tail) next.below cs' pending'
              → Hashes view hasher store seen (
                  hash_loop hasher store fuel s'
                    ((node p v cs, i, frame_with index len siblings c pending) ∷ under)
                    (node next.tail next.held cs')
                    (frame_with (some i) (length at) c (count next.below) pending')
                    (at ++ [])))
          → Hashes view hasher store seen
              (hash_loop hasher store (suc fuel) s under (node p v cs) frame (leading ++ q))
    push_round fuel s under p v cs index len siblings c i pending leading q seen next ready fits
          same rest =
        let path = leading ++ p in
        let at = path ++ (i ∷ []) in
        let child = node next.tail next.held next.below in
        let frame = frame_with index len siblings c (i ∷ pending) in
        let below = frame_with index len siblings c pending in
        let is =
          inline_parts hasher at child
            (get-IsValidEdge hasher path cs i (mem_edge child none) ready.valid next.there) in
        elim (prepare_lem view hasher store at next.tail next.held next.below s (some i) c is) [
          | inl (s', e, failed) ↦ record {
            state = s';
            root = close ((node p v cs, i, below) ∷ under) child;
            outcome = err e;
            returns =
                push_fails hasher store fuel s s' under p v cs index len siblings c i pending
                  leading q child e ready.len next.there failed;
            same = image-enter view under p v cs i below child next.there ∙ same;
            sound =
                close-IsValid hasher ((node p v cs, i, below) ∷ under) at (some i) c child
                  (leading, refl, refl, refl, ready, fits) is;
          }
          | inr r ↦
              returns_as view hasher store seen
                (hash_loop hasher store (suc fuel) s under (node p v cs) frame (leading ++ q))
                (hash_loop hasher store fuel r.state ((node p v cs, i, below) ∷ under)
                  (node next.tail next.held r.cs')
                  (frame_with (some i) (length at) c (count next.below) r.pending) (at ++ []))
                (pushes hasher store fuel s r.state under p v cs index len siblings c i pending
                    leading q child
                    (record {
                      node = node next.tail next.held r.cs';
                      frame = frame_with (some i) (length at) c (count next.below) r.pending;
                      buf = at;
                    })
                    ready.len next.there r.returns
                  ∙ ap
                      (hash_loop hasher store fuel r.state ((node p v cs, i, below) ∷ under)
                        (node next.tail next.held r.cs')
                        (frame_with (some i) (length at) c (count next.below) r.pending))
                      (sym (append-nil at)))
                (rest r.state r.cs' r.pending r.settles)
        ]

    root_round :
        (fuel : ℕ) (s : S) (p : List ℕ) (v : Option V) (cs : Children V H) (len c : ℕ) (q : List ℕ)
        (seen : Node W H)
        → Ready hasher [] (node p v cs) len c []
        → image view (node p v cs) ≡ seen
        → Hashes view hasher store seen
            (hash_loop hasher store (suc fuel) s [] (node p v cs) (frame_with none len 0 c []) q)
    root_round fuel s p v cs len c q seen ready same =
        let all = inlines-nil cs ready.inline_are in
        let v' = rewritten hasher [] p cs v in
        let n' = node p v' cs in
        record {
          state = s;
          root = n';
          outcome = ok (digest hasher [] 0 n');
          returns =
              ends hasher store fuel s (node p v cs) n' len 0 c [] q (digest hasher [] 0 n')
                ready.len (finish_node-digest hasher [] p v cs 0 all ready.exact);
          same = image-rewritten view hasher store kept [] p v cs ∙ same;
          sound = (
            IsValid-of hasher [] p v' cs ready.asc ready.exact ready.valid,
            refl,
            all,
            ready.exact,
          );
        }

    -- A round that leaves a node and seals it in its parent, with what the rounds after it do.
    pop_round :
        (fuel : ℕ) (s : S) (under : Stack V H) (pp : List ℕ) (pv : Option V) (pcs : Children V H)
        (i : ℕ) (below : Frame) (p : List ℕ) (v : Option V) (cs : Children V H) (len siblings c : ℕ)
        (leading q : List ℕ) (seen : Node W H) (up : List ℕ)
        → leading ≡ (up ++ pp) ++ (i ∷ [])
        → Ready hasher up (node pp pv pcs) below.leading_len below.count (i ∷ below.pending)
        → Ready hasher leading (node p v cs) len c []
        → let n' = node p (rewritten hasher leading p cs v) cs in
          let sealed = put pcs i (mem_edge n' (some (digest hasher leading siblings n'))) in
          Hashes view hasher store seen
            (hash_loop hasher store fuel s under (node pp pv sealed) below (up ++ (pp ++ (i ∷ []))))
          → Hashes view hasher store seen (
              hash_loop hasher store
                (suc fuel)
                s
                ((node pp pv pcs, i, below) ∷ under)
                (node p v cs)
                (frame_with (some i) len siblings c [])
                (leading ++ q))
    pop_round fuel s under pp pv pcs i below p v cs len siblings c leading q seen up place waiting
          ready rest =
        let n' = node p (rewritten hasher leading p cs v) cs in
        let h = digest hasher leading siblings n' in
        let sealed = put pcs i (mem_edge n' (some h)) in
        let next = first_inline 0 pcs i below.pending waiting.asc waiting.inline_are in
        let loop = hash_loop hasher store fuel s under (node pp pv sealed) below in
        returns_as view hasher store seen
          (hash_loop hasher store (suc fuel) s ((node pp pv pcs, i, below) ∷ under) (node p v cs)
            (frame_with (some i) len siblings c []) (leading ++ q))
          (loop (up ++ (pp ++ (i ∷ []))))
          (pops hasher store fuel s under pp pv pcs i below (node p v cs) n'
              (node next.tail next.held next.below) len siblings c leading q h ready.len
              (finish_node-digest hasher leading p v cs siblings (inlines-nil cs ready.inline_are)
                ready.exact)
              next.there
            ∙ ap loop (place ∙ append_assoc up pp (i ∷ [])))
          rest

    pub loop_lem :
        (fuel : ℕ) (s : S) (under : Stack V H) (p : List ℕ) (v : Option V) (cs : Children V H)
        (index : Option ℕ) (len siblings c : ℕ) (pending leading q : List ℕ) (seen : Node W H)
        → let frame = frame_with index len siblings c pending in
          Ready hasher leading (node p v cs) len c pending
          → Fits hasher under leading index siblings
          → suc (load cs) + weight under ≤ fuel
          → image view (close under (node p v cs)) ≡ seen
          → Hashes view hasher store seen
              (hash_loop hasher store fuel s under (node p v cs) frame (leading ++ q))
    loop_lem zero s under p v cs index len siblings c pending leading q seen ready fits enough
          same =
        absurd (omega arith)
    loop_lem (suc fuel) s under p v cs index len siblings c (i ∷ pending) leading q seen ready fits
          enough same =
        let next = first_inline 0 cs i pending ready.asc ready.inline_are in
        let below = frame_with index len siblings c pending in
        let child = node next.tail next.held next.below in
        let at = (leading ++ p) ++ (i ∷ []) in
        let now = load-next 0 cs i pending child ready.asc ready.inline_are next.there in
        push_round fuel s under p v cs index len siblings c i pending leading q seen next ready fits
          same
          (λ s' cs' pending' settled.
            loop_lem fuel s' ((node p v cs, i, below) ∷ under) next.tail next.held cs' (some i)
              (length at) c (count next.below) pending' at [] seen
              (settled-Ready view hasher store at next.tail next.held next.below cs' pending'
                settled)
              (leading, refl, refl, refl, ready, fits)
              (enters next.tail next.held next.below cs' cs fuel (weight under) enough now
                settled.same_rounds)
              (image-close view ((node p v cs, i, below) ∷ under) (node next.tail next.held cs')
                  child (image_of view next.tail next.held cs' next.below settled.same_images)
                ∙ image-enter view under p v cs i below child next.there
                ∙ same))
    loop_lem (suc fuel) s [] p v cs index len siblings c [] leading q seen ready fits enough same =
        let ready' = rw fits.0 at ready in
        rw (fits.0, fits.1, fits.2) (root_round fuel s p v cs len c q seen ready' same)
    loop_lem (suc fuel) s ((node pp pv pcs, i, below) ∷ under) p v cs index len siblings c []
          leading q seen ready fits enough same =
        let (up, place, same_siblings, at_index, waiting, others) = fits in
        let n' = node p (rewritten hasher leading p cs v) cs in
        let h = digest hasher leading siblings n' in
        let sealed = put pcs i (mem_edge n' (some h)) in
        let now = load-put_sealed 0 pcs i below.pending n' h waiting.asc waiting.inline_are in
        rw at_index (
          pop_round fuel s under pp pv pcs i below p v cs len siblings c leading q seen up place
            waiting ready
            (loop_lem fuel s under pp pv sealed below.index_in_parent below.leading_len
              below.siblings below.count below.pending up (pp ++ (i ∷ [])) seen
              (sealed-Ready hasher up pp pv pcs below.leading_len below.count below.pending i n' h
                waiting
                (rw (← place) (
                  sealed-IsValidEdge hasher leading n' h
                    (IsValid-of hasher leading p (rewritten hasher leading p cs v) cs ready.asc
                      ready.exact ready.valid)
                    (λ all. ready.exact)))
                (ap₂ (λ l k. digest hasher l k n') place same_siblings))
              others (omega (arith, now))
              (image-leave view under pp pv pcs i below n' h
                ∙ image-close view ((node pp pv pcs, i, below) ∷ under) n' (node p v cs)
                    (image-rewritten view hasher store kept leading p v cs)
                ∙ same)))
