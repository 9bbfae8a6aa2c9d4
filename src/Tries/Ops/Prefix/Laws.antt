-- ===== src/Tries/Ops/Prefix/Laws.antt =====
-- Removing a prefix: what lookups read afterwards, and the structural invariant.
use arity_arrays.Common.{
  ℕ, zero, suc, ◌<◌, ◌≡◌, refl, ◌∙◌, ap, subst, true, Option, none, some, if◌then◌else◌, ◌>>=◌,
  List, [], ◌∷◌, ◌++◌, length, arith, Bool-cases, Option-cases, inl, inr,
}
use arity_arrays.Tries.Paths.Laws.{covers, Parts, append_nil, shorter_than}
use arity_arrays.Tries.Node.{Node, Edge, Children, node, get, read}
use arity_arrays.Tries.Lookups.{lookup, Changes}
use arity_arrays.Tries.Structure.{IsTrie, IsRoot}
use arity_arrays.Tries.Frames.{frames, descend, descend-get, close, opened}
use arity_arrays.Tries.Frames.Laws.{
  bottom, key_of, AreLinked, Changes-close, top-IsTrie, close-IsTrie,
}
use arity_arrays.Tries.Ops.Read.{get_value}
use arity_arrays.Tries.Ops.Read.Laws.{get_value-lookup}
use arity_arrays.Tries.Ops.Descent.{Split, split_of, below, whole, split_of-Finds}
use arity_arrays.Tries.Ops.Subtree.Inlined.{materialize_subtree-inlined}
use arity_arrays.Tries.Ops.Subtree.Laws.{inlined}
use arity_arrays.Tries.Ops.Remove.{unwind_remove}
use arity_arrays.Tries.Ops.Remove.Child.{IsCovered}
use arity_arrays.Tries.Ops.Remove.Unwind.{unwind_remove-Unwinds}
use arity_arrays.Tries.Ops.Prefix.{leaves, prefix_loop, remove_prefix}
use arity_arrays.Tries.Ops.Prefix.Absent.{path-IsCovered, missing-Changes, apart-Changes}

module _ {V H : Type 0} where
  -- What is left of a trie without the keys that start with the prefix.
  pub record Prunes (n : Node V H) (prefix : List ℕ) (root : Option (Node V H)) : Type 0 where
    pub updates :
        (k : List ℕ)
        → (root >>= λ n'. lookup n' k) ≡ (if covers true prefix k then none else lookup n k)
    pub is_root : IsRoot root

  abbrev Runs : Option (Option (Node V H)) → Node V H → List ℕ → Type 0
  Runs result n prefix = (root : Option (Node V H)) × (result ≡ some root) × Prunes n prefix root

  unchanged :
      (under : List (Node V H × ℕ)) (n : Node V H) (rest : List ℕ)
      → AreLinked under n
      → IsTrie (bottom under n)
      → Changes true rest none n n
      → Prunes (bottom under n) (key_of under rest) (some (close (opened under) n))
  unchanged under n rest linked h changes = record {
    updates = Changes-close true under n n rest none linked changes;
    is_root = close-IsTrie under n n linked h (top-IsTrie under n linked h);
  }

  leaves-Runs :
      (under : List (Node V H × ℕ)) (n : Node V H) (rest : List ℕ)
      → AreLinked under n
      → IsTrie (bottom under n)
      → IsCovered true rest n
      → Runs (leaves (frames (opened under) n)) (bottom under n) (key_of under rest)
  unfolding leaves unwind_remove
  leaves-Runs [] n rest linked h covered =
      let (run, is, same) = materialize_subtree-inlined n h in
      (
        none,
        rw run,
        record {
          updates = λ k. elim (Bool-cases (covers true rest k)) [
            | inl here ↦ rw here
            | inr there ↦ rw (there, covered k there)
          ];
          is_root = tt;
        },
      )
  leaves-Runs ((node p v cs, i) ∷ under) n rest linked h covered =
      let parent = node p v cs in
      let (run, is, same) =
        materialize_subtree-inlined n (top-IsTrie ((parent, i) ∷ under) n linked h) in
      let child = linked.0 in
      let (left, unwinds) =
        unwind_remove-Unwinds under p v cs i (inlined n) rest true child.edge
          (top-IsTrie under parent linked.1 h) child.present is
          (λ t other. rw (child.is_read, covered t other)) in
      (
        some (close (opened under) left.repaired),
        rw run (rw unwinds),
        record {
          updates =
              Changes-close true under parent left.repaired (p ++ (i ∷ rest)) none linked.1
                left.updates;
          is_root = close-IsTrie under parent left.repaired linked.1 h left.is_trie;
        },
      )

  abbrev follow :
      List (Node V H × ℕ)
      → Node V H
      → ℕ
      → List ℕ
      → ℕ
      → Option (Edge V H)
      → Option (Option (Node V H))
  unfolding prefix_loop
  follow under cur k q fuel none = some (some (close (opened under) cur))
  follow under cur k q fuel (some e) =
      descend (frames (opened under) cur) k >>= λ stack. prefix_loop fuel stack q

  step :
      (fuel : ℕ) (under : List (Node V H × ℕ)) (p rest : List ℕ) (v : Option V) (cs : Children V H)
      (s : List ℕ) (m : ℕ) (next : Option ℕ) (b a : Option (ℕ × List ℕ))
      → let split : Split = record { shared_len = m; key_next = next; above = a } in
        split_of rest (node p v cs) ≡ some split
        → below split rest ≡ some b
        → rest ≡ s ++ whole b
        → p ≡ s ++ whole a
        → Parts (whole b) (whole a)
        → AreLinked under (node p v cs)
        → IsTrie (bottom under (node p v cs))
        → ((e : Edge V H) (q : List ℕ) (k : ℕ)
            → length q < length (whole b)
            → get cs k ≡ some e
            → Runs
                (prefix_loop fuel (frames (opened ((node p v cs, k) ∷ under)) (read e)) q)
                (bottom under (node p v cs))
                (key_of under (p ++ (k ∷ q))))
        → Runs
            (prefix_loop (suc fuel) (frames (opened under) (node p v cs)) rest)
            (bottom under (node p v cs))
            (key_of under rest)
  unfolding prefix_loop
  step fuel under p rest v cs s m next none a is_split is_below is_rest is_path parts linked h
        deeper =
      let same : rest ≡ s = is_rest ∙ append_nil s in
      let (root, run, prunes) =
        leaves-Runs under (node p v cs) rest linked h
          (rw (same, is_path) (path-IsCovered s (whole a) v cs)) in
      (root, rw (is_split, is_below) run, prunes)
  step fuel under p rest v cs s m next (some (k, q)) (some (j, path)) is_split is_below is_rest
        is_path parts linked h deeper =
      (
        some (close (opened under) (node p v cs)),
        rw (is_split, is_below),
        unchanged under (node p v cs) rest linked h
            (rw (is_rest, is_path) (apart-Changes s k q j path v cs parts)),
      )
  step fuel under p rest v cs s m next (some (k, q)) none is_split is_below is_rest is_path parts
        linked h deeper =
      let same : p ≡ s = is_path ∙ append_nil s in
      elim (Option-cases (get cs k)) [
        | inl absent ↦ (
          some (close (opened under) (node p v cs)),
          rw (is_split, is_below) (ap (follow under (node p v cs) k q fuel) absent),
          unchanged under (node p v cs) rest linked h
              (rw (is_rest, ← same) (missing-Changes p v cs k q absent)),
        )
        | inr (e, present) ↦
            let (root, run, prunes) = deeper e q k (omega arith) present in
            (
              root,
              rw (is_split, is_below)
                  (ap (follow under (node p v cs) k q fuel) present
                    ∙ rw (descend-get under (node p v cs) k e present) run),
              subst (λ t. Prunes (bottom under (node p v cs)) (key_of under t) root)
                  (rw (is_rest, same)) prunes,
            )
      ]

  prefix_loop-Runs :
      (fuel : ℕ) (under : List (Node V H × ℕ)) (n : Node V H) (rest : List ℕ)
      → length rest < fuel
      → AreLinked under n
      → IsTrie (bottom under n)
      → Runs (prefix_loop fuel (frames (opened under) n) rest) (bottom under n) (key_of under rest)
  prefix_loop-Runs zero under n rest short linked h = absurd (omega arith)
  prefix_loop-Runs (suc fuel) under (node p v cs) rest short linked h =
      let f = split_of-Finds rest (node p v cs) in
      step fuel under p rest v cs f.s f.split.shared_len f.split.key_next f.key_below f.split.above
        f.is_split f.is_below f.is_rest f.is_path f.parts linked h
        (λ e q k shorter present.
          prefix_loop-Runs fuel ((node p v cs, k) ∷ under) (read e) q
            (shorter_than f.s (whole f.key_below) rest q fuel f.is_rest shorter short)
            (record { edge = e; present = present; is_read = refl }, linked) h)

  -- `remove_prefix` of a prefix, on a trie that satisfies the structural invariant or on none, neither
  -- panics nor runs out of fuel. `get` then reads none at each key that starts with the prefix, and at
  -- every other key what it read before; and what is left is none or a trie that satisfies the
  -- invariant.
  pub get_value-remove_prefix :
      (root : Option (Node V H)) (prefix : List ℕ)
      → IsRoot root
      → (root' : Option (Node V H)) × (remove_prefix root prefix ≡ some root')
        × ((k : List ℕ)
            → get_value root' k ≡ (if covers true prefix k then some none else get_value root k))
        × IsRoot root'
  unfolding remove_prefix
  get_value-remove_prefix none prefix h = (
    none,
    refl,
    (λ k.
        rw (get_value-lookup {V = V} {H = H} none k)
          (elim (Bool-cases (covers true prefix k)) [ inl here ↦ rw here | inr there ↦ rw there ])),
    tt,
  )
  get_value-remove_prefix (some n) prefix h =
      let (root', run, prunes) =
        prefix_loop-Runs (suc (length prefix)) [] n prefix (omega arith) tt h in
      (
        root',
        run,
        (λ k.
            rw (get_value-lookup root' k, get_value-lookup (some n) k, prunes.updates k)
              (elim (Bool-cases (covers true prefix k)) [
                | inl here ↦ rw here
                | inr there ↦ rw there
              ])),
        prunes.is_root,
      )
