-- ===== src/Tries/Ops/Remove/Laws.antt =====
-- Removal: what it returns, what lookups read afterwards, and that it keeps the structural invariant.
use arity_arrays.Common.{
  ℕ, suc, ◌≡◌, refl, sym, ◌∙◌, ap, subst, Bool, true, false, Option, none, some, if◌then◌else◌,
  ◌>>=◌, List, [], ◌∷◌, ◌++◌, length, arith, Bool-cases, inl, inr,
}
use arity_arrays.Tries.Paths.Laws.{covers, eq_of_covers, strip, strip_self, append_nil}
use arity_arrays.Tries.Node.{Node, Children, node, nil, cons, partial_path, count, leaf}
use arity_arrays.Tries.Lookups.{lookup, lookup-node, lookup-leaf, Updates, Same, set_value-Updates}
use arity_arrays.Tries.Structure.{IsTrie, IsRoot, parts_of, IsTrie-of}
use arity_arrays.Tries.Frames.{Frames, frames, close, opened}
use arity_arrays.Tries.Frames.Laws.{
  bottom, key_of, AreLinked, lookup-key_of, Changes-close, Same-close, top-IsTrie, close-IsTrie,
}
use arity_arrays.Tries.Ops.Remove.{recover, recover_edge, remove_found, remove_value, unwind_remove}
use arity_arrays.Tries.Ops.Remove.Descent.{descend_to-Reaches, Outcome}
use arity_arrays.Tries.Ops.Remove.Child.{clear_and_merge-Clears}
use arity_arrays.Tries.Ops.Remove.Unwind.{unwind_remove-Unwinds}

module _ {V H : Type 0} where
  -- The map after the removal of a key, and the value removed.
  pub record Removes (n : Node V H) (key : List ℕ) : Type 0 where
    pub root : Option (Node V H)
    pub old : Option V
    pub is_old : old ≡ lookup n key
    pub updates :
        (k : List ℕ)
        → (root >>= λ n'. lookup n' k) ≡ (if covers false key k then none else lookup n k)
    pub is_root : IsRoot root

  absent :
      (n n' : Node V H) (key : List ℕ) → lookup n key ≡ none → Same n n' → IsTrie n' → Removes n key
  absent n n' key none_at same is = record {
    root = some n';
    old = none;
    is_old = sym none_at;
    updates = λ k. same k ∙ elim (Bool-cases (covers false key k)) [
      | inl here ↦ let eq = eq_of_covers key k here in rw (here, ← eq, none_at)
      | inr there ↦ rw there
    ];
    is_root = is;
  }

  lookup_here : (p : List ℕ) (v : Option V) (cs : Children V H) → lookup (node p v cs) p ≡ v
  lookup_here p v cs =
      lookup-node p v cs p ∙ rw (ap (strip p) (sym (append_nil p)) ∙ strip_self p [])

  -- The root after a change of the top node at its key.
  closed :
      (under : List (Node V H × ℕ)) (p : List ℕ) (v : Option V) (cs : Children V H)
      (cur' : Node V H)
      → AreLinked under (node p v cs)
      → IsTrie (bottom under (node p v cs))
      → Updates p none (node p v cs) cur'
      → IsTrie cur'
      → Removes (bottom under (node p v cs)) (key_of under p)
  closed under p v cs cur' linked h updates is = record {
    root = some (close (opened under) cur');
    old = v;
    is_old = sym (lookup-key_of under (node p v cs) p linked ∙ lookup_here p v cs);
    updates = Changes-close false under (node p v cs) cur' p none linked updates;
    is_root = close-IsTrie under (node p v cs) cur' linked h is;
  }

  abbrev Completes : List (Node V H × ℕ) → Node V H → Type 0
  Completes under cur =
      (r : Removes (bottom under cur) (key_of under (partial_path cur))) × (remove_found
          (opened under) cur
        ≡ some (r.root, r.old))

  -- The leaf case.
  leaf-Completes :
      (under : List (Node V H × ℕ)) (p : List ℕ) (v : V)
      → AreLinked under (leaf p v)
      → IsTrie (bottom under (leaf p v))
      → Completes under (leaf p v)
  unfolding remove_found unwind_remove recover recover_edge count
  leaf-Completes [] p v linked h = (
    record {
      root = none;
      old = some v;
      is_old = sym (lookup_here p (some v) nil);
      updates = λ k.
          rw (lookup-leaf H p v k)
            (elim (Bool-cases (covers false p k)) [ inl here ↦ rw here | inr there ↦ rw there ]);
      is_root = tt;
    },
    refl,
  )
  leaf-Completes ((node pp pv pcs, i) ∷ under) p v linked h =
      let child = linked.0 in
      let (left, run) =
        unwind_remove-Unwinds under pp pv pcs i (leaf p v) p false child.edge
          (top-IsTrie under (node pp pv pcs) linked.1 h) child.present
          (top-IsTrie ((node pp pv pcs, i) ∷ under) (leaf p v) linked h)
          (λ t other. rw (child.is_read, lookup-leaf H p v t, other)) in
      (
        record {
          root = some (close (opened under) left.repaired);
          old = some v;
          is_old = sym (
              lookup-key_of ((node pp pv pcs, i) ∷ under) (leaf p v) p linked
              ∙ lookup_here p (some v) nil);
          updates =
              Changes-close false under (node pp pv pcs) left.repaired (pp ++ (i ∷ p)) none linked.1
                left.updates;
          is_root = close-IsTrie under (node pp pv pcs) left.repaired linked.1 h left.is_trie;
        },
        rw run,
      )

  remove_found-Completes :
      (under : List (Node V H × ℕ)) (cur : Node V H)
      → AreLinked under cur
      → IsTrie (bottom under cur)
      → Completes under cur
  unfolding remove_found count absent closed
  remove_found-Completes under (node p none cs) linked h = (
    absent (bottom under (node p none cs)) (close (opened under) (node p none cs)) (key_of under p)
        (lookup-key_of under (node p none cs) p linked ∙ lookup_here p none cs)
        (Same-close under (node p none cs) (node p none cs) linked (λ key. refl))
        (close-IsTrie under (node p none cs) (node p none cs) linked h
          (top-IsTrie under (node p none cs) linked h)),
    refl,
  )
  remove_found-Completes under (node p (some v) nil) linked h = leaf-Completes under p v linked h
  remove_found-Completes under (node p (some v) (cons j d nil)) linked h =
      let clears =
        clear_and_merge-Clears p v (cons j d nil)
          (top-IsTrie under (node p (some v) (cons j d nil)) linked h) refl in
      (
        closed under p (some v) (cons j d nil) clears.merged linked h clears.updates clears.is_trie,
        rw clears.runs,
      )
  remove_found-Completes under (node p (some v) (cons j d (cons k e cs))) linked h =
      let all = cons j d (cons k e cs) in
      let tries = (parts_of p (some v) all (top-IsTrie under (node p (some v) all) linked h)).1 in
      (
        closed under p (some v) all (node p none all) linked h
            (set_value-Updates p (some v) all none) (IsTrie-of p none all (omega arith) tries),
        refl,
      )

  -- What `remove` does with the end of the descent.
  abbrev finish : Option (Frames V H × Bool) → Option (Option (Node V H) × Option V)
  unfolding remove_value
  finish reached = reached >>= λ r. elim r.0 [
    | frames under cur ↦ if r.1 then remove_found under cur else some (some (close under cur), none)
  ]

  -- A removal of the key from n that ends so.
  abbrev Ends : Option (Option (Node V H) × Option V) → Node V H → List ℕ → Type 0
  Ends result n key = (r : Removes n key) × (result ≡ some (r.root, r.old))

  ended :
      (below : List (Node V H × ℕ)) (cur : Node V H) (found : Bool) (n : Node V H) (key : List ℕ)
      → AreLinked below cur
      → bottom below cur ≡ n
      → Outcome found below cur key
      → IsTrie n
      → Ends (finish (some (frames (opened below) cur, found))) n key
  unfolding absent finish
  ended below cur true n key linked root outcome h =
      subst (λ m. Ends (remove_found (opened below) cur) m key) root
        (subst (λ k. Ends (remove_found (opened below) cur) (bottom below cur) k) outcome
          (remove_found-Completes below cur linked (subst IsTrie (sym root) h)))
  ended below cur false n key linked root outcome h =
      let whole = subst IsTrie (sym root) h in
      subst (λ m. Ends (some (some (close (opened below) cur), none)) m key) root
        (
          absent (bottom below cur) (close (opened below) cur) key outcome
              (Same-close below cur cur linked (λ k. refl))
              (close-IsTrie below cur cur linked whole (top-IsTrie below cur linked whole)),
          refl,
        )

  pub remove_value-Removes :
      (n : Node V H) (key : List ℕ) → IsTrie n → Ends (remove_value (some n) key) n key
  unfolding remove_value
  remove_value-Removes n key h =
      let r = descend_to-Reaches (suc (length key)) [] n key (omega arith) tt in
      let (done, run) = ended r.below r.cur r.found n key r.linked r.same_root r.outcome h in
      (done, ap finish r.runs ∙ run)
