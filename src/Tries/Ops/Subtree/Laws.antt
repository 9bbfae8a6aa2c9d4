-- ===== src/Tries/Ops/Subtree/Laws.antt =====
-- Materializing a subtree makes all edges below a node inline, and changes nothing else.
use arity_arrays.Common.{
  ℕ, suc, ◌+◌, ◌<◌, ◌≤◌, ◌≡◌, refl, sym, ◌∙◌, ap, false, Option, some, ◌==◌, ltb, ==_iff, List, [],
  ◌∷◌, arith,
}
use arity_arrays.Tries.Node.{
  Node, Edge, Children, node, mem_edge, nil, cons, children, set_children, get, insert, write,
  inline,
}
use arity_arrays.Tries.Structure.{IsTrie, AreTries, parts_of, tries_of}
use arity_arrays.Tries.Ops.Subtree.{
  present, Visits, visit, rounds, rounds_below, materialize_subtree,
}

module _ {V H : Type 0} where
  unfoldable mutual
    -- The node with all edges below it inline.
    pub inlined : Node V H → Node V H
    inlined (node p v cs) = node p v (inlined_below cs)

    pub inlined_below : Children V H → Children V H
    inlined_below nil = nil
    inlined_below (cons j (mem_edge n hash) cs) = cons j (inline (inlined n)) (inlined_below cs)

  abbrev join : Children V H → Children V H → Children V H
  join nil cs = cs
  join (cons j e pre) cs = cons j e (join pre cs)

  join-cons :
      (pre : Children V H) (j : ℕ) (e : Edge V H) (cs : Children V H)
      → join (join pre (cons j e nil)) cs ≡ join pre (cons j e cs)
  join-cons nil j e cs = refl
  join-cons (cons k d pre) j e cs = ap (cons k d) (join-cons pre j e cs)

  -- All indices are below a limit.
  abbrev AreBelow : ℕ → Children V H → Type 0
  AreBelow i nil = Unit
  AreBelow i (cons j e cs) = (j < i) × AreBelow i cs

  below-join :
      (i lo : ℕ) (pre : Children V H) (e : Edge V H)
      → AreBelow i pre
      → i < lo
      → AreBelow lo (join pre (cons i e nil))
  below-join i lo nil e h lt = (lt, tt)
  below-join i lo (cons j d pre) e h lt =
      let first = h.0 in let more : j < lo = omega arith in (more, below-join i lo pre e h.1 lt)

  weaken : (i lo : ℕ) (pre : Children V H) → AreBelow i pre → i ≤ lo → AreBelow lo pre
  weaken i lo nil h le = tt
  weaken i lo (cons j d pre) h le =
      let first = h.0 in let more : j < lo = omega arith in (more, weaken i lo pre h.1 le)

  get-join :
      (i : ℕ) (pre : Children V H) (e : Edge V H) (cs : Children V H)
      → AreBelow i pre
      → get (join pre (cons i e cs)) i ≡ some e
  unfolding get
  get-join i nil e cs h = rw ((==_iff i i).1 refl)
  get-join i (cons j d pre) e cs h =
      let first = h.0 in
      let other : (j == i) ≡ false = ground arith in rw other (get-join i pre e cs h.1)

  insert-join :
      (i : ℕ) (pre : Children V H) (e d : Edge V H) (cs : Children V H)
      → AreBelow i pre
      → insert (join pre (cons i e cs)) i d ≡ join pre (cons i d cs)
  unfolding insert
  insert-join i nil e d cs h = rw ((==_iff i i).1 refl)
  insert-join i (cons j c pre) e d cs h =
      let first = h.0 in
      let other : (j == i) ≡ false = ground arith in
      let past : ltb i j ≡ false = ground arith in
      rw (other, past) (ap (cons j c) (insert-join i pre e d cs h.1))

  write-join :
      (i : ℕ) (pre : Children V H) (n n' : Node V H) (cs : Children V H)
      → AreBelow i pre
      → write (join pre (cons i (inline n) cs)) i n' ≡ join pre (cons i (inline n') cs)
  unfolding write
  write-join i nil n n' cs h = rw ((==_iff i i).1 refl)
  write-join i (cons j c pre) n n' cs h =
      let first = h.0 in
      let other : (j == i) ≡ false = ground arith in
      rw other (ap (cons j c) (write-join i pre n n' cs h.1))

  -- What the loop does after a node is done, with fuel k left.
  abbrev resume : ℕ → Visits V H → Node V H → Option (Node V H)
  unfolding visit
  resume k [] n = some n
  resume k ((parent, i, remaining) ∷ under) n =
      visit k under (set_children parent (write (children parent) i n)) remaining

  popped : (k : ℕ) (under : Visits V H) (n : Node V H) → visit (suc k) under n [] ≡ resume k under n
  unfolding visit resume
  popped k [] n = refl
  popped k ((parent, i, remaining) ∷ under) n = refl

  pushed :
      (k : ℕ) (under : Visits V H) (cur : Node V H) (i : ℕ) (remaining : List ℕ) (n : Node V H)
      (hash : Option H)
      → get (children cur) i ≡ some (mem_edge n hash)
      → visit (suc k) under cur (i ∷ remaining)
        ≡ visit k
            ((set_children cur (insert (children cur) i (inline n)), i, remaining) ∷ under)
            n
            (present (children n))
  unfolding visit
  pushed k [] cur i remaining n hash at = rw at
  pushed k ((parent, j, others) ∷ under) cur i remaining n hash at = rw at

  mutual
    unfolding rounds inlined resume

    visit-node :
        (n : Node V H) (fuel k : ℕ) (under : Visits V H)
        → fuel ≡ rounds n + k
        → IsTrie n
        → visit fuel under n (present (children n)) ≡ resume k under (inlined n)
    visit-node (node p v cs) fuel k under enough h =
        visit-below cs nil 0 p v fuel k under enough tt (parts_of p v cs h).1

    visit-below :
        (cs pre : Children V H) (lo : ℕ) (p : List ℕ) (v : Option V) (fuel k : ℕ)
        (under : Visits V H)
        → fuel ≡ suc (rounds_below cs) + k
        → AreBelow lo pre
        → AreTries lo cs
        → visit fuel under (node p v (join pre cs)) (present cs)
          ≡ resume k under (node p v (join pre (inlined_below cs)))
    visit-below nil pre lo p v fuel k under enough h tries =
        let eq : fuel ≡ suc k = omega arith in rw eq (popped k under (node p v (join pre nil)))
    visit-below (cons j (mem_edge n hash) cs) pre lo p v fuel k under enough h tries =
        let (le, is, rest) = tries_of lo j n hash cs tries in
        let low = weaken lo j pre h le in
        let left = suc (rounds_below cs) + k in
        let eq : fuel ≡ suc (rounds n + left) = omega arith in
        let here = node p v (join pre (cons j (mem_edge n hash) cs)) in
        let opened = node p v (join pre (cons j (inline n) cs)) in
        rw eq (
          pushed (rounds n + left) under here j (present cs) n hash
            (get-join j pre (mem_edge n hash) cs low)
          ∙ ap
              (λ all.
                visit (rounds n + left) ((node p v all, j, present cs) ∷ under) n
                  (present (children n)))
              (insert-join j pre (mem_edge n hash) (inline n) cs low)
          ∙ visit-node n (rounds n + left) left ((opened, j, present cs) ∷ under) refl is
          ∙ ap (λ all. visit left under (node p v all) (present cs))
              (write-join j pre n (inlined n) cs low
                ∙ sym (join-cons pre j (inline (inlined n)) cs))
          ∙ visit-below cs (join pre (cons j (inline (inlined n)) nil)) (suc j) p v left k under
              refl (below-join j (suc j) pre (inline (inlined n)) low (omega arith)) rest
          ∙ ap (λ all. resume k under (node p v all))
              (join-cons pre j (inline (inlined n)) (inlined_below cs)))

  pub materialize_subtree_lem : (n : Node V H) → IsTrie n → materialize_subtree n ≡ some (inlined n)
  unfolding materialize_subtree rounds resume
  materialize_subtree_lem n h = visit-node n (rounds n) 0 [] (omega arith) h
