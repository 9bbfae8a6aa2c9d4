-- ===== src/Tries/Walk/Order.antt =====
-- The walk from the beginning visits every node once, in pre-order, with its full path.
use arity_arrays.Common.{
  ℕ, suc, ◌≤◌, ◌≡◌, refl, ◌∙◌, ap, subst, Option, none, some, ◌==◌, ==_iff, List, [], ◌∷◌, ◌++◌,
  length, arith, Bool-cases, inl, inr, cons_inj, ap₂,
}
use mathlib.Core.List.{append_assoc, append-nil}
use arity_arrays.Tries.Node.{
  Node, Edge, Children, node, mem_edge, nil, cons, partial_path, children, get,
}
use arity_arrays.Tries.Node.Maps.{IsAscending, get-below}
use arity_arrays.Tries.Ops.Subtree.{present}
use arity_arrays.Tries.Ops.Subtree
use arity_arrays.Tries.Walk.{Walk, Visits, State, truncate, new, step, advance}

truncate-append :
    (p t b : List ℕ) → truncate (length (p ++ t)) b ≡ p ++ t → truncate (length p) b ≡ p
truncate-append [] t b h = refl
truncate-append (x ∷ p) t [] h = absurd (nil_cons h)
  where
    nil_cons : {x : ℕ} {xs : List ℕ} → [] ≡ x ∷ xs → ⊥
    nil_cons e = cc
truncate-append (x ∷ p) t (y ∷ b) h =
    let (head, tail) = cons_inj h in ap₂ ◌∷◌ head (truncate-append p t b tail)

truncate_self : (p : List ℕ) → truncate (length p) p ≡ p
truncate_self [] = refl
truncate_self (x ∷ p) = ap (◌∷◌ x) (truncate_self p)

module _ {V H : Type 0} where
  unfoldable mutual
    -- A node with this full path and the nodes below it, each before its children, and in the order
    -- of the children.
    pub preorder : List ℕ → Node V H → List (List ℕ × Node V H)
    preorder path (node p v cs) = (path, node p v cs) ∷ preorder_below path cs

    pub preorder_below : List ℕ → Children V H → List (List ℕ × Node V H)
    preorder_below path nil = []
    preorder_below path (cons j (mem_edge n hash) cs) =
        preorder (path ++ (j ∷ partial_path n)) n ++ preorder_below path cs

  unfoldable mutual
    -- The indices of all child maps ascend, as the type of child maps guarantees.
    pub IsOrdered : Node V H → Type 0
    IsOrdered (node p v cs) = AreOrdered 0 cs

    pub AreOrdered : ℕ → Children V H → Type 0
    AreOrdered lo nil = Unit
    AreOrdered lo (cons j (mem_edge n hash) cs) = (lo ≤ j) × IsOrdered n × AreOrdered (suc j) cs

  -- Advancing the walk hands out the list, and then nothing.
  abbrev pub Yields : Walk V H → List (List ℕ × Node V H) → Type 0
  Yields w [] = (w' : Walk V H) × (advance w ≡ some (w', none))
  Yields w (x ∷ xs) = (w' : Walk V H) × (advance w ≡ some (w', some x)) × Yields w' xs

  abbrev walking : Visits V H → List ℕ → Walk V H
  walking frames buf = record {
    frames = frames;
    buf = buf;
    root = none;
    state = State.walking;
    start = none;
  }

  -- Two walks that advance alike hand out the same.
  Yields-alike :
      (w w' : Walk V H) (xs : List (List ℕ × Node V H))
      → advance w ≡ advance w'
      → Yields w' xs
      → Yields w xs
  Yields-alike w w' [] e (w'', run) = (w'', e ∙ run)
  Yields-alike w w' (x ∷ xs) e (w'', run, rest) = (w'', e ∙ run, rest)

  popped :
      (n : Node V H) (len : ℕ) (fs : Visits V H) (buf : List ℕ) (xs : List (List ℕ × Node V H))
      → Yields (walking fs buf) xs
      → Yields (walking ((n, len, []) ∷ fs) buf) xs
  unfolding advance step
  popped n len fs buf xs h =
      Yields-alike (walking ((n, len, []) ∷ fs) buf) (walking fs buf) xs refl h

  -- The walk goes on to the child at i.
  pushed :
      (n m : Node V H) (hash : Option H) (path : List ℕ) (i : ℕ) (remaining : List ℕ)
      (fs : Visits V H) (buf : List ℕ) (xs : List (List ℕ × Node V H))
      → truncate (length path) buf ≡ path
      → get (children n) i ≡ some (mem_edge m hash)
      → let below = path ++ (i ∷ partial_path m) in
        Yields
          (walking
            ((m, length below, present (children m)) ∷ (n, length path, remaining) ∷ fs)
            below)
          xs
        → Yields (walking ((n, length path, i ∷ remaining) ∷ fs) buf) ((below, m) ∷ xs)
  unfolding advance step
  pushed n m hash path i remaining fs buf xs at present h = (
    walking
        ((m, length (path ++ (i ∷ partial_path m)), Subtree.present (children m))
          ∷ (n, length path, remaining)
          ∷ fs)
        (path ++ (i ∷ partial_path m)),
    rw (present, at),
    h,
  )

  get_head : (j : ℕ) (e : Edge V H) (cs : Children V H) → get (cons j e cs) j ≡ some e
  unfolding get
  get_head j e cs = rw ((==_iff j j).1 refl)

  pub ascending : (lo : ℕ) (cs : Children V H) → AreOrdered lo cs → IsAscending lo cs
  unfolding AreOrdered
  ascending lo nil h = tt
  ascending lo (cons j (mem_edge n hash) cs) h = (h.0, ascending (suc j) cs h.2)

  get_later :
      (j i : ℕ) (d : Edge V H) (cs : Children V H) (e : Edge V H)
      → AreOrdered (suc j) cs
      → get cs i ≡ some e
      → get (cons j d cs) i ≡ some e
  unfolding get
  get_later j i d cs e ordered h = elim (Bool-cases (j == i)) [
    | inl same ↦
        let absent = get-below (suc j) cs i (ascending (suc j) cs ordered) (ground arith) in
        absurd cc
    | inr other ↦ rw other h
  ]

  -- The nodes below path, and then what the frames beneath hand out.
  below-Yields :
      (cs : Children V H) (lo : ℕ) (n : Node V H) (path : List ℕ) (fs : Visits V H) (buf : List ℕ)
      (xs : List (List ℕ × Node V H))
      → AreOrdered lo cs
      → ((i : ℕ) (e : Edge V H) → get cs i ≡ some e → get (children n) i ≡ some e)
      → truncate (length path) buf ≡ path
      → ((b : List ℕ) → truncate (length path) b ≡ path → Yields (walking fs b) xs)
      → Yields (walking ((n, length path, present cs) ∷ fs) buf) (preorder_below path cs ++ xs)
  unfolding preorder IsOrdered
  below-Yields nil lo n path fs buf xs ordered sub at next =
      popped n (length path) fs buf xs (next buf at)
  below-Yields (cons j (mem_edge (node p v cm) hash) cs) lo n path fs buf xs ordered sub at next =
      let m = node p v cm in
      let full = path ++ (j ∷ p) in
      pushed n m hash path j (present cs) fs buf
        ((preorder_below full cm ++ preorder_below path cs) ++ xs) at
        (sub j (mem_edge m hash) (get_head j (mem_edge m hash) cs))
        (rw (append_assoc (preorder_below full cm) (preorder_below path cs) xs) (
          below-Yields cm 0 m full ((n, length path, present cs) ∷ fs) full
            (preorder_below path cs ++ xs) ordered.1 (λ i e h. h) (truncate_self full)
            (λ b at'.
              below-Yields cs (suc j) n path fs b xs ordered.2
                (λ i e h. sub i e (get_later j i (mem_edge m hash) cs e ordered.2 h))
                (truncate-append path (j ∷ p) b at') next)))

  abbrev ended : List ℕ → Walk V H
  ended b = record { frames = []; buf = b; root = none; state = State.done; start = none }

  -- The walk from the beginning hands out every node of the trie once, in pre-order, with its full
  -- path, and then nothing: no step panics. The indices of all child maps have to ascend.
  pub new-Yields :
      (n : Node V H) → IsOrdered n → Yields (new (some n) none) (preorder (partial_path n) n)
  unfolding advance step preorder IsOrdered
  new-Yields (node p v cs) ordered = (
    walking ((node p v cs, length p, Subtree.present cs) ∷ []) p,
    refl,
    subst (Yields (walking ((node p v cs, length p, Subtree.present cs) ∷ []) p))
        (append-nil (preorder_below p cs))
        (below-Yields cs 0 (node p v cs) p [] p [] ordered (λ i e h. h) (truncate_self p)
          (λ b at. (ended b, refl))),
  )
