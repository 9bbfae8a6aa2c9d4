-- ===== src/Tries/Lookups.antt =====
-- The map that a trie stands for, read off its structure, and how it changes with a child.
use arity_arrays.Common.{
  ℕ, ◌≡◌, refl, ap, fun_ext, subst, Option, none, some, ◌==◌, ==_iff, if◌then◌else◌, ◌>>=◌, List,
  [], ◌∷◌, ◌++◌, Bool-cases, inl, inr, Bool, false,
}
use arity_arrays.Tries.Paths.Laws.{
  covers, strip, strip-append, strip-update, bind_assoc, append_nil,
}
use arity_arrays.Tries.Node.{
  Node, Edge, Children, node, mem_edge, nil, cons, get, insert, read, inline, children, leaf,
  set_children, partial_path,
}
use arity_arrays.Tries.Node.Maps.{get-insert}

abbrev ending : {V : Type 0} → Option V → (ℕ → List ℕ → Option V) → List ℕ → Option V
ending v child [] = v
ending v child (i ∷ key) = child i key

module _ {V H : Type 0} where
  mutual
    -- The value that a trie holds for a key.
    pub lookup : Node V H → List ℕ → Option V
    lookup (node p v cs) key = strip p key >>= ending v (λ i rest. lookup_child cs i rest)

    lookup_child : Children V H → ℕ → List ℕ → Option V
    lookup_child nil i key = none
    lookup_child (cons j (mem_edge n hash) cs) i key =
        if j == i then lookup n key else lookup_child cs i key

  -- The value for what is left of a key after the partial path.
  abbrev pub after : Option V → Children V H → List ℕ → Option V
  after v cs [] = v
  after v cs (i ∷ key) = get cs i >>= λ e. lookup (read e) key

  lookup_child-get :
      (cs : Children V H) (i : ℕ) (key : List ℕ)
      → lookup_child cs i key ≡ (get cs i >>= λ e. lookup (read e) key)
  unfolding get lookup
  lookup_child-get nil i key = refl
  lookup_child-get (cons j (mem_edge n hash) cs) i key = elim (Bool-cases (j == i)) [
    | inl same ↦ rw same
    | inr other ↦ rw other (lookup_child-get cs i key)
  ]

  ending-after :
      (v : Option V) (cs : Children V H) (key : List ℕ)
      → ending v (λ i rest. lookup_child cs i rest) key ≡ after v cs key
  unfolding lookup
  ending-after v cs [] = refl
  ending-after v cs (i ∷ key) = lookup_child-get cs i key

  pub lookup-node :
      (p : List ℕ) (v : Option V) (cs : Children V H) (key : List ℕ)
      → lookup (node p v cs) key ≡ (strip p key >>= after v cs)
  unfolding lookup
  lookup-node p v cs key = ap (◌>>=◌ (strip p key)) (fun_ext (ending-after v cs))

  -- n' holds w for the key q, or for the keys that start with it, and elsewhere what n holds.
  abbrev pub Changes : Bool → List ℕ → Option V → Node V H → Node V H → Type 0
  Changes below q w n n' =
      (key : List ℕ) → lookup n' key ≡ (if covers below q key then w else lookup n key)

  abbrev pub Updates : List ℕ → Option V → Node V H → Node V H → Type 0
  Updates q w n n' = Changes false q w n n'

  -- The two tries hold the same values.
  abbrev pub Same : Node V H → Node V H → Type 0
  Same n n' = (key : List ℕ) → lookup n' key ≡ lookup n key

  -- The node with the child at i replaced by n, which is inline.
  abbrev pub set_child : Node V H → ℕ → Node V H → Node V H
  set_child parent i n = set_children parent (insert (children parent) i (inline n))

  set_child-after :
      (below : Bool) (v : Option V) (cs : Children V H) (i : ℕ) (n n' : Node V H) (q : List ℕ)
      (w : Option V) (e : Edge V H)
      → get cs i ≡ some e
      → read e ≡ n
      → Changes below q w n n'
      → (key : List ℕ)
      → after v (insert cs i (inline n')) key
        ≡ (if covers below (i ∷ q) key then w else after v cs key)
  set_child-after below v cs i n n' q w e at is u [] = refl
  set_child-after below v cs i n n' q w e at is u (j ∷ key) = elim (Bool-cases (i == j)) [
    | inl same ↦
        let eq = (==_iff i j).0 same in
        rw (get-insert cs i (inline n') j, same, u key, ← eq, at, is)
    | inr other ↦ rw (get-insert cs i (inline n') j, other)
  ]

  -- An update of a child is an update of its parent.
  pub Changes-set_child :
      (below : Bool) (parent : Node V H) (i : ℕ) (n n' : Node V H) (q : List ℕ) (w : Option V)
      (e : Edge V H)
      → get (children parent) i ≡ some e
      → read e ≡ n
      → Changes below q w n n'
      → Changes below (partial_path parent ++ (i ∷ q)) w parent (set_child parent i n')
  Changes-set_child below (node p v cs) i n n' q w e at is u key =
      rw (lookup-node p v (insert cs i (inline n')) key, lookup-node p v cs key)
        (strip-update below p (i ∷ q) key w (after v (insert cs i (inline n'))) (after v cs)
          (set_child-after below v cs i n n' q w e at is u))

  after-Same :
      (v : Option V) (cs : Children V H) (i : ℕ) (n' : Node V H) (e : Edge V H)
      → get cs i ≡ some e
      → Same (read e) n'
      → (key : List ℕ) → after v (insert cs i (inline n')) key ≡ after v cs key
  after-Same v cs i n' e at u [] = refl
  after-Same v cs i n' e at u (j ∷ key) = elim (Bool-cases (i == j)) [
    | inl same ↦
        let eq = (==_iff i j).0 same in rw (get-insert cs i (inline n') j, same, u key, ← eq, at)
    | inr other ↦ rw (get-insert cs i (inline n') j, other)
  ]

  -- A child that holds the same values leaves its parent the same.
  pub Same-set_child :
      (parent : Node V H) (i : ℕ) (n' : Node V H) (e : Edge V H)
      → get (children parent) i ≡ some e
      → Same (read e) n'
      → Same parent (set_child parent i n')
  Same-set_child (node p v cs) i n' e at u key =
      rw (lookup-node p v (insert cs i (inline n')) key, lookup-node p v cs key)
        (ap (◌>>=◌ (strip p key)) (fun_ext (after-Same v cs i n' e at u)))

  -- A node whose path goes on beyond s, seen from s.
  abbrev pub sunk : ℕ → List ℕ → Option V → Children V H → List ℕ → Option V
  sunk i path v cs t = strip (i ∷ path) t >>= after v cs

  pub lookup-sunk :
      (s : List ℕ) (i : ℕ) (path : List ℕ) (v : Option V) (cs : Children V H) (key : List ℕ)
      → lookup (node (s ++ (i ∷ path)) v cs) key ≡ (strip s key >>= sunk i path v cs)
  lookup-sunk s i path v cs key =
      rw (lookup-node (s ++ (i ∷ path)) v cs key, strip-append s (i ∷ path) key)
        (bind_assoc (strip s key) (strip (i ∷ path)) (after v cs))

  pub set_value-Updates :
      (p : List ℕ) (v : Option V) (cs : Children V H) (w : Option V)
      → Updates p w (node p v cs) (node p w cs)
  set_value-Updates p v cs w key =
      rw (lookup-node p w cs key, lookup-node p v cs key)
        (subst
          (λ q.
            (strip p key >>= after w cs)
            ≡ (if covers false q key then w else (strip p key >>= after v cs)))
          (append_nil p) (strip-update false p [] key w (after w cs) (after v cs) at_end))
    where
      at_end : (t : List ℕ) → after w cs t ≡ (if covers false [] t then w else after v cs t)
      at_end [] = refl
      at_end (j ∷ t) = refl

-- A leaf holds its value at its path only.
pub lookup-leaf :
    {V : Type 0} (H : Type 0) (path : List ℕ) (w : V) (key : List ℕ)
    → lookup {V = V} {H = H} (leaf path w) key ≡ (if covers false path key then some w else none)
unfolding get
lookup-leaf {V} H path w key = rw (lookup-node path (some w) nil key) (at_leaf path key)
  where
    at_leaf :
        (path key : List ℕ)
        → (strip path key >>= after {V = V} {H = H} (some w) nil)
          ≡ (if covers false path key then some w else none)
    at_leaf [] [] = refl
    at_leaf [] (j ∷ key) = refl
    at_leaf (x ∷ path) [] = refl
    at_leaf (x ∷ path) (y ∷ key) = elim (Bool-cases (x == y)) [
      | inl same ↦ rw same (at_leaf path key)
      | inr other ↦ rw other
    ]
