-- ===== src/Tries/Structure.antt =====
-- The structural invariant that crates/arity-tries/src/validate.rs checks, as a predicate: a node
-- with no value has at least two children. With it stands what the type of a child map guarantees,
-- that its indices ascend.
use arity_arrays.Common.{
  ℕ, suc, ◌≤◌, ◌≡◌, Option, none, some, ◌==◌, ltb, List, arith, Bool-cases, inl, inr, ==_iff,
}
use arity_arrays.Tries.Node.{
  Node, Edge, Children, node, mem_edge, nil, cons, get, insert, remove, count, read, inline,
}
use arity_arrays.Tries.Node.Maps.{IsAscending}
use arity_arrays.Tries.Lookups.{set_child}

-- No violation at a node with this value and so many children.
abbrev pub Settled : {V : Type 0} → Option V → ℕ → Type 0
Settled none n = 2 ≤ n
Settled (some v) n = Unit

module _ {V H : Type 0} where
  unfoldable mutual
    pub IsTrie : Node V H → Type 0
    IsTrie (node p v cs) = Settled v (count cs) × AreTries 0 cs

    -- The indices ascend from lo on, and each child is a trie.
    pub AreTries : ℕ → Children V H → Type 0
    AreTries lo nil = Unit
    AreTries lo (cons j (mem_edge n hash) cs) = (lo ≤ j) × IsTrie n × AreTries (suc j) cs

  pub parts_of :
      (p : List ℕ) (v : Option V) (cs : Children V H)
      → IsTrie (node p v cs)
      → Settled v (count cs) × AreTries 0 cs
  unfolding IsTrie
  parts_of p v cs h = h

  pub IsTrie-of :
      (p : List ℕ) (v : Option V) (cs : Children V H)
      → Settled v (count cs)
      → AreTries 0 cs
      → IsTrie (node p v cs)
  unfolding IsTrie
  IsTrie-of p v cs settled tries = (settled, tries)

  pub tries_of :
      (lo j : ℕ) (n : Node V H) (hash : Option H) (cs : Children V H)
      → AreTries lo (cons j (mem_edge n hash) cs)
      → (lo ≤ j) × IsTrie n × AreTries (suc j) cs
  unfolding IsTrie
  tries_of lo j n hash cs h = h

  pub get-IsTrie :
      (lo : ℕ) (cs : Children V H) (i : ℕ) (e : Edge V H)
      → AreTries lo cs
      → get cs i ≡ some e
      → IsTrie (read e)
  unfolding IsTrie get
  get-IsTrie lo nil i e h present = cc
  get-IsTrie lo (cons j (mem_edge n hash) cs) i e h present = elim (Bool-cases (j == i)) [
    | inl same ↦
        let found = rw same at present in let is : mem_edge n hash ≡ e = cc in rw (← is) h.1
    | inr other ↦ get-IsTrie (suc j) cs i e h.2 (rw other at present)
  ]

  pub insert-AreTries :
      (lo : ℕ) (cs : Children V H) (i : ℕ) (n : Node V H)
      → AreTries lo cs
      → lo ≤ i
      → IsTrie n
      → AreTries lo (insert cs i (inline n))
  unfolding IsTrie insert
  insert-AreTries lo nil i n h le is = (le, is, tt)
  insert-AreTries lo (cons j (mem_edge m hash) cs) i n h le is = elim (Bool-cases (j == i)) [
    | inl same ↦ let eq = (==_iff j i).0 same in rw same (le, is, rw eq at h.2)
    | inr other ↦ elim (Bool-cases (ltb i j)) [
      | inl less ↦ let lt : suc i ≤ j = ground arith in rw (other, less) (le, is, (lt, h.1, h.2))
      | inr more ↦
          let lt : suc j ≤ i = ground arith in
          rw (other, more) (h.0, h.1, insert-AreTries (suc j) cs i n h.2 lt is)
    ]
  ]

  pub count-insert : (cs : Children V H) (i : ℕ) (e : Edge V H) → count cs ≤ count (insert cs i e)
  unfolding insert count
  count-insert nil i e = omega arith
  count-insert (cons j d cs) i e = ground (arith, count-insert cs i e)

  pub Settled-insert :
      (v : Option V) (cs : Children V H) (i : ℕ) (e : Edge V H)
      → Settled v (count cs)
      → Settled v (count (insert cs i e))
  Settled-insert none cs i e h = let more = count-insert cs i e in omega arith
  Settled-insert (some v) cs i e h = tt

  -- A trie with a child replaced or added is a trie.
  pub set_child-IsTrie :
      (p : List ℕ) (v : Option V) (cs : Children V H) (i : ℕ) (n : Node V H)
      → IsTrie (node p v cs)
      → IsTrie n
      → IsTrie (set_child (node p v cs) i n)
  set_child-IsTrie p v cs i n h is =
      let (settled, tries) = parts_of p v cs h in
      IsTrie-of p v (insert cs i (inline n)) (Settled-insert v cs i (inline n) settled)
        (insert-AreTries 0 cs i n tries (omega arith) is)

  pub ascending : (lo : ℕ) (cs : Children V H) → AreTries lo cs → IsAscending lo cs
  unfolding IsTrie
  ascending lo nil h = tt
  ascending lo (cons j (mem_edge n hash) cs) h = (h.0, ascending (suc j) cs h.2)

  weaken-AreTries : (lo hi : ℕ) (cs : Children V H) → lo ≤ hi → AreTries hi cs → AreTries lo cs
  unfolding IsTrie
  weaken-AreTries lo hi nil le h = tt
  weaken-AreTries lo hi (cons j (mem_edge n hash) cs) le h =
      let first = h.0 in let more : lo ≤ j = omega arith in (more, h.1, h.2)

  pub remove-AreTries :
      (lo : ℕ) (cs : Children V H) (i : ℕ) → AreTries lo cs → AreTries lo (remove cs i)
  unfolding IsTrie remove
  remove-AreTries lo nil i h = tt
  remove-AreTries lo (cons j (mem_edge n hash) cs) i h = elim (Bool-cases (j == i)) [
    | inl same ↦
        let first = h.0 in
        let le : lo ≤ suc j = omega arith in rw same (weaken-AreTries lo (suc j) cs le h.2)
    | inr other ↦ rw other (h.0, h.1, remove-AreTries (suc j) cs i h.2)
  ]

  -- The partial path is free.
  pub moved :
      (p q : List ℕ) (v : Option V) (cs : Children V H)
      → IsTrie (node p v cs)
      → IsTrie (node q v cs)
  moved p q v cs h = let (settled, tries) = parts_of p v cs h in IsTrie-of q v cs settled tries

pub nil-AreTries : (V H : Type 0) (lo : ℕ) → AreTries {V = V} {H = H} lo nil
unfolding IsTrie
nil-AreTries V H lo = tt

-- The invariant of a root, which may be missing.
abbrev pub IsRoot : {V H : Type 0} → Option (Node V H) → Type 0
IsRoot none = Unit
IsRoot (some n) = IsTrie n
