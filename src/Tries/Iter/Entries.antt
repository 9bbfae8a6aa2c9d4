-- ===== src/Tries/Iter/Entries.antt =====
-- The entries of a trie, in the order of the walk, and the map that they make up.
use arity_arrays.Common.{
  ℕ, suc, ◌≡◌, refl, sym, ◌∙◌, ap, false, Option, none, some, ◌>>=◌, ◌==◌, if◌then◌else◌, List, [],
  ◌∷◌, ◌++◌, arith, Bool-cases, inl, inr, or_else, or_else-none, or_else_assoc,
}
use arity_arrays.Tries.Paths.Laws.{covers, strip}
use arity_arrays.Tries.Node.{Node, Children, node, mem_edge, nil, cons, partial_path, value, get}
use arity_arrays.Tries.Node.Maps.{IsAscending, get-below}
use arity_arrays.Tries.Lookups.{lookup, lookup-node, after}
use arity_arrays.Tries.Walk.Order.{preorder, preorder_below, IsOrdered, AreOrdered, ascending}

-- The value of a key in a list of entries.
abbrev pub find : {V : Type 0} → List (List ℕ × V) → List ℕ → Option V
find [] key = none
find ((path, v) ∷ entries) key = if covers false path key then some v else find entries key

find-append :
    {V : Type 0}
    → (xs ys : List (List ℕ × V)) (key : List ℕ)
    → find (xs ++ ys) key ≡ or_else (find xs key) (find ys key)
find-append [] ys key = refl
find-append ((path, v) ∷ xs) ys key = elim (Bool-cases (covers false path key)) [
  | inl here ↦ rw here
  | inr there ↦ rw there (find-append xs ys key)
]

abbrev pub entry : {V : Type 0} → List ℕ → Option V → List (List ℕ × V) → List (List ℕ × V)
entry path none rest = rest
entry path (some v) rest = (path, v) ∷ rest

pub entry-append :
    {V : Type 0}
    → (path : List ℕ) (v : Option V) (xs ys : List (List ℕ × V))
    → entry path v (xs ++ ys) ≡ entry path v xs ++ ys
entry-append path none xs ys = refl
entry-append path (some v) xs ys = refl

find-entry :
    {V : Type 0}
    → (path : List ℕ) (v : Option V) (rest : List (List ℕ × V)) (key : List ℕ)
    → find (entry path v rest) key
      ≡ or_else (if covers false path key then v else none) (find rest key)
find-entry path none rest key = elim (Bool-cases (covers false path key)) [
  | inl here ↦ rw here
  | inr there ↦ rw there
]
find-entry path (some v) rest key = elim (Bool-cases (covers false path key)) [
  | inl here ↦ rw here
  | inr there ↦ rw there
]

module _ {V H : Type 0} where
  -- The nodes with a value, of a list of nodes.
  abbrev pub valued : List (List ℕ × Node V H) → List (List ℕ × V)
  valued [] = []
  valued ((path, n) ∷ xs) = entry path (value n) (valued xs)

  pub valued-append :
      (xs ys : List (List ℕ × Node V H)) → valued (xs ++ ys) ≡ valued xs ++ valued ys
  valued-append [] ys = refl
  valued-append ((path, n) ∷ xs) ys =
      ap (entry path (value n)) (valued-append xs ys)
      ∙ entry-append path (value n) (valued xs) (valued ys)

  -- The value at a node's path, or one below it.
  here_or_below :
      (q : List ℕ) (v : Option V) (cs : Children V H) (key : List ℕ)
      → or_else (if covers false q key then v else none) (strip q key >>= after none cs)
        ≡ (strip q key >>= after v cs)
  here_or_below [] v cs [] = or_else-none v
  here_or_below [] v cs (y ∷ key) = refl
  here_or_below (x ∷ q) v cs [] = refl
  here_or_below (x ∷ q) v cs (y ∷ key) = elim (Bool-cases (x == y)) [
    | inl same ↦ rw same (here_or_below q v cs key)
    | inr other ↦ rw other
  ]

  -- The value below a child, or one below those after it.
  first_or_later :
      (path : List ℕ) (j : ℕ) (p : List ℕ) (v : Option V) (cm : Children V H) (hash : Option H)
      (cs : Children V H) (key : List ℕ)
      → IsAscending (suc j) cs
      → or_else (strip (path ++ (j ∷ p)) key >>= after v cm) (strip path key >>= after none cs)
        ≡ (strip path key >>= after none (cons j (mem_edge (node p v cm) hash) cs))
  unfolding get
  first_or_later [] j p v cm hash cs [] asc = refl
  first_or_later [] j p v cm hash cs (i ∷ key) asc = elim (Bool-cases (j == i)) [
    | inl same ↦
        let absent = get-below (suc j) cs i asc (ground arith) in
        rw (same, absent) (or_else-none _ ∙ sym (lookup-node p v cm key))
    | inr other ↦ rw other
  ]
  first_or_later (x ∷ path) j p v cm hash cs [] asc = refl
  first_or_later (x ∷ path) j p v cm hash cs (y ∷ key) asc = elim (Bool-cases (x == y)) [
    | inl same ↦ rw same (first_or_later path j p v cm hash cs key asc)
    | inr other ↦ rw other
  ]

  find-below :
      (cs : Children V H) (lo : ℕ) (path key : List ℕ)
      → AreOrdered lo cs
      → find (valued (preorder_below path cs)) key ≡ (strip path key >>= after none cs)
  unfolding preorder IsOrdered get
  find-below nil lo path key ordered = none_at (strip path key)
    where
      none_at : (rest : Option (List ℕ)) → none ≡ (rest >>= after {V = V} {H = H} none nil)
      none_at none = refl
      none_at (some []) = refl
      none_at (some (i ∷ t)) = refl
  find-below (cons j (mem_edge (node p v cm) hash) cs) lo path key ordered =
      let full = path ++ (j ∷ p) in
      let deep = find-below cm 0 full key ordered.1 in
      let later = find-below cs (suc j) path key ordered.2 in
      find-entry full v (valued (preorder_below full cm ++ preorder_below path cs)) key
      ∙ ap (or_else (if covers false full key then v else none)) (
          ap (λ xs. find xs key) (valued-append (preorder_below full cm) (preorder_below path cs))
          ∙ find-append (valued (preorder_below full cm)) (valued (preorder_below path cs)) key
          ∙ rw (deep, later))
      ∙ or_else_assoc (if covers false full key then v else none) (strip full key >>= after none cm)
          (strip path key >>= after none cs)
      ∙ ap (λ r. or_else r (strip path key >>= after none cs)) (here_or_below full v cm key)
      ∙ first_or_later path j p v cm hash cs key (ascending (suc j) cs ordered.2)

  -- The entries make up the map that the trie stands for.
  pub find-lookup :
      (n : Node V H) (key : List ℕ)
      → IsOrdered n
      → find (valued (preorder (partial_path n) n)) key ≡ lookup n key
  unfolding preorder IsOrdered
  find-lookup (node p v cs) key ordered =
      find-entry p v (valued (preorder_below p cs)) key
      ∙ ap (or_else (if covers false p key then v else none)) (find-below cs 0 p key ordered)
      ∙ here_or_below p v cs key
      ∙ sym (lookup-node p v cs key)
