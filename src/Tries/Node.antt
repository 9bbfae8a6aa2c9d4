-- ===== src/Tries/Node.antt =====
-- crates/arity-tries/src/node.rs, memory.rs and children.rs: nodes, the edges of the in-memory
-- store, and the child maps. A child map is the list of its entries in ascending order, which is
-- what the three arrays stand for and iterate over. The hash type is that of the store.
pub mod Maps
pub mod Counts
use arity_arrays.Common.{
  ℕ, zero, suc, Bool, true, false, Option, none, some, ◌==◌, ltb, if◌then◌else◌, List, [],
}

mutual
  pub data Node (V H : Type 0) : Type 0 where
    node : List ℕ → Option V → Children V H → Node V H

  -- `MemEdge`: a boxed node, and its hash if it is sealed.
  pub data Edge (V H : Type 0) : Type 0 where
    mem_edge : Node V H → Option H → Edge V H

  pub data Children (V H : Type 0) : Type 0 where
    nil : Children V H
    cons : ℕ → Edge V H → Children V H → Children V H

module _ {V H : Type 0} where
  abbrev pub partial_path : Node V H → List ℕ
  partial_path (node path value children) = path

  abbrev pub value : Node V H → Option V
  value (node path v children) = v

  abbrev pub children : Node V H → Children V H
  children (node path v cs) = cs

  abbrev pub leaf : List ℕ → V → Node V H
  leaf path v = node path (some v) nil

  abbrev pub set_partial_path : Node V H → List ℕ → Node V H
  set_partial_path (node path v cs) path' = node path' v cs

  abbrev pub set_value : Node V H → Option V → Node V H
  set_value (node path v cs) v' = node path v' cs

  abbrev pub set_children : Node V H → Children V H → Node V H
  set_children (node path v cs) cs' = node path v cs'

  -- `EdgeStore` of `InMemory`, whose errors are impossible.
  abbrev pub read : Edge V H → Node V H
  read (mem_edge n hash) = n

  abbrev pub as_inline : Edge V H → Option (Node V H)
  as_inline (mem_edge n none) = some n
  as_inline (mem_edge n (some hash)) = none

  -- The edge afterwards; the node is changed through it.
  abbrev pub materialize : Edge V H → Edge V H
  materialize (mem_edge n hash) = mem_edge n none

  -- The edge after its node was changed in place: its hash stays as it is.
  abbrev pub with_node : Edge V H → Node V H → Edge V H
  with_node (mem_edge old hash) n = mem_edge n hash

  abbrev pub inline : Node V H → Edge V H
  inline n = mem_edge n none

  abbrev pub seal : Edge V H → H → Edge V H
  seal (mem_edge n hash) h = mem_edge n (some h)

  abbrev pub hash : Edge V H → Option H
  hash (mem_edge n h) = h

  -- `ChildMap`: the map afterwards. What `insert` and `remove` return besides is what `get` reads
  -- before.
  unfoldable pub get : Children V H → ℕ → Option (Edge V H)
  get nil i = none
  get (cons j e cs) i = if j == i then some e else get cs i

  unfoldable pub insert : Children V H → ℕ → Edge V H → Children V H
  insert nil i e = cons i e nil
  insert (cons j d cs) i e =
      let rest = insert cs i e in
      if j == i then cons i e cs else (if ltb i j then cons i e (cons j d cs) else cons j d rest)

  -- The map after the node at i was changed in place.
  unfoldable pub write : Children V H → ℕ → Node V H → Children V H
  write nil i n = nil
  write (cons j e cs) i n =
      let rest = write cs i n in if j == i then cons j (with_node e n) cs else cons j e rest

  unfoldable pub remove : Children V H → ℕ → Children V H
  remove nil i = nil
  remove (cons j d cs) i = let rest = remove cs i in if j == i then cs else cons j d rest

  unfoldable pub count : Children V H → ℕ
  count nil = 0
  count (cons j d cs) = suc (count cs)

  unfoldable pub is_empty : Children V H → Bool
  is_empty nil = true
  is_empty (cons j d cs) = false

  unfoldable pub take_only_child : Children V H → Option (ℕ × Edge V H)
  take_only_child (cons j d nil) = some (j, d)
  take_only_child nil = none
  take_only_child (cons j d (cons k e cs)) = none

  -- The first entry of `iter_present`.
  unfoldable pub first : Children V H → Option (ℕ × Edge V H)
  first nil = none
  first (cons j d cs) = some (j, d)

  -- `Node::is_leaf`
  unfoldable pub is_leaf : Node V H → Bool
  unfolding is_empty
  is_leaf n = is_empty (children n)

  abbrev pub default : Node V H
  default = node [] none nil
