-- ===== src/Tries/Frames/Laws.antt =====
-- The stack and the trie that it stands in: what a change of the top node is to the whole.
use arity_arrays.Common.{ℕ, ◌≡◌, refl, sym, ◌∙◌, subst, Option, some, List, [], ◌∷◌, ◌++◌, Bool}
use arity_arrays.Tries.Paths.Laws.{strip_self}
use arity_arrays.Tries.Node.{Node, Edge, node, partial_path, children, get, read}
use arity_arrays.Tries.Lookups.{
  lookup, lookup-node, Changes, Same, set_child, Changes-set_child, Same-set_child,
}
use arity_arrays.Tries.Structure.{IsTrie, get-IsTrie, parts_of, set_child-IsTrie}
use arity_arrays.Tries.Frames.{close, opened, close-opened}

module _ {V H : Type 0} where
  -- The root, before any change.
  abbrev pub bottom : List (Node V H × ℕ) → Node V H → Node V H
  bottom [] cur = cur
  bottom ((parent, i) ∷ under) cur = bottom under parent

  -- The key from the root, with this rest at the top.
  abbrev pub key_of : List (Node V H × ℕ) → List ℕ → List ℕ
  key_of [] rest = rest
  key_of ((parent, i) ∷ under) rest = key_of under (partial_path parent ++ (i ∷ rest))

  -- The frame above is the child that the one below descended into.
  pub record IsChild (parent : Node V H) (i : ℕ) (cur : Node V H) : Type 0 where
    pub edge : Edge V H
    pub present : get (children parent) i ≡ some edge
    pub is_read : read edge ≡ cur

  abbrev pub AreLinked : List (Node V H × ℕ) → Node V H → Type 0
  AreLinked [] cur = Unit
  AreLinked ((parent, i) ∷ under) cur = IsChild parent i cur × AreLinked under parent

  lookup-child :
      (parent : Node V H) (i : ℕ) (cur : Node V H) (rest : List ℕ)
      → IsChild parent i cur
      → lookup parent (partial_path parent ++ (i ∷ rest)) ≡ lookup cur rest
  lookup-child (node p v cs) i cur rest child =
      rw (
        lookup-node p v cs (p ++ (i ∷ rest)),
        strip_self p (i ∷ rest),
        child.present,
        child.is_read,
      )

  pub lookup-key_of :
      (under : List (Node V H × ℕ)) (cur : Node V H) (rest : List ℕ)
      → AreLinked under cur
      → lookup (bottom under cur) (key_of under rest) ≡ lookup cur rest
  lookup-key_of [] cur rest linked = refl
  lookup-key_of ((parent, i) ∷ under) cur rest linked =
      lookup-key_of under parent (partial_path parent ++ (i ∷ rest)) linked.1
      ∙ lookup-child parent i cur rest linked.0

  pub Changes-close :
      (below : Bool) (under : List (Node V H × ℕ)) (cur cur' : Node V H) (q : List ℕ) (w : Option V)
      → AreLinked under cur
      → Changes below q w cur cur'
      → Changes below (key_of under q) w (bottom under cur) (close (opened under) cur')
  Changes-close below [] cur cur' q w linked u = u
  Changes-close below ((parent, i) ∷ under) cur cur' q w linked u =
      subst (λ m. Changes below (key_of ((parent, i) ∷ under) q) w (bottom under parent) m)
        (sym (close-opened under parent i linked.0.edge cur' linked.0.present))
        (Changes-close below under parent (set_child parent i cur') (partial_path parent ++ (i ∷ q))
          w linked.1
          (Changes-set_child below parent i cur cur' q w linked.0.edge linked.0.present
            linked.0.is_read u))

  pub Same-close :
      (under : List (Node V H × ℕ)) (cur cur' : Node V H)
      → AreLinked under cur
      → Same cur cur'
      → Same (bottom under cur) (close (opened under) cur')
  Same-close [] cur cur' linked u = u
  Same-close ((parent, i) ∷ under) cur cur' linked u =
      subst (λ m. Same (bottom under parent) m)
        (sym (close-opened under parent i linked.0.edge cur' linked.0.present))
        (Same-close under parent (set_child parent i cur') linked.1
          (Same-set_child parent i cur' linked.0.edge linked.0.present (rw linked.0.is_read u)))

  child-IsTrie :
      (parent : Node V H) (i : ℕ) (cur : Node V H)
      → IsChild parent i cur
      → IsTrie parent
      → IsTrie cur
  child-IsTrie (node p v cs) i cur child h =
      subst IsTrie child.is_read (get-IsTrie 0 cs i child.edge (parts_of p v cs h).1 child.present)

  pub top-IsTrie :
      (under : List (Node V H × ℕ)) (cur : Node V H)
      → AreLinked under cur
      → IsTrie (bottom under cur)
      → IsTrie cur
  top-IsTrie [] cur linked h = h
  top-IsTrie ((parent, i) ∷ under) cur linked h =
      child-IsTrie parent i cur linked.0 (top-IsTrie under parent linked.1 h)

  pub close-IsTrie :
      (under : List (Node V H × ℕ)) (cur cur' : Node V H)
      → AreLinked under cur
      → IsTrie (bottom under cur)
      → IsTrie cur'
      → IsTrie (close (opened under) cur')
  close-IsTrie [] cur cur' linked h is = is
  close-IsTrie ((node p v cs, i) ∷ under) cur cur' linked h is =
      subst IsTrie (sym (close-opened under (node p v cs) i linked.0.edge cur' linked.0.present)) (
        close-IsTrie under (node p v cs) (set_child (node p v cs) i cur') linked.1 h
          (set_child-IsTrie p v cs i cur' (top-IsTrie under (node p v cs) linked.1 h) is))
