-- ===== src/Tries/Ops/Remove/Leaf.antt =====
-- A leaf leaves the trie, and its parent is repaired.
use arity_arrays.Common.{
  ℕ, suc, ◌≤◌, ◌≡◌, refl, ◌∙◌, false, Option, none, some, ◌==◌, ==_iff, if◌then◌else◌, List, ◌∷◌,
  ◌++◌, arith, Bool-cases, inl, inr, Bool,
}
use arity_arrays.Tries.Node.{
  Node, Edge, Children, node, nil, cons, get, insert, remove, count, read, inline,
}
use arity_arrays.Tries.Node.Maps.{get-insert, get-remove, IsAscending}
use arity_arrays.Tries.Node.Counts.{count-remove, count_insert_present}
use arity_arrays.Tries.Lookups.{Changes, set_child}
use arity_arrays.Tries.Structure.{
  IsTrie, AreTries, Settled, parts_of, IsTrie-of, get-IsTrie, insert-AreTries, remove-AreTries,
  ascending,
}
use arity_arrays.Tries.Ops.Remove.{materialize_at, remove_at, other_than, remove_and_merge}
use arity_arrays.Tries.Ops.Remove.Merge.{Merges, merge_only_child-Merges, materialize-inline}
use arity_arrays.Tries.Ops.Remove.Child.{IsCovered, child, child_removed, get_back}

module _ {V H : Type 0} where
  -- The survivor of two children.
  pub record Survives (cs : Children V H) (i : ℕ) : Type 0 where
    pub index : ℕ
    pub edge : Edge V H
    pub finds : other_than cs i ≡ some index
    pub present : get cs index ≡ some edge
    pub apart : (i == index) ≡ false

  pub other_than-Survives :
      (cs : Children V H) (i : ℕ) → IsAscending 0 cs → 2 ≤ count cs → Survives cs i
  unfolding other_than get count
  other_than-Survives nil i asc two = absurd (omega arith)
  other_than-Survives (cons a x nil) i asc two = absurd (omega arith)
  other_than-Survives (cons a x (cons b y cs)) i asc two = elim (Bool-cases (a == i)) [
    | inl same ↦
        let below = asc.1.0 in
        record {
          index = b;
          edge = y;
          finds = ground arith;
          present = ground arith;
          apart = ground arith;
        }
    | inr other ↦ record {
      index = a;
      edge = x;
      finds = rw other;
      present = rw ((==_iff a a).1 refl);
      apart = ground arith;
    }
  ]

  -- The parent after the child at i, which held what the path q covers only, has left.
  pub record Left (below : Bool) (p : List ℕ) (v0 : Option V) (cs : Children V H) (i : ℕ)
      (q : List ℕ) : Type 0 where
    pub repaired : Node V H
    pub updates : Changes below (p ++ (i ∷ q)) none (node p v0 cs) repaired
    pub is_trie : IsTrie repaired

  module _ (p : List ℕ) (v0 : Option V) (cs : Children V H) (i : ℕ) (cur : Node V H) (q : List ℕ)
      (below : Bool) (e : Edge V H) (h : IsTrie (node p v0 cs)) (at : get cs i ≡ some e)
      (is : IsTrie cur) (holds : IsCovered below q (read e)) where
    abbrev pub up : Children V H
    up = insert cs i (inline cur)

    abbrev pub gone : Children V H
    gone = remove up i

    tries : AreTries 0 cs
    tries = (parts_of p v0 cs h).1

    pub up-AreTries : AreTries 0 up
    up-AreTries = insert-AreTries 0 cs i cur tries (omega arith) is

    pub count-up : count up ≡ count cs
    count-up = count_insert_present 0 cs i e (inline cur) (ascending 0 cs tries) at

    pub count-gone : suc (count gone) ≡ count cs
    count-gone = count-remove up i (inline cur) (get_back cs i (inline cur)) ∙ count-up

    get-gone : (j : ℕ) → get gone j ≡ (if i == j then none else get cs j)
    get-gone j =
        rw (get-remove 0 up i j (ascending 0 up up-AreTries), get-insert cs i (inline cur) j)
          (elim (Bool-cases (i == j)) [ inl same ↦ rw same | inr other ↦ rw other ])

    pub gone-Updates : Changes below (p ++ (i ∷ q)) none (node p v0 cs) (node p v0 gone)
    gone-Updates =
        child_removed below p v0 cs gone i q e at holds (rw (get-gone i, (==_iff i i).1 refl))
          (λ j other t. rw (get-gone j, other))

    unfoldable pub removed : Settled v0 (count gone) → Left below p v0 cs i q
    removed settled = record {
      repaired = node p v0 gone;
      updates = gone-Updates;
      is_trie = IsTrie-of p v0 gone settled (remove-AreTries 0 up i up-AreTries);
    }

    pub remove_at-up :
        remove_at (set_child (node p v0 cs) i cur) i ≡ some (node p v0 gone, inline cur)
    unfolding remove_at
    remove_at-up = rw (get_back cs i (inline cur))

    module _ (s : Survives up i) where
      abbrev pub up2 : Children V H
      up2 = insert up s.index (inline (read s.edge))

      abbrev pub one : Children V H
      one = remove up2 i

      up2-AreTries : AreTries 0 up2
      up2-AreTries =
          insert-AreTries 0 up s.index (read s.edge) up-AreTries (omega arith)
            (get-IsTrie 0 up s.index s.edge up-AreTries s.present)

      get-up2 : get up2 i ≡ some (inline cur)
      get-up2 =
          let apart = s.apart in
          let other : (s.index == i) ≡ false = ground arith in
          rw (get-insert up s.index (inline (read s.edge)) i, other) (get_back cs i (inline cur))

      count-one : suc (count one) ≡ count cs
      count-one =
          count-remove up2 i (inline cur) get-up2
          ∙ count_insert_present 0 up s.index s.edge (inline (read s.edge))
              (ascending 0 up up-AreTries) s.present
          ∙ count-up

      get-one :
          (j : ℕ)
          → get one j ≡ (
              if i == j
              then none
              else (if s.index == j then some (inline (read s.edge)) else get up j))
      get-one j = rw (
        get-remove 0 up2 i j (ascending 0 up2 up2-AreTries),
        get-insert up s.index (inline (read s.edge)) j,
      )

      child-one : (j : ℕ) → (i == j) ≡ false → (t : List ℕ) → child one j t ≡ child cs j t
      child-one j other t =
          let here : get up j ≡ get cs j = rw (get-insert cs i (inline cur) j, other) in
          rw (get-one j, other)
            (elim (Bool-cases (s.index == j)) [
              | inl same ↦ let eq = (==_iff s.index j).0 same in rw (same, ← here, ← eq, s.present)
              | inr apart ↦ rw (apart, here)
            ])

      pub one-Updates : Changes below (p ++ (i ∷ q)) none (node p v0 cs) (node p v0 one)
      one-Updates =
          child_removed below p v0 cs one i q e at holds (rw (get-one i, (==_iff i i).1 refl))
            child-one

      pub one-Merges : count cs ≡ 2 → Merges (node p none one)
      one-Merges two =
          let less = count-one in
          let single : count one ≡ 1 = omega arith in
          merge_only_child-Merges p one s.index (read s.edge) (remove-AreTries 0 up2 i up2-AreTries)
            single (rw (get-one s.index, s.apart, (==_iff s.index s.index).1 refl))

      pub remove_and_merge-up :
          (m : Merges (node p none one))
          → remove_and_merge (set_child (node p none cs) i cur) i ≡ some (m.merged, inline cur)
      unfolding remove_and_merge materialize_at remove_at
      remove_and_merge-up m =
          rw (s.finds, s.present, materialize-inline s.edge, get-up2) (rw m.runs)
