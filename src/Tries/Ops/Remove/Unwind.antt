-- ===== src/Tries/Ops/Remove/Unwind.antt =====
-- Unwinding after a leaf has left: in a trie, the first parent is repaired and nothing else changes.
use arity_arrays.Common.{
  ℕ, ◌≤◌, ◌≡◌, ◌∙◌, Option, none, some, leb, List, ◌∷◌, arith, Bool-cases, inl, inr, Bool,
}
use arity_arrays.Tries.Node.{Node, Edge, Children, node, get, count, read, inline}
use arity_arrays.Tries.Frames.{close, opened, write_child-unsealed}
use arity_arrays.Tries.Structure.{IsTrie, parts_of, ascending}
use arity_arrays.Tries.Ops.Remove.{unwind_remove, detached_edge}
use arity_arrays.Tries.Ops.Remove.Child.{IsCovered}
use arity_arrays.Tries.Ops.Remove.Leaf.{
  Left, removed, remove_at-up, count-gone, count-up, up, up-AreTries, other_than-Survives,
  one-Merges, one-Updates, remove_and_merge-up,
}

module _ {V H : Type 0} where
  -- What unwinding does at a parent whose child at i, cur, leaves.
  abbrev pub Unwinds :
      List (Node V H × ℕ)
      → Bool
      → (p : List ℕ) → (v0 : Option V) → (cs : Children V H) → (i : ℕ) → Node V H
      → List ℕ
      → Type 0
  Unwinds under below p v0 cs i cur q =
      (left : Left below p v0 cs i q) × (unwind_remove (opened ((node p v0 cs, i) ∷ under)) cur
        ≡ some (close (opened under) left.repaired, detached_edge (inline cur)))

  pub unwind_remove-Unwinds :
      (under : List (Node V H × ℕ)) (p : List ℕ) (v0 : Option V) (cs : Children V H) (i : ℕ)
      (cur : Node V H) (q : List ℕ) (below : Bool) (e : Edge V H)
      → IsTrie (node p v0 cs)
      → get cs i ≡ some e
      → IsTrie cur
      → IsCovered below q (read e)
      → Unwinds under below p v0 cs i cur q
  unfolding unwind_remove removed
  unwind_remove-Unwinds under p (some x) cs i cur q below e h at is holds = (
    removed p (some x) cs i cur q below e h at is holds tt,
    rw (
      write_child-unsealed (node p (some x) cs) i e cur at,
      remove_at-up p (some x) cs i cur q below e h at is holds,
    ),
  )
  unwind_remove-Unwinds under p none cs i cur q below e h at is holds =
      let settled : 2 ≤ count cs = (parts_of p none cs h).0 in
      let size = count-up p none cs i cur q below e h at is holds in
      let less = count-gone p none cs i cur q below e h at is holds in
      elim (Bool-cases (leb 3 (count cs))) [
        | inl three ↦ (
          removed p none cs i cur q below e h at is holds (ground arith),
          rw (write_child-unsealed (node p none cs) i e cur at, size, three)
              (rw (remove_at-up p none cs i cur q below e h at is holds)),
        )
        | inr two ↦
            let exactly : count cs ≡ 2 = ground arith in
            let s =
              other_than-Survives (up p none cs i cur q below e h at is holds) i
                (ascending 0 (up p none cs i cur q below e h at is holds)
                  (up-AreTries p none cs i cur q below e h at is holds))
                (omega arith) in
            let m = one-Merges p none cs i cur q below e h at is holds s exactly in
            (
              record {
                repaired = m.merged;
                updates =
                    λ key. m.same key ∙ one-Updates p none cs i cur q below e h at is holds s key;
                is_trie = m.is_trie;
              },
              rw (write_child-unsealed (node p none cs) i e cur at, size, exactly)
                  (rw (remove_and_merge-up p none cs i cur q below e h at is holds s m)),
            )
      ]
