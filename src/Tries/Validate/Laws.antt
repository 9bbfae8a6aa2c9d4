-- ===== src/Tries/Validate/Laws.antt =====
-- Validation accepts exactly the tries that satisfy the structural invariant.
use arity_arrays.Common.{
  ℕ, zero, suc, ◌<◌, ◌≤◌, ◌≡◌, ◌↔◌, refl, sym, ◌∙◌, ap, Option, none, some, ◌>>=◌, List, [], ◌∷◌,
  ◌++◌, length, length-append, arith, or_else, or_else_assoc,
}
use arity_arrays.Tries.Node.{Node, Children, node, mem_edge, nil, cons, partial_path, count}
use arity_arrays.Tries.Structure.{IsTrie, AreTries, Settled}
use arity_arrays.Tries.Walk.{Walk, new}
use arity_arrays.Tries.Walk.Order.{
  preorder, preorder_below, IsOrdered, AreOrdered, Yields, new-Yields,
}
use arity_arrays.Tries.Validate.{
  Violation, kind_for, violation, validate_loop, nodes, nodes_below, validate,
}

next :
    (v : Option Violation) (rest : Option (Option Violation)) (later : Option Violation)
    → rest ≡ some later
    → (elim v as (λ _. Option (Option Violation)) [
      | some broken ↦ some (some broken)
      | none ↦ rest
    ])
      ≡ some (or_else v later)
next none rest later e = e
next (some broken) rest later e = refl

module _ {V H : Type 0} where
  length-preorder_below :
      (cs : Children V H) (path : List ℕ) → length (preorder_below path cs) ≡ nodes_below cs
  unfolding preorder nodes
  length-preorder_below nil path = refl
  length-preorder_below (cons j (mem_edge (node p v cm) hash) cs) path =
      let full = path ++ (j ∷ p) in
      let split = length-append (preorder_below full cm) (preorder_below path cs) in
      let deep = length-preorder_below cm full in
      let rest = length-preorder_below cs path in omega arith

  length-preorder : (n : Node V H) (path : List ℕ) → length (preorder path n) ≡ nodes n
  unfolding preorder nodes
  length-preorder (node p v cs) path = ap suc (length-preorder_below cs path)

  -- The first violation in a list of nodes.
  abbrev pub first_violation : List (List ℕ × Node V H) → Option Violation
  unfolding violation
  first_violation [] = none
  first_violation (x ∷ xs) = or_else (violation x) (first_violation xs)

  loop-first_violation :
      (fuel : ℕ) (w : Walk V H) (xs : List (List ℕ × Node V H))
      → Yields w xs
      → length xs < fuel
      → validate_loop fuel w ≡ some (first_violation xs)
  unfolding validate_loop first_violation
  loop-first_violation zero w xs yields h = absurd (omega arith)
  loop-first_violation (suc fuel) w [] (w', run) h = rw run
  loop-first_violation (suc fuel) w (x ∷ xs) (w', run, rest) h =
      let deeper = loop-first_violation fuel w' xs rest (omega arith) in
      rw run (next (violation x) (validate_loop fuel w') (first_violation xs) deeper)

  -- `validate` of a trie whose child maps ascend does not panic or run out of fuel: it returns the
  -- first violation in pre-order, with the full path of its node, and none if there is none.
  pub validate-first_violation :
      (n : Node V H)
      → IsOrdered n
      → validate (some n) ≡ some (first_violation (preorder (partial_path n) n))
  unfolding validate
  validate-first_violation n ordered =
      let size = length-preorder n (partial_path n) in
      loop-first_violation (suc (nodes n)) (new (some n) none) (preorder (partial_path n) n)
        (new-Yields n ordered) (omega arith)

or_else-none_iff : (a b : Option Violation) → (or_else a b ≡ none) ↔ ((a ≡ none) × (b ≡ none))
or_else-none_iff none b = (λ e. (refl, e), λ h. h.1)
or_else-none_iff (some broken) b = (λ e. absurd cc, λ h. absurd (some_none h.0))
  where
    some_none : {x : Violation} → some x ≡ none → ⊥
    some_none e = cc

kind_for-none :
    (n : ℕ) (path : List ℕ)
    → (◌>>=◌ {B = Violation} (kind_for n) (λ kind. some (record { path = path; kind = kind }))
        ≡ none)
      ↔ (2 ≤ n)
kind_for-none zero path = (λ e. absurd cc, λ h. absurd (omega arith))
kind_for-none (suc zero) path = (λ e. absurd cc, λ h. absurd (omega arith))
kind_for-none (suc (suc n)) path = (λ e. omega arith, λ h. refl)

module _ {V H : Type 0} where
  violation-Settled :
      (path p : List ℕ) (v : Option V) (cs : Children V H)
      → (violation (path, node p v cs) ≡ none) ↔ Settled v (count cs)
  unfolding violation
  violation-Settled path p none cs = kind_for-none (count cs) path
  violation-Settled path p (some v) cs = (λ e. tt, λ h. refl)

  first_violation-append :
      (xs ys : List (List ℕ × Node V H))
      → first_violation (xs ++ ys) ≡ or_else (first_violation xs) (first_violation ys)
  unfolding first_violation
  first_violation-append [] ys = refl
  first_violation-append (x ∷ xs) ys =
      ap (or_else (violation x)) (first_violation-append xs ys)
      ∙ or_else_assoc (violation x) (first_violation xs) (first_violation ys)

  below-AreTries :
      (cs : Children V H) (lo : ℕ) (path : List ℕ)
      → AreOrdered lo cs
      → (first_violation (preorder_below path cs) ≡ none) ↔ AreTries lo cs
  unfolding first_violation preorder IsOrdered IsTrie
  below-AreTries nil lo path ordered = (λ e. tt, λ h. refl)
  below-AreTries (cons j (mem_edge (node p v cm) hash) cs) lo path ordered =
      let full = path ++ (j ∷ p) in
      let here = violation-Settled full p v cm in
      let deep = below-AreTries cm 0 full ordered.1 in
      let rest = below-AreTries cs (suc j) path ordered.2 in
      let both =
        or_else-none_iff (violation (full, node p v cm))
          (first_violation (preorder_below full cm ++ preorder_below path cs)) in
      let split =
        or_else-none_iff (first_violation (preorder_below full cm))
          (first_violation (preorder_below path cs)) in
      let append = first_violation-append (preorder_below full cm) (preorder_below path cs) in
      (
        λ e.
            let (settled, later) = both.0 e in
            let (a, b) = split.0 (sym append ∙ later) in
            (ordered.0, (here.0 settled, deep.0 a), rest.0 b),
        λ h. both.1 (here.1 h.1.0, append ∙ split.1 (deep.1 h.1.1, rest.1 h.2)),
      )

  pub validate-IsTrie : (n : Node V H) → IsOrdered n → (validate (some n) ≡ some none) ↔ IsTrie n
  unfolding first_violation preorder IsOrdered IsTrie
  validate-IsTrie (node p v cs) ordered =
      let found = validate-first_violation (node p v cs) ordered in
      let here = violation-Settled p p v cs in
      let below = below-AreTries cs 0 p ordered in
      let both =
        or_else-none_iff (violation (p, node p v cs)) (first_violation (preorder_below p cs)) in
      (
        λ e.
            let (settled, later) = both.0 (some_eq (sym found ∙ e)) in
            (here.0 settled, below.0 later),
        λ h. found ∙ ap some (both.1 (here.1 h.0, below.1 h.1)),
      )
    where
      some_eq : {x y : Option Violation} → some x ≡ some y → x ≡ y
      some_eq e = cc
