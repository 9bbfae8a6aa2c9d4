-- ===== src/Tries/Ops/Remove/Descent.antt =====
-- The descent of a removal changes nothing: it stops at the node at the key, or the trie holds none.
use arity_arrays.Common.{
  ℕ, zero, suc, ◌<◌, ◌≡◌, refl, sym, ◌∙◌, ap, subst, Bool, true, false, Option, none, some, ◌>>=◌,
  List, [], ◌∷◌, ◌++◌, length, arith, Option-cases, inl, inr,
}
use arity_arrays.Tries.Paths.Laws.{strip_apart, strip_shared, Parts, append_nil, shorter_than}
use arity_arrays.Tries.Node.{Node, Edge, Children, node, partial_path, get, read}
use arity_arrays.Tries.Lookups.{lookup, lookup-node}
use arity_arrays.Tries.Frames.{Frames, frames, descend, opened, descend-get}
use arity_arrays.Tries.Frames.Laws.{bottom, key_of, AreLinked, lookup-key_of}
use arity_arrays.Tries.Ops.Descent.{Split, split_of, below, whole, split_of-Finds}
use arity_arrays.Tries.Ops.Remove.{descend_to}

module _ {V H : Type 0} where
  -- Of the node reached, for the whole key.
  abbrev pub Outcome : Bool → List (Node V H × ℕ) → Node V H → List ℕ → Type 0
  Outcome true under cur key = key_of under (partial_path cur) ≡ key
  Outcome false under cur key = lookup (bottom under cur) key ≡ none

  pub record Reaches (fuel : ℕ) (under : List (Node V H × ℕ)) (n : Node V H) (rest : List ℕ)
      : Type 0 where
    pub below : List (Node V H × ℕ)
    pub cur : Node V H
    pub found : Bool
    pub runs :
        descend_to fuel (frames (opened under) n) rest ≡ some (frames (opened below) cur, found)
    pub linked : AreLinked below cur
    pub same_root : bottom below cur ≡ bottom under n
    pub outcome : Outcome found below cur (key_of under rest)

  missing :
      (under : List (Node V H × ℕ)) (n : Node V H) (rest : List ℕ)
      → AreLinked under n
      → lookup n rest ≡ none
      → lookup (bottom under n) (key_of under rest) ≡ none
  missing under n rest linked none_at = lookup-key_of under n rest linked ∙ none_at

  abbrev follow :
      List (Node V H × ℕ)
      → Node V H
      → ℕ
      → List ℕ
      → ℕ
      → Option (Edge V H)
      → Option (Frames V H × Bool)
  unfolding descend_to
  follow under cur k q fuel none = some (frames (opened under) cur, false)
  follow under cur k q fuel (some e) =
      descend (frames (opened under) cur) k >>= λ stack. descend_to fuel stack q

  step :
      (fuel : ℕ) (under : List (Node V H × ℕ)) (p rest : List ℕ) (v : Option V) (cs : Children V H)
      (s : List ℕ) (m : ℕ) (next : Option ℕ) (b a : Option (ℕ × List ℕ))
      → let split : Split = record { shared_len = m; key_next = next; above = a } in
        split_of rest (node p v cs) ≡ some split
        → below split rest ≡ some b
        → rest ≡ s ++ whole b
        → p ≡ s ++ whole a
        → Parts (whole b) (whole a)
        → AreLinked under (node p v cs)
        → ((e : Edge V H) (q : List ℕ) (k : ℕ)
            → length q < length (whole b)
            → get cs k ≡ some e
            → Reaches fuel ((node p v cs, k) ∷ under) (read e) q)
        → Reaches (suc fuel) under (node p v cs) rest
  unfolding descend_to
  step fuel under p rest v cs s m next b (some (i, path)) is_split is_below is_rest is_path parts
        linked deeper =
      record {
        below = under;
        cur = node p v cs;
        found = false;
        runs = rw is_split;
        linked = linked;
        same_root = refl;
        outcome = missing under (node p v cs) rest linked (
            rw (
              lookup-node p v cs rest,
              is_rest,
              is_path,
              strip_shared s (i ∷ path) (whole b),
              strip_apart i path (whole b) parts,
            ));
      }
  step fuel under p rest v cs s m next none none is_split is_below is_rest is_path parts linked
        deeper =
      record {
        below = under;
        cur = node p v cs;
        found = true;
        runs = rw (is_split, is_below);
        linked = linked;
        same_root = refl;
        outcome = ap (key_of under) (is_path ∙ sym is_rest);
      }
  step fuel under p rest v cs s m next (some (k, q)) none is_split is_below is_rest is_path parts
        linked deeper =
      let same : p ≡ s = is_path ∙ append_nil s in
      elim (Option-cases (get cs k)) [
        | inl absent ↦ record {
          below = under;
          cur = node p v cs;
          found = false;
          runs = rw (is_split, is_below) (ap (follow under (node p v cs) k q fuel) absent);
          linked = linked;
          same_root = refl;
          outcome =
              missing under (node p v cs) rest linked
                (rw (lookup-node p v cs rest, is_rest, is_path, strip_shared s [] (k ∷ q), absent));
        }
        | inr (e, present) ↦
            let deep = deeper e q k (omega arith) present in
            record {
              below = deep.below;
              cur = deep.cur;
              found = deep.found;
              runs =
                  rw (is_split, is_below)
                    (ap (follow under (node p v cs) k q fuel) present
                      ∙ rw (descend-get under (node p v cs) k e present) deep.runs);
              linked = deep.linked;
              same_root = deep.same_root;
              outcome =
                  subst (λ t. Outcome deep.found deep.below deep.cur (key_of under t))
                    (rw (is_rest, same)) deep.outcome;
            }
      ]

  pub descend_to-Reaches :
      (fuel : ℕ) (under : List (Node V H × ℕ)) (n : Node V H) (rest : List ℕ)
      → length rest < fuel
      → AreLinked under n
      → Reaches fuel under n rest
  descend_to-Reaches zero under n rest h linked = absurd (omega arith)
  descend_to-Reaches (suc fuel) under (node p v cs) rest h linked =
      let f = split_of-Finds rest (node p v cs) in
      step fuel under p rest v cs f.s f.split.shared_len f.split.key_next f.key_below f.split.above
        f.is_split f.is_below f.is_rest f.is_path f.parts linked
        (λ e q k shorter present.
          descend_to-Reaches fuel ((node p v cs, k) ∷ under) (read e) q
            (shorter_than f.s (whole f.key_below) rest q fuel f.is_rest shorter h)
            (record { edge = e; present = present; is_read = refl }, linked))
