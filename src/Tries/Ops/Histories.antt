-- ===== src/Tries/Ops/Histories.antt =====
-- Histories of insertions and of removals of keys and of prefixes on one trie, against a map from keys to values.
use arity_arrays.Common.{
  ℕ, ◌≡◌, refl, true, ◌∙◌, subst, Option, none, some, if◌then◌else◌, ◌>>=◌, List, [], ◌∷◌,
  Bool-cases, inl, inr,
}
use arity_arrays.Tries.Paths.{path_eq}
use arity_arrays.Tries.Paths.Laws.{covers}
use arity_arrays.Tries.Node.{Node}
use arity_arrays.Tries.Structure.{IsRoot, IsTrie}
use arity_arrays.Tries.Ops.Read.{get_value}
use arity_arrays.Tries.Ops.Insert.{insert_value}
use arity_arrays.Tries.Ops.Insert.Structure.{insert_value-IsTrie}
use arity_arrays.Tries.Ops.Insert.Lookups.{get_value-insert_value}
use arity_arrays.Tries.Ops.Remove.{remove_value}
use arity_arrays.Tries.Ops.Remove.Lookups.{get_value-remove_value, remove_value-IsRoot}
use arity_arrays.Tries.Ops.Prefix.{remove_prefix}
use arity_arrays.Tries.Ops.Prefix.Laws.{get_value-remove_prefix}

pub data Command (V : Type 0) : Type 0 where
  put : List ℕ → V → Command V
  take : List ℕ → Command V
  prune : List ℕ → Command V

-- The map: what a command returns, and the map after it.
abbrev pub returned : {V : Type 0} → (List ℕ → Option V) → Command V → Option V
returned m (put key v) = m key
returned m (take key) = m key
returned m (prune prefix) = none

abbrev pub after_command : {V : Type 0} → (List ℕ → Option V) → Command V → List ℕ → Option V
after_command m (put key v) k = if path_eq key k then some v else m k
after_command m (take key) k = if path_eq key k then none else m k
after_command m (prune prefix) k = if covers true prefix k then none else m k

abbrev pub all_returned : {V : Type 0} → (List ℕ → Option V) → List (Command V) → List (Option V)
all_returned m [] = []
all_returned m (c ∷ cs) = returned m c ∷ all_returned (after_command m c) cs

abbrev pub after_all : {V : Type 0} → (List ℕ → Option V) → List (Command V) → List ℕ → Option V
after_all m [] = m
after_all m (c ∷ cs) = after_all (after_command m c) cs

module _ {V H : Type 0} where
  abbrev pub run_command : Option (Node V H) → Command V → Option (Option (Node V H) × Option V)
  run_command root (put key v) = insert_value root key v >>= λ r. some (some r.0, r.1)
  run_command root (take key) = remove_value root key
  run_command root (prune prefix) = remove_prefix root prefix >>= λ root. some (root, none)

  -- The root at the end, and the values returned.
  abbrev pub run :
      Option (Node V H) → List (Command V) → Option (Option (Node V H) × List (Option V))
  run root [] = some (root, [])
  run root (c ∷ cs) = do
    (root, v) ← run_command root c
    (root, vs) ← run root cs
    some (root, v ∷ vs)

  -- The trie stands for the map.
  abbrev Stands : Option (Node V H) → (List ℕ → Option V) → Type 0
  Stands root m = (k : List ℕ) → get_value root k ≡ some (m k)

  record Step (root : Option (Node V H)) (m : List ℕ → Option V) (c : Command V) : Type 0 where
    pub root' : Option (Node V H)
    pub runs : run_command root c ≡ some (root', returned m c)
    pub stands : Stands root' (after_command m c)
    pub is_root : IsRoot root'

  put-Step :
      (root : Option (Node V H)) (m : List ℕ → Option V) (key : List ℕ) (v : V)
      → Stands root m
      → IsRoot root
      → Step root m (put key v)
  put-Step root m key v stands is =
      let (root', old, runs, was, reads) = get_value-insert_value root key v in
      let (root2, old2, runs2, is2) = insert_value-IsTrie root key v is in
      let read = stands key in
      let same_old : old ≡ m key = cc in
      let same_root : root2 ≡ root' = cc in
      record {
        root' = some root';
        runs = rw (runs, same_old);
        stands = λ k.
            reads k
            ∙ rw (stands k)
                (elim (Bool-cases (path_eq key k)) [ inl here ↦ rw here | inr there ↦ rw there ]);
        is_root = subst IsTrie same_root is2;
      }

  take-Step :
      (root : Option (Node V H)) (m : List ℕ → Option V) (key : List ℕ)
      → Stands root m
      → IsRoot root
      → Step root m (take key)
  take-Step root m key stands is =
      let (root', old, runs, was, reads) = get_value-remove_value root key is in
      let (root2, old2, runs2, is2) = remove_value-IsRoot root key is in
      let read = stands key in
      let same_old : old ≡ m key = cc in
      let same_root : root2 ≡ root' = cc in
      record {
        root' = root';
        runs = rw (runs, same_old);
        stands = λ k.
            reads k
            ∙ rw (stands k)
                (elim (Bool-cases (path_eq key k)) [ inl here ↦ rw here | inr there ↦ rw there ]);
        is_root = subst IsRoot same_root is2;
      }

  prune-Step :
      (root : Option (Node V H)) (m : List ℕ → Option V) (prefix : List ℕ)
      → Stands root m
      → IsRoot root
      → Step root m (prune prefix)
  prune-Step root m prefix stands is =
      let (root', runs, reads, is') = get_value-remove_prefix root prefix is in
      record {
        root' = root';
        runs = rw runs;
        stands = λ k.
            reads k
            ∙ rw (stands k) (elim (Bool-cases (covers true prefix k)) [
              | inl here ↦ rw here
              | inr there ↦ rw there
            ]);
        is_root = is';
      }

  step :
      (root : Option (Node V H)) (m : List ℕ → Option V) (c : Command V)
      → Stands root m
      → IsRoot root
      → Step root m c
  step root m (put key v) stands is = put-Step root m key v stands is
  step root m (take key) stands is = take-Step root m key stands is
  step root m (prune prefix) stands is = prune-Step root m prefix stands is

  -- A trie that satisfies the structural invariant and stands for a map, as `get` reads it, refines
  -- the map: each sequence of insertions and of removals of keys and of prefixes runs without a panic
  -- and without running out of fuel, returns what the map returns, and leaves a trie that satisfies the
  -- invariant and stands for the map after the sequence.
  pub run-after_all :
      (root : Option (Node V H)) (m : List ℕ → Option V) (commands : List (Command V))
      → ((k : List ℕ) → get_value root k ≡ some (m k))
      → IsRoot root
      → (root' : Option (Node V H)) × (run root commands ≡ some (root', all_returned m commands))
        × ((k : List ℕ) → get_value root' k ≡ some (after_all m commands k))
        × IsRoot root'
  run-after_all root m [] stands is = (root, refl, stands, is)
  run-after_all root m (c ∷ commands) stands is =
      let s = step root m c stands is in
      let (root', runs, ends, is') =
        run-after_all s.root' (after_command m c) commands s.stands s.is_root in
      (root', rw (s.runs, runs), ends, is')
