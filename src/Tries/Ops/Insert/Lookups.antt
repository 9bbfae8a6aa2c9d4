-- ===== src/Tries/Ops/Insert/Lookups.antt =====
-- What lookups read after an insertion.
use arity_arrays.Common.{
  ℕ, ◌≡◌, refl, sym, ◌∙◌, ap, Option, none, some, if◌then◌else◌, ◌>>=◌, List, Bool-cases, inl, inr,
  false,
}
use arity_arrays.Tries.Paths.{path_eq}
use arity_arrays.Tries.Paths.Laws.{covers, path_eq-covers}
use arity_arrays.Tries.Node.{Node, leaf}
use arity_arrays.Tries.Lookups.{lookup, lookup-leaf}
use arity_arrays.Tries.Ops.Read.{get_value}
use arity_arrays.Tries.Ops.Read.Laws.{get_value-lookup}
use arity_arrays.Tries.Ops.Insert.{insert_value}
use arity_arrays.Tries.Ops.Insert.Laws.{insert_value-Inserted, Inserted-Updates, Inserted-lookup}

module _ {V H : Type 0} where
  -- The reads of a changed trie, from those of the map that it stands for.
  reads :
      (root : Option (Node V H)) (root' : Node V H) (key : List ℕ) (w : Option V)
      → ((k : List ℕ)
          → lookup root' k ≡ (if covers false key k then w else (root >>= λ n. lookup n k)))
      → (k : List ℕ)
      → get_value (some root') k ≡ (if path_eq key k then some w else get_value root k)
  reads root root' key w h k =
      rw (get_value-lookup (some root') k, get_value-lookup root k, h k, path_eq-covers key k)
        (elim (Bool-cases (covers false key k)) [ inl same ↦ rw same | inr other ↦ rw other ])

  -- `insert` of w at a key, into any trie or none, neither panics nor runs out of fuel. It returns
  -- what `get` read at the key before; `get` then reads w at the key, and at every other key what it
  -- read before.
  pub get_value-insert_value :
      (root : Option (Node V H)) (key : List ℕ) (w : V)
      → (root' : Node V H) × (old : Option V) × (insert_value root key w ≡ some (root', old))
        × (get_value root key ≡ some old)
        × ((k : List ℕ)
            → get_value (some root') k
              ≡ (if path_eq key k then some (some w) else get_value root k))
  unfolding insert_value
  get_value-insert_value none key w = (
    leaf key w,
    none,
    refl,
    get_value-lookup none key,
    reads none (leaf key w) key (some w) (lookup-leaf H key w),
  )
  get_value-insert_value (some root) key w =
      let (root', old, run, done) = insert_value-Inserted root key w in
      (
        root',
        old,
        run,
        get_value-lookup (some root) key
            ∙ ap some (sym (Inserted-lookup w root key root' old done)),
        reads (some root) root' key (some w) (Inserted-Updates w root key root' old done),
      )
