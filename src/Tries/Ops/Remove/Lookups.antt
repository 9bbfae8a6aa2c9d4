-- ===== src/Tries/Ops/Remove/Lookups.antt =====
-- What lookups read after a removal.
use arity_arrays.Common.{
  ℕ, ◌≡◌, refl, sym, ◌∙◌, ap, Option, none, some, if◌then◌else◌, List, Bool-cases, inl, inr, false,
}
use arity_arrays.Tries.Paths.{path_eq}
use arity_arrays.Tries.Paths.Laws.{covers, path_eq-covers}
use arity_arrays.Tries.Node.{Node}
use arity_arrays.Tries.Structure.{IsRoot}
use arity_arrays.Tries.Ops.Read.{get_value}
use arity_arrays.Tries.Ops.Read.Laws.{get_value-lookup}
use arity_arrays.Tries.Ops.Remove.{remove_value}
use arity_arrays.Tries.Ops.Remove.Laws.{remove_value-Removes}

module _ {V H : Type 0} where
  -- `remove` of a key, from a trie that satisfies the structural invariant or from none, neither
  -- panics nor runs out of fuel. It returns what `get` read at the key before; `get` then reads none at
  -- the key, and at every other key what it read before.
  pub get_value-remove_value :
      (root : Option (Node V H)) (key : List ℕ)
      → IsRoot root
      → (root' : Option (Node V H)) × (old : Option V) × (remove_value root key ≡ some (root', old))
        × (get_value root key ≡ some old)
        × ((k : List ℕ)
            → get_value root' k ≡ (if path_eq key k then some none else get_value root k))
  unfolding remove_value
  get_value-remove_value none key h = (
    none,
    none,
    refl,
    get_value-lookup none key,
    λ k.
        rw (get_value-lookup {V = V} {H = H} none k)
          (elim (Bool-cases (path_eq key k)) [ inl here ↦ rw here | inr there ↦ rw there ]),
  )
  get_value-remove_value (some n) key h =
      let (r, run) = remove_value-Removes n key h in
      (
        r.root,
        r.old,
        run,
        get_value-lookup (some n) key ∙ ap some (sym r.is_old),
        λ k.
            rw
              (
                get_value-lookup r.root k,
                get_value-lookup (some n) k,
                r.updates k,
                path_eq-covers key k,
              )
              (elim (Bool-cases (covers false key k)) [
                | inl here ↦ rw here
                | inr there ↦ rw there
              ]),
      )

  -- `remove` from a trie that satisfies the structural invariant, or from none, leaves none or a trie
  -- that satisfies it: the parent of what leaves is merged with its only child where it has no value.
  pub remove_value-IsRoot :
      (root : Option (Node V H)) (key : List ℕ)
      → IsRoot root
      → (root' : Option (Node V H)) × (old : Option V) × (remove_value root key ≡ some (root', old))
        × IsRoot root'
  unfolding remove_value
  remove_value-IsRoot none key h = (none, none, refl, tt)
  remove_value-IsRoot (some n) key h =
      let (r, run) = remove_value-Removes n key h in (r.root, r.old, run, r.is_root)
