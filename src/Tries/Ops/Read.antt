-- ===== src/Tries/Ops/Read.antt =====
-- `get_node` and `get` of ops.rs. The chain of handles only keeps the nodes read so far in place.
pub mod Laws
use arity_arrays.Common.{ℕ, zero, suc, Option, none, some, ◌>>=◌, List, [], ◌∷◌, length}
use arity_arrays.Tries.Paths.{common_prefix}
use arity_arrays.Tries.Node.{Node, partial_path, children, value, get, read}

module _ {V H : Type 0} where
  -- The loop of `get_node`, on fuel, at a node and with the rest of the key.
  get_loop : ℕ → Node V H → List ℕ → Option (Option (Node V H))
  get_loop zero n rest = none
  get_loop (suc fuel) n rest = do
    o ← common_prefix rest (partial_path n)
    elim o.unique_b [
      | _ ∷ _ ↦ some none
      | [] ↦ elim o.unique_a [
        | [] ↦ some (some n)
        | i ∷ key_rest ↦ elim (get (children n) i) [
          | none ↦ some none
          | some edge ↦ get_loop fuel (read edge) key_rest
        ]
      ]
    ]

  -- Each round but the last reads an index of the key at least.
  unfoldable pub get_node : Option (Node V H) → List ℕ → Option (Option (Node V H))
  unfolding get_loop
  get_node none key = some none
  get_node (some root) key = get_loop (suc (length key)) root key

  unfoldable pub get_value : Option (Node V H) → List ℕ → Option (Option V)
  unfolding get_node
  get_value root key = do found ← get_node root key; some (found >>= value)
