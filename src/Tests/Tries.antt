-- ===== src/Tests/Tries.antt =====
-- The theorems on the tries at concrete inputs, and a run.
use arity_arrays.Common.{
  ℕ, ◌≡◌, refl, Option, none, some, if◌then◌else◌, List, [], ◌∷◌, arith, All, length, ◌*◌, ◌<◌,
}
use arity_arrays.Tries.Paths.{path_eq, PrefixOverlap, common_prefix}
use arity_arrays.Tries.Paths.Laws.{IsOverlap, common_prefix-IsOverlap}
use arity_arrays.Tries.Paths.Nibbles.{nibbles, unnibble, unnibble-nibbles}
use arity_arrays.Tries.Node.{
  Node, node, mem_edge, nil, cons, leaf, count, get, first, take_only_child, insert, remove, write,
}
use arity_arrays.Tries.Frames.{descend, write_child}
use arity_arrays.Tries.Ops.Descent.{split_of, below}
use arity_arrays.Tries.Lookups.{lookup}
use arity_arrays.Tries.Structure.{IsTrie, IsRoot}
use arity_arrays.Tries.Ops.Read.{get_value}
use arity_arrays.Tries.Ops.Read.Laws.{get_value-lookup}
use arity_arrays.Tries.Ops.Insert.{insert_value}
use arity_arrays.Tries.Ops.Insert.Structure.{insert_value-IsTrie}
use arity_arrays.Tries.Ops.Insert.Lookups.{get_value-insert_value}
use arity_arrays.Tries.Ops.Remove.{remove_value, remove_found, recover_edge}
use arity_arrays.Tries.Ops.Remove.Lookups.{get_value-remove_value, remove_value-IsRoot}
use arity_arrays.Tries.Ops.Histories.{Command, put, take, prune, run, after_all, run-after_all}

-- A root without a value, with a leaf and a sealed node with a value and a leaf.
abbrev pub sample : Node ℕ ℕ
sample = node (1 ∷ 2 ∷ []) none (
    cons 3 (mem_edge (leaf (4 ∷ []) 34) none)
      (cons 5 (mem_edge (node [] (some 5) (cons 6 (mem_edge (leaf [] 56) none) nil)) (some 7)) nil))

pub sample-IsTrie : IsTrie sample
unfolding IsTrie count
sample-IsTrie =
    (omega arith, (omega arith, (tt, tt), (omega arith, (tt, (omega arith, (tt, tt), tt)), tt)))

abbrev commands : List (Command ℕ)
commands =
    put (1 ∷ 2 ∷ 3 ∷ []) 33
    ∷ put (1 ∷ 9 ∷ []) 19
    ∷ take (1 ∷ 2 ∷ 5 ∷ [])
    ∷ take (1 ∷ 9 ∷ [])
    ∷ take (1 ∷ 2 ∷ 5 ∷ 6 ∷ [])
    ∷ prune (1 ∷ 2 ∷ [])
    ∷ []

run-after_all_example :
    (root' : Option (Node ℕ ℕ)) × (run none commands
      ≡ some (root', none ∷ none ∷ none ∷ some 19 ∷ none ∷ none ∷ []))
    × ((k : List ℕ) → get_value root' k ≡ some (after_all (λ _. none) commands k))
    × IsRoot root'
run-after_all_example = run-after_all none (λ _. none) commands (λ k. get_value-lookup none k) tt

-- Keys of `sample`, and the merges after removals.
sample-run :
    run (some sample) (take (1 ∷ 2 ∷ 5 ∷ []) ∷ take (1 ∷ 2 ∷ 3 ∷ 4 ∷ []) ∷ [])
    ≡ some (some (leaf (1 ∷ 2 ∷ 5 ∷ 6 ∷ []) 56), some 5 ∷ some 34 ∷ [])
unfolding remove_value split_of common_prefix below get descend remove_found count first
    take_only_child insert remove recover_edge write_child write
sample-run = refl

get_value-insert_value_example :
    (root' : Node ℕ ℕ) × (old : Option ℕ) × (insert_value (some sample) (1 ∷ 2 ∷ 5 ∷ 7 ∷ []) 57
      ≡ some (root', old))
    × (get_value (some sample) (1 ∷ 2 ∷ 5 ∷ 7 ∷ []) ≡ some old)
    × ((k : List ℕ)
        → get_value (some root') k
          ≡ (if path_eq (1 ∷ 2 ∷ 5 ∷ 7 ∷ []) k then some (some 57) else get_value (some sample) k))
get_value-insert_value_example = get_value-insert_value (some sample) (1 ∷ 2 ∷ 5 ∷ 7 ∷ []) 57

get_value-remove_value_example :
    (root' : Option (Node ℕ ℕ)) × (old : Option ℕ) × (remove_value (some sample) (1 ∷ 2 ∷ 5 ∷ [])
      ≡ some (root', old))
    × (get_value (some sample) (1 ∷ 2 ∷ 5 ∷ []) ≡ some old)
    × ((k : List ℕ)
        → get_value root' k
          ≡ (if path_eq (1 ∷ 2 ∷ 5 ∷ []) k then some none else get_value (some sample) k))
get_value-remove_value_example = get_value-remove_value (some sample) (1 ∷ 2 ∷ 5 ∷ []) sample-IsTrie

insert_value-IsTrie_example :
    (root' : Node ℕ ℕ) × (old : Option ℕ) × (insert_value (some sample) (1 ∷ 3 ∷ []) 13
      ≡ some (root', old))
    × IsTrie root'
insert_value-IsTrie_example = insert_value-IsTrie (some sample) (1 ∷ 3 ∷ []) 13 sample-IsTrie

remove_value-IsRoot_example :
    (root' : Option (Node ℕ ℕ)) × (old : Option ℕ) × (remove_value
        (some sample)
        (1 ∷ 2 ∷ 3 ∷ 4 ∷ [])
      ≡ some (root', old))
    × IsRoot root'
remove_value-IsRoot_example = remove_value-IsRoot (some sample) (1 ∷ 2 ∷ 3 ∷ 4 ∷ []) sample-IsTrie

get_value-lookup_example :
    get_value (some sample) (1 ∷ 2 ∷ 5 ∷ 6 ∷ []) ≡ some (lookup sample (1 ∷ 2 ∷ 5 ∷ 6 ∷ []))
get_value-lookup_example = get_value-lookup (some sample) (1 ∷ 2 ∷ 5 ∷ 6 ∷ [])

common_prefix-IsOverlap_example :
    (o : PrefixOverlap) × (common_prefix (1 ∷ 2 ∷ 3 ∷ []) (1 ∷ 2 ∷ 4 ∷ 5 ∷ []) ≡ some o)
    × IsOverlap (1 ∷ 2 ∷ 3 ∷ []) (1 ∷ 2 ∷ 4 ∷ 5 ∷ []) o
common_prefix-IsOverlap_example = common_prefix-IsOverlap (1 ∷ 2 ∷ 3 ∷ []) (1 ∷ 2 ∷ 4 ∷ 5 ∷ [])

unnibble-nibbles_example :
    (path : List ℕ) × (nibbles (171 ∷ 7 ∷ []) ≡ some path)
    × All (λ i. i < 16) path
    × (length path ≡ 2 * 2)
    × (unnibble path ≡ some (171 ∷ 7 ∷ []))
unnibble-nibbles_example = unnibble-nibbles (171 ∷ 7 ∷ []) (omega arith, (omega arith, tt))
