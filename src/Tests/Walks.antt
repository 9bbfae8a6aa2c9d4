-- ===== src/Tests/Walks.antt =====
-- The theorems on subtrees, prefixes, walks and validation at concrete inputs.
use arity_arrays.Common.{ℕ, ◌≡◌, true, Option, none, some, if◌then◌else◌, List, [], ◌∷◌, arith}
use arity_arrays.Tries.Paths.Laws.{covers}
use arity_arrays.Tries.Node.{Node}
use arity_arrays.Tries.Lookups.{Same}
use arity_arrays.Tries.Structure.{IsTrie, IsRoot}
use arity_arrays.Tries.Ops.Read.{get_value}
use arity_arrays.Tries.Ops.Subtree.{materialize_subtree}
use arity_arrays.Tries.Ops.Subtree.Laws.{inlined}
use arity_arrays.Tries.Ops.Subtree.Inlined.{materialize_subtree-inlined}
use arity_arrays.Tries.Ops.Prefix.{remove_prefix}
use arity_arrays.Tries.Ops.Prefix.Laws.{get_value-remove_prefix}
use arity_arrays.Tries.Walk.Order.{IsOrdered, preorder}
use arity_arrays.Tries.Iter.{iter}
use arity_arrays.Tries.Iter.Entries.{find}
use arity_arrays.Tries.Iter.Sorted.{AreSorted}
use arity_arrays.Tries.Iter.Laws.{Emits, iter-entries}
use arity_arrays.Tests.Tries.{sample, sample-IsTrie}

get_value-remove_prefix_example :
    (root' : Option (Node ℕ ℕ)) × (remove_prefix (some sample) (1 ∷ 2 ∷ 5 ∷ []) ≡ some root')
    × ((k : List ℕ)
        → get_value root' k
          ≡ (if covers true (1 ∷ 2 ∷ 5 ∷ []) k then some none else get_value (some sample) k))
    × IsRoot root'
get_value-remove_prefix_example =
    get_value-remove_prefix (some sample) (1 ∷ 2 ∷ 5 ∷ []) sample-IsTrie

materialize_subtree-inlined_example :
    (materialize_subtree sample ≡ some (inlined sample))
    × IsTrie (inlined sample)
    × Same sample (inlined sample)
materialize_subtree-inlined_example = materialize_subtree-inlined sample sample-IsTrie

sample-IsOrdered : IsOrdered sample
unfolding IsOrdered
sample-IsOrdered = (omega arith, tt, (omega arith, (omega arith, tt, tt), tt))

iter-entries_example :
    (entries : List (List ℕ × ℕ)) × Emits 5 (iter (some sample) none) entries
    × AreSorted entries
    × ((key : List ℕ) → get_value (some sample) key ≡ some (find entries key))
unfolding preorder
iter-entries_example = iter-entries sample 5 sample-IsOrdered (omega arith)
