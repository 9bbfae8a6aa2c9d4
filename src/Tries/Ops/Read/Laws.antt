-- ===== src/Tries/Ops/Read/Laws.antt =====
-- Lookup finds what the trie holds.
use arity_arrays.Common.{
  ℕ, zero, suc, ◌<◌, ◌≡◌, refl, ◌∙◌, ap, Option, none, some, ◌>>=◌, List, [], ◌∷◌, ◌++◌, length,
  arith, Option-cases, inl, inr,
}
use arity_arrays.Tries.Paths.{common_prefix}
use arity_arrays.Tries.Paths.Laws.{
  strip_shared, strip_apart, common_prefix-IsOverlap, Parts, shorter_than,
}
use arity_arrays.Tries.Node.{Node, Edge, Children, node, value, get, read}
use arity_arrays.Tries.Lookups.{lookup, after, lookup-node}
use arity_arrays.Tries.Ops.Read.{get_loop, get_node, get_value}

module _ {V H : Type 0} where
  -- The loop stops at a node, or at none, that holds what the trie holds for the key.
  abbrev Reads : ℕ → Node V H → List ℕ → Type 0
  Reads fuel n rest =
      (found : Option (Node V H)) × (get_loop fuel n rest ≡ some found)
      × ((found >>= value) ≡ lookup n rest)

  lookup_below :
      (s p rest : List ℕ) (v : Option V) (cs : Children V H) (a : List ℕ)
      → rest ≡ s ++ a
      → p ≡ s ++ []
      → lookup (node p v cs) rest ≡ after v cs a
  lookup_below s p rest v cs a is_rest is_path =
      rw (lookup-node p v cs rest, is_rest, is_path, strip_shared s [] a)

  abbrev follow : ℕ → List ℕ → Option (Edge V H) → Option (Option (Node V H))
  unfolding get_loop
  follow fuel key none = some none
  follow fuel key (some e) = get_loop fuel (read e) key

  step :
      (fuel : ℕ) (p rest : List ℕ) (v : Option V) (cs : Children V H) (s a b : List ℕ)
      → common_prefix rest p ≡ some (record { shared = s; unique_a = a; unique_b = b })
      → rest ≡ s ++ a
      → p ≡ s ++ b
      → Parts a b
      → ((e : Edge V H) (key : List ℕ) → length key < length a → Reads fuel (read e) key)
      → Reads (suc fuel) (node p v cs) rest
  unfolding get_loop
  step fuel p rest v cs s a (j ∷ b) run is_rest is_path parts next = (
    none,
    rw run,
    rw (
      lookup-node p v cs rest,
      is_rest,
      is_path,
      strip_shared s (j ∷ b) a,
      strip_apart j b a parts,
    ),
  )
  step fuel p rest v cs s [] [] run is_rest is_path parts next =
      (some (node p v cs), rw run, rw (lookup_below s p rest v cs [] is_rest is_path))
  step fuel p rest v cs s (i ∷ a) [] run is_rest is_path parts next =
      elim (Option-cases (get cs i)) [
        | inl missing ↦ (
          none,
          rw run (ap (follow fuel a) missing),
          rw (lookup_below s p rest v cs (i ∷ a) is_rest is_path, missing),
        )
        | inr (e, present) ↦
            let (found, loop, reads) = next e a (omega arith) in
            (
              found,
              rw run (ap (follow fuel a) present ∙ loop),
              rw (lookup_below s p rest v cs (i ∷ a) is_rest is_path, present, reads),
            )
      ]

  get_loop-Reads :
      (fuel : ℕ) (n : Node V H) (rest : List ℕ) → length rest < fuel → Reads fuel n rest
  get_loop-Reads zero n rest h = absurd (omega arith)
  get_loop-Reads (suc fuel) (node p v cs) rest h =
      let (o, run, over) = common_prefix-IsOverlap rest p in
      step fuel p rest v cs o.shared o.unique_a o.unique_b run over.is_a over.is_b over.parts
        (λ e key shorter.
          get_loop-Reads fuel (read e) key
            (shorter_than o.shared o.unique_a rest key fuel over.is_a shorter h))

  -- `get` does not panic or run out of fuel, for any trie and key, and its result is the value that
  -- the trie holds for the key: the lookup read off the structure of the nodes.
  pub get_value-lookup :
      (root : Option (Node V H)) (key : List ℕ)
      → get_value root key ≡ some (root >>= λ n. lookup n key)
  unfolding get_value get_node
  get_value-lookup none key = refl
  get_value-lookup (some n) key =
      let (found, loop, reads) = get_loop-Reads (suc (length key)) n key (omega arith) in
      rw (loop, reads)
