-- ===== src/Tries/Ops/Descent.antt =====
-- The case analysis of a descent step, `Split` of ops.rs.
use arity_arrays.Common.{
  ℕ, suc, ◌+◌, ◌≡◌, refl, Option, none, some, ◌>>=◌, List, [], ◌∷◌, ◌++◌, length, arith,
}
use arity_arrays.Tries.Paths.{PrefixOverlap, common_prefix, slice_to, slice_from}
use arity_arrays.Tries.Paths.Laws.{Parts, IsOverlap, common_prefix-IsOverlap}
use arity_arrays.Tries.Node.{Node, partial_path}

pub record Split : Type 0 where
  pub shared_len : ℕ
  pub key_next : Option ℕ
  pub above : Option (ℕ × List ℕ)

abbrev pub first : List ℕ → Option ℕ
first [] = none
first (x ∷ xs) = some x

abbrev pub split_first : List ℕ → Option (ℕ × List ℕ)
split_first [] = none
split_first (x ∷ xs) = some (x, xs)

module _ {V H : Type 0} where
  -- `Split::of`
  unfoldable pub split_of : List ℕ → Node V H → Option Split
  split_of rest n = common_prefix rest (partial_path n) >>= λ o. some (record {
    shared_len = length o.shared;
    key_next = first o.unique_a;
    above = split_first o.unique_b;
  })

-- `Split::below`, whose slice may be out of range.
abbrev below_from : Option ℕ → ℕ → List ℕ → Option (Option (ℕ × List ℕ))
below_from none n rest = some none
below_from (some i) n rest = slice_from rest (n + 1) >>= λ key_rest. some (some (i, key_rest))

unfoldable pub below : Split → List ℕ → Option (Option (ℕ × List ℕ))
below split rest = below_from split.key_next split.shared_len rest

-- The path that starts with an index, if there is one.
abbrev pub whole : Option (ℕ × List ℕ) → List ℕ
whole none = []
whole (some (i, path)) = i ∷ path

-- What a descent step finds: the path s shared by the rest of the key and the partial path, and what
-- each continues with.
pub record Finds {V H : Type 0} (rest : List ℕ) (n : Node V H) : Type 0 where
  pub s : List ℕ
  pub split : Split
  pub key_below : Option (ℕ × List ℕ)
  pub is_split : split_of rest n ≡ some split
  pub is_below : below split rest ≡ some key_below
  pub is_shared : slice_to rest split.shared_len ≡ some s
  pub is_rest : rest ≡ s ++ whole key_below
  pub is_path : partial_path n ≡ s ++ whole split.above
  pub parts : Parts (whole key_below) (whole split.above)

whole-split_first : (a : List ℕ) → whole (split_first a) ≡ a
whole-split_first [] = refl
whole-split_first (x ∷ a) = refl

slice_to-append : (s t : List ℕ) → slice_to (s ++ t) (length s) ≡ some s
unfolding slice_to
slice_to-append [] t = refl
slice_to-append (x ∷ s) t = rw (slice_to-append s t)

slice_from-append : (s t : List ℕ) (i : ℕ) → slice_from (s ++ (i ∷ t)) (suc (length s)) ≡ some t
unfolding slice_from
slice_from-append [] t i = refl
slice_from-append (x ∷ s) t i = slice_from-append s t i

below-append : (s a : List ℕ) → below_from (first a) (length s) (s ++ a) ≡ some (split_first a)
below-append s [] = refl
below-append s (i ∷ a) =
    let next : length s + 1 ≡ suc (length s) = omega arith in rw (next, slice_from-append s a i)

finds :
    {V H : Type 0}
    → (rest : List ℕ) (n : Node V H) (o : PrefixOverlap)
    → common_prefix rest (partial_path n) ≡ some o
    → IsOverlap rest (partial_path n) o
    → Finds rest n
unfolding split_of below
finds rest n o run over = record {
  s = o.shared;
  split = record {
    shared_len = length o.shared;
    key_next = first o.unique_a;
    above = split_first o.unique_b;
  };
  key_below = split_first o.unique_a;
  is_split = rw run;
  is_below = rw over.is_a (below-append o.shared o.unique_a);
  is_shared = rw over.is_a (slice_to-append o.shared o.unique_a);
  is_rest = rw (whole-split_first o.unique_a) over.is_a;
  is_path = rw (whole-split_first o.unique_b) over.is_b;
  parts = rw (whole-split_first o.unique_a, whole-split_first o.unique_b) over.parts;
}

-- A descent step never slices out of range.
pub split_of-Finds : {V H : Type 0} → (rest : List ℕ) (n : Node V H) → Finds rest n
split_of-Finds rest n =
    let (o, run, over) = common_prefix-IsOverlap rest (partial_path n) in finds rest n o run over
