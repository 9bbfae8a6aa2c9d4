-- ===== src/Tries/Paths.antt =====
-- crates/arity-tries/src/path.rs and key.rs. A path is the list of its indices; a slice out of range
-- panics: `none`.
pub mod Laws
pub mod Nibbles
use Prim.Native.Nat.{Ordering}
use arity_arrays.Common.{
  ℕ, zero, suc, ◌+◌, Bool, true, false, Option, none, some, ◌==◌, leb, if◌then◌else◌, ◌>>=◌, List,
  [], ◌∷◌, ◌++◌, length, ltb,
}
use arity_arrays.Niche.{try_from_slice, as_u8_slice}

-- `try_from_bytes`, for an arity with `count` indices.
unfoldable pub try_from_bytes : ℕ → List ℕ → Option (List ℕ)
unfolding try_from_slice
try_from_bytes count bytes = try_from_slice count bytes

unfoldable pub as_bytes : List ℕ → List ℕ
unfolding as_u8_slice
as_bytes path = as_u8_slice path

-- `PartialEq`
abbrev pub path_eq : List ℕ → List ℕ → Bool
path_eq [] [] = true
path_eq [] (y ∷ ys) = false
path_eq (x ∷ xs) [] = false
path_eq (x ∷ xs) (y ∷ ys) = if x == y then path_eq xs ys else false

-- `Ord::cmp`: lexicographic.
abbrev pub cmp : List ℕ → List ℕ → Ordering
cmp [] [] = Ordering.eq
cmp [] (y ∷ ys) = Ordering.lt
cmp (x ∷ xs) [] = Ordering.gt
cmp (x ∷ xs) (y ∷ ys) = if x == y then cmp xs ys else (if ltb x y then Ordering.lt else Ordering.gt)

unfoldable pub join : List ℕ → ℕ → List ℕ → List ℕ
join head index tail = head ++ (index ∷ []) ++ tail

pub record PrefixOverlap : Type 0 where
  pub shared : List ℕ
  pub unique_a : List ℕ
  pub unique_b : List ℕ

-- `&a[..n]` and `&a[n..]`
unfoldable pub slice_to : List ℕ → ℕ → Option (List ℕ)
slice_to a zero = some []
slice_to [] (suc n) = none
slice_to (x ∷ a) (suc n) = slice_to a n >>= λ s. some (x ∷ s)

unfoldable pub slice_from : List ℕ → ℕ → Option (List ℕ)
slice_from a zero = some a
slice_from [] (suc n) = none
slice_from (x ∷ a) (suc n) = slice_from a n

-- `a.iter().zip(b).take_while(|(x, y)| x == y).count()`
unfoldable pub shared_len : List ℕ → List ℕ → ℕ
shared_len [] b = 0
shared_len (x ∷ a) [] = 0
shared_len (x ∷ a) (y ∷ b) = if x == y then suc (shared_len a b) else 0

unfoldable pub common_prefix : List ℕ → List ℕ → Option PrefixOverlap
unfolding slice_to slice_from shared_len
common_prefix a b = do
  shared ← slice_to a (shared_len a b)
  unique_a ← slice_from a (shared_len a b)
  unique_b ← slice_from b (shared_len a b)
  some (record { shared = shared; unique_a = unique_a; unique_b = unique_b })
