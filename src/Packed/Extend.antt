-- ===== src/Packed/Extend.antt =====
-- crates/arity-arrays/src/packed.rs: `Extend`, which inserts each pair in turn.
use arity_arrays.Common.{
  ℕ, ◌<◌, ◌≡◌, refl, ◌∙◌, ap, Option, some, ◌==◌, if◌then◌else◌, ◌>>=◌, List, [], ◌∷◌, All,
}
use arity_arrays.Bitmap.{Bitmap}
use arity_arrays.Packed.{PackedArray, insert}
use arity_arrays.Packed.Laws.{IsValid, lookup}
use arity_arrays.Packed.Insert.{insert-Inserts}

-- The value at j after the assignments in turn, from the value d.
abbrev pub assigned {ℓ} : {T : Type ℓ} → List (ℕ × T) → ℕ → Option T → Option T
assigned [] j d = d
assigned (x ∷ xs) j d = assigned xs j (if x.0 == j then some x.1 else d)

module _ (b : Bitmap) {T : Type 0} where
  unfoldable pub extend : PackedArray b T → List (ℕ × T) → Option (PackedArray b T)
  unfolding insert
  extend a [] = some a
  extend a (x ∷ xs) = insert b a x.0 x.1 >>= λ (_, a'). extend a' xs

  -- For a valid array and pairs whose indices are below the width, `extend` does not fault and
  -- leaves a valid array, which holds at each index the value of the last pair for it, and what it
  -- held before if there is no such pair.
  pub extend-assigned :
      (a : PackedArray b T) (xs : List (ℕ × T))
      → IsValid b a
      → All (λ x. x.0 < b.width) xs
      → (a' : PackedArray b T) × (extend a xs ≡ some a')
        × IsValid b a'
        × ((j : ℕ) → j < b.width → lookup b a' j ≡ assigned xs j (lookup b a j))
  unfolding extend
  extend-assigned a [] valid h = (a, refl, valid, λ j k. refl)
  extend-assigned a (x ∷ xs) valid h =
      let one = insert-Inserts b a x.0 x.1 valid h.0 in
      let (a', e, valid', reads) = extend-assigned one.after xs one.valid h.1 in
      (a', rw one.returns e, valid', λ j k. reads j k ∙ ap (assigned xs j) (one.reads j k))
