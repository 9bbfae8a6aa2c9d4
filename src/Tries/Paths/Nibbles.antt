-- ===== src/Tries/Paths/Nibbles.antt =====
-- crates/arity-tries/src/key.rs: keys of bytes as paths of nibbles.
use arity_arrays.Common.{
  ℕ, zero, suc, ◌*◌, ◌%◌, ◌^◌, ◌<◌, ◌≡◌, refl, ap, Bool, true, false, Option, none, some, ◌==◌,
  ==_iff, if◌then◌else◌, ◌>>=◌, List, [], ◌∷◌, length, arith, All, Bool-cases, inl, inr, bit_and,
  bit_or,
}
use mathlib.Core.Option
use arity_arrays.Bits.Words.{shl, shr}
use arity_arrays.Niche.{new_masked}
use arity_arrays.Niche.Laws.{new_masked_lem}

-- `nibbles`: a fault of `new_masked` is none.
unfoldable pub nibbles : List ℕ → Option (List ℕ)
unfolding new_masked
nibbles [] = some []
nibbles (b ∷ key) = do
  hi ← new_masked 16 (shr b 4)
  lo ← new_masked 16 (bit_and b 0xF)
  rest ← nibbles key
  some (hi ∷ lo ∷ rest)

-- The loop of `unnibble` over the pairs.
unfoldable pub chunks : List ℕ → List ℕ
chunks [] = []
chunks (hi ∷ []) = []
chunks (hi ∷ lo ∷ path) = bit_or (shl 8 hi 4) lo ∷ chunks path

unfoldable pub unnibble : List ℕ → Option (List ℕ)
unfolding chunks
unnibble path = if length path % 2 == 0 then some (chunks path) else none

abbrev pub IsByte : ℕ → Type 0
IsByte b = b < 256

-- The test accepts each byte value under a limit.
accepts : (ℕ → Bool) → ℕ → Bool
accepts test zero = true
accepts test (suc limit) = if test limit then accepts test limit else false

accepts_at : (test : ℕ → Bool) (limit b : ℕ) → b < limit → accepts test limit ≡ true → test b ≡ true
unfolding accepts
accepts_at test zero b small ok = absurd (omega arith)
accepts_at test (suc limit) b small ok = elim (Bool-cases (test limit)) [
  | inr rejected ↦ let wrong = rw rejected at ok in absurd cc
  | inl accepted ↦ elim (Bool-cases (b == limit)) [
    | inl last ↦ rw ((==_iff b limit).0 last) accepted
    | inr before ↦ accepts_at test limit b (ground arith) (rw accepted at ok)
  ]
]

abbrev high : ℕ → ℕ
high b = shr b 4 % 2 ^ 4

abbrev low : ℕ → ℕ
low b = bit_and b 0xF % 2 ^ 4

-- The two nibbles of a byte make it up: checked at each byte.
join_nibbles : accepts (λ b. bit_or (shl 8 (high b) 4) (low b) == b) 256 ≡ true
unfolding accepts
join_nibbles = refl

nibbles-byte : (b : ℕ) → b < 256 → bit_or (shl 8 (high b) 4) (low b) ≡ b
nibbles-byte b h = (==_iff _ b).0 (accepts_at _ 256 b h join_nibbles)

-- For a key of bytes, `nibbles` does not fault, gives two indices below 16 for each byte, and
-- `unnibble` gives the key back from them.
pub unnibble-nibbles :
    (key : List ℕ)
    → All IsByte key
    → (path : List ℕ) × (nibbles key ≡ some path)
      × All (λ i. i < 16) path
      × (length path ≡ 2 * length key)
      × (unnibble path ≡ some key)
unfolding nibbles unnibble
unnibble-nibbles [] h = ([], refl, tt, omega arith, refl)
unnibble-nibbles (b ∷ key) h =
    let (path, e, small, len, back) = unnibble-nibbles key h.1 in
    let even : (length path % 2 == 0) ≡ true =
      (==_iff (length path % 2) 0).1 (omega (arith, len)) in
    let even' : (length (high b ∷ low b ∷ path) % 2 == 0) ≡ true =
      (==_iff _ 0).1 (omega (arith, len)) in
    let rest : some (chunks path) ≡ some key = rw even at back in
    (
      high b ∷ low b ∷ path,
      rw (new_masked_lem 4 (shr b 4), new_masked_lem 4 (bit_and b 0xF), e),
      (omega arith, (omega arith, small)),
      omega (arith, len),
      rw (even', nibbles-byte b h.0) (ap (λ (t : Option (List ℕ)). Option.map (λ r. b ∷ r) t) rest),
    )
