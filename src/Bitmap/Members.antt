-- ===== src/Bitmap/Members.antt =====
-- The places of a test in ascending order: the abstract view of a bitmap.
use mathlib.Core.List.{append-nil}
use arity_arrays.Common.{
  ℕ, zero, suc, ◌<◌, ◌≡◌, Bool, true, false, ◌==◌, Bool-cases, inl, inr, count_below, List, [], ◌∷◌,
  ◌++◌, length, length-append, if◌then◌else◌, arith, refl, ap, ap₂, ◌∙◌, not, ◌&&◌, ==_iff,
}

abbrev pub place : (ℕ → Bool) → ℕ → List ℕ
place f n = if f n then n ∷ [] else []

abbrev pub members : (ℕ → Bool) → ℕ → List ℕ
members f zero = []
members f (suc n) = members f n ++ place f n

pub members_ext :
    (f g : ℕ → Bool) (n : ℕ) → ((i : ℕ) → i < n → f i ≡ g i) → members f n ≡ members g n
members_ext f g zero h = refl
members_ext f g (suc n) h =
    ap₂ ◌++◌ (members_ext f g n (λ i p. h i (omega arith)))
      (ap (λ (t : Bool). if t then n ∷ [] else []) (h n (omega arith)))

pub length-members : (f : ℕ → Bool) (n : ℕ) → length (members f n) ≡ count_below f n
length-members f zero = refl
length-members f (suc n) =
    length-append (members f n) (place f n) ∙ ground (arith, length-members f n)

pub members-none : (f : ℕ → Bool) (n : ℕ) → ((i : ℕ) → i < n → f i ≡ false) → members f n ≡ []
members-none f zero h = refl
members-none f (suc n) h = rw (members-none f n (λ i p. h i (omega arith)), h n (omega arith))

-- A test with one place taken out.
abbrev pub without : (ℕ → Bool) → ℕ → ℕ → Bool
without f p i = f i && not (i == p)

-- The least place comes first, and the others stay in order.
pub members-least :
    (f : ℕ → Bool) (p n : ℕ)
    → p < n
    → f p ≡ true
    → ((i : ℕ) → i < p → f i ≡ false)
    → members f n ≡ p ∷ members (without f p) n
members-least f p zero h e b = absurd (omega arith)
members-least f p (suc n) h e b = elim (Bool-cases (n == p)) [
  | inl same ↦
      let eq : n ≡ p = (==_iff n p).0 same in
      let fn : f n ≡ true = rw eq e in
      let out : (f n && not (n == p)) ≡ false = rw (fn, same) in
      let before : members f n ≡ [] = members-none f n (λ i q. b i (omega arith)) in
      let after : members (without f p) n ≡ [] =
        members-none (without f p) n (λ i q. rw (b i (omega arith))) in
      rw (before, after, out, fn) (ap (λ (t : ℕ). t ∷ []) eq)
  | inr more ↦
      let below : p < n = ground arith in
      let stays : (f n && not (n == p)) ≡ f n = rw more (ground arith) in
      rw (stays, members-least f p n below e b)
]

-- The greatest place comes last.
pub members-greatest :
    (f : ℕ → Bool) (p n : ℕ)
    → p < n
    → f p ≡ true
    → ((i : ℕ) → i < n → p < i → f i ≡ false)
    → members f n ≡ members (without f p) n ++ p ∷ []
members-greatest f p zero h e b = absurd (omega arith)
members-greatest f p (suc n) h e b = elim (Bool-cases (n == p)) [
  | inl same ↦
      let eq : n ≡ p = (==_iff n p).0 same in
      let fn : f n ≡ true = rw eq e in
      let out : (f n && not (n == p)) ≡ false = rw (fn, same) in
      let before : members (without f p) n ≡ members f n =
        members_ext (without f p) f n (λ i q. ground arith) in
      rw (out, fn, append-nil (members (without f p) n), before)
        (ap (λ (t : ℕ). members f n ++ t ∷ []) eq)
  | inr more ↦
      let below : p < n = ground arith in
      let fn : f n ≡ false = b n (omega arith) below in
      let out : (f n && not (n == p)) ≡ false = rw fn in
      rw (out, fn, append-nil (members f n), append-nil (members (without f p) n))
        (members-greatest f p n below e (λ i q. b i (omega arith)))
]
