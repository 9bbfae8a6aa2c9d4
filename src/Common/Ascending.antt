-- ===== src/Common/Ascending.antt =====
-- The list lo, lo + 1, … of n numbers, taken apart at either end.
use mathlib.Core.List.{List, [], ◌∷◌, ◌++◌}
use mathlib.Core.Path.{◌≡◌, refl, ap, sym, ◌∙◌}
use native.Mathlib.Omega.{arith}
use native.Mathlib.Nat.{add-zero}
use Prim.Native.Nat.{ℕ, zero, suc, ◌+◌, ◌-◌, ◌<◌}
use arity_arrays.Common.Lists.{length}

module _ {ℓ} {A : Type ℓ} where
  pub cons_inj : {x y : A} {xs ys : List A} → x ∷ xs ≡ y ∷ ys → (x ≡ y) × (xs ≡ ys)
  cons_inj e = (cc, cc)

  pub snoc-ne-nil : (x : A) (xs : List A) → xs ++ x ∷ [] ≡ [] → ⊥
  snoc-ne-nil x [] e = cc
  snoc-ne-nil x (y ∷ xs) e = cc

  pub snoc_inj : (x y : A) (xs ys : List A) → xs ++ x ∷ [] ≡ ys ++ y ∷ [] → (x ≡ y) × (xs ≡ ys)
  snoc_inj x y [] [] e = (cc, refl)
  snoc_inj x y [] (b ∷ ys) e = absurd (snoc-ne-nil y ys (sym (cons_inj e).1))
  snoc_inj x y (a ∷ xs) [] e = absurd (snoc-ne-nil x xs (cons_inj e).1)
  snoc_inj x y (a ∷ xs) (b ∷ ys) e =
      let (head, tail) = cons_inj e in let (last, rest) = snoc_inj x y xs ys tail in (last, cc)

abbrev pub ascending : ℕ → ℕ → List ℕ
ascending lo zero = []
ascending lo (suc n) = lo ∷ ascending (suc lo) n

pub ascending_eq : {lo lo' n n' : ℕ} → lo ≡ lo' → n ≡ n' → ascending lo n ≡ ascending lo' n'
ascending_eq p q i = ascending (p i) (q i)

pub ascending-snoc : (lo n : ℕ) → ascending lo (suc n) ≡ ascending lo n ++ (lo + n) ∷ []
ascending-snoc lo zero = ap (λ (t : ℕ). t ∷ []) (sym (add-zero lo))
ascending-snoc lo (suc n) =
    ap (◌∷◌ lo)
      (ascending-snoc (suc lo) n ∙ ap (λ (t : ℕ). ascending (suc lo) n ++ t ∷ []) (omega arith))

pub length-ascending : (lo n : ℕ) → length (ascending lo n) ≡ n
length-ascending lo zero = refl
length-ascending lo (suc n) = ap suc (length-ascending (suc lo) n)

pub ascending-nil_inv : (lo n : ℕ) → ascending lo n ≡ [] → n ≡ 0
ascending-nil_inv lo zero e = refl
ascending-nil_inv lo (suc n) e = cc

pub ascending-cons_inv :
    (lo n x : ℕ) (xs : List ℕ)
    → ascending lo n ≡ x ∷ xs
    → (0 < n) × (x ≡ lo) × (ascending (suc lo) (n - 1) ≡ xs)
ascending-cons_inv lo zero x xs e = cc
ascending-cons_inv lo (suc n) x xs e =
    let (head, tail) = cons_inj e in
    let less : suc n - 1 ≡ n = omega arith in (omega arith, sym head, rw less tail)

pub ascending-snoc_inv :
    (lo n x : ℕ) (xs : List ℕ)
    → ascending lo n ≡ xs ++ x ∷ []
    → (0 < n) × (x ≡ lo + (n - 1)) × (ascending lo (n - 1) ≡ xs)
ascending-snoc_inv lo zero x xs e = absurd (snoc-ne-nil x xs (sym e))
ascending-snoc_inv lo (suc n) x xs e =
    let (last, rest) = snoc_inj (lo + n) x (ascending lo n) xs (sym (ascending-snoc lo n) ∙ e) in
    let less : suc n - 1 ≡ n = omega arith in (omega arith, rw less (sym last), rw less rest)
