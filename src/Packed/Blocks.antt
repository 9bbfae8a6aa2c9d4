-- ===== src/Packed/Blocks.antt =====
-- Blocks with an element put in or taken out: the copies of two segments around a slot.
use arity_arrays.Common.{
  ℕ, ◌+◌, ◌-◌, ◌<◌, ◌≤◌, ◌≡◌, sym, ◌∙◌, ap, some, ◌==◌, ltb, ltb→lt, arith, Bool-cases, inl, inr,
  ==_iff,
}
use arity_arrays.Memory.{Block, uninit, written, copied}

-- Every slot of the block holds a value.
abbrev pub IsFilled : {T : Type 0} → Block T → Type 0
IsFilled {T} m = (r : ℕ) → r < m.size → (x : T) × (m.slot r ≡ some x)

pub written-IsFilled :
    {T : Type 0} (m : Block T) (k : ℕ) (v : T) → IsFilled m → IsFilled (written m k v)
written-IsFilled m k v h r q = elim (Bool-cases (k == r)) [
  | inl e ↦ (v, rw e)
  | inr e ↦ let (x, held) = h r q in (x, rw e held)
]

-- The n elements of m with v put in before the slot k, in a block with one more slot.
unfoldable pub spliced : {T : Type 0} → Block T → ℕ → ℕ → T → Block T
spliced m n k v = copied m k (written (copied m 0 (uninit (n + 1)) 0 k) k v) (k + 1) (n - k)

module _ {T : Type 0} (m : Block T) (n k : ℕ) (v : T) where
  pub spliced_before : (j : ℕ) → j < k → (spliced m n k v).slot j ≡ m.slot j
  unfolding spliced
  spliced_before j p = let e : j - 0 + 0 ≡ j = omega arith in ground arith

  pub spliced_at : (spliced m n k v).slot k ≡ some v
  unfolding spliced
  spliced_at = ground arith

  pub spliced_after : (j : ℕ) → k ≤ j → j < n → (spliced m n k v).slot (j + 1) ≡ m.slot j
  unfolding spliced
  spliced_after j p q = let e : j + 1 - (k + 1) + k ≡ j = omega arith in ground arith

  pub spliced-IsFilled : k ≤ n → n ≡ m.size → IsFilled m → IsFilled (spliced m n k v)
  unfolding spliced
  spliced-IsFilled h e filled r q = elim (Bool-cases (ltb r k)) [
    | inl low ↦
        let (x, held) = filled r (ground arith) in (x, spliced_before r (ltb→lt r k low) ∙ held)
    | inr high ↦ elim (Bool-cases (k == r)) [
      | inl same ↦
          (v, ap (λ (t : ℕ). (spliced m n k v).slot t) (sym ((==_iff k r).0 same)) ∙ spliced_at)
      | inr above ↦
          let over : k < r = ground arith in
          let (x, held) = filled (r - 1) (omega arith) in
          let back : r ≡ r - 1 + 1 = ground arith in
          (
            x,
            ap (λ (t : ℕ). (spliced m n k v).slot t) back
                ∙ spliced_after (r - 1) (ground arith) (omega arith)
                ∙ held,
          )
    ]
  ]

-- The n elements of m without the one in the slot k.
unfoldable pub closed : {T : Type 0} → Block T → ℕ → ℕ → Block T
closed m n k = copied m (k + 1) (copied m 0 (uninit (n - 1)) 0 k) k (n - k - 1)

module _ {T : Type 0} (m : Block T) (n k : ℕ) where
  pub closed_before : (j : ℕ) → j < k → (closed m n k).slot j ≡ m.slot j
  unfolding closed
  closed_before j p = let e : j - 0 + 0 ≡ j = omega arith in ground arith

  pub closed_after : (j : ℕ) → k ≤ j → j + 1 < n → (closed m n k).slot j ≡ m.slot (j + 1)
  unfolding closed
  closed_after j p q = let e : j - k + (k + 1) ≡ j + 1 = omega arith in ground arith

  pub closed_filled :
      k < n
      → n ≡ m.size
      → ((r : ℕ) → r < m.size → (x : T) × (m.slot r ≡ some x))
      → (r : ℕ) → r < n - 1
      → (x : T) × ((closed m n k).slot r ≡ some x)
  closed_filled h e filled r q = elim (Bool-cases (ltb r k)) [
    | inl low ↦
        let (x, held) = filled r (omega arith) in (x, closed_before r (ltb→lt r k low) ∙ held)
    | inr high ↦
        let (x, held) = filled (r + 1) (omega arith) in
        (x, closed_after r (ground arith) (omega arith) ∙ held)
  ]
