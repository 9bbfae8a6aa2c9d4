-- ===== src/Bitmap/Native/Select.antt =====
-- `raw_select` finds the n-th set bit: its popcount-guided search ends within its rounds, and the
-- place that it returns is set and has n set places below it.
use native.Mathlib.Nat.{pow-suc, zero-add}
use arity_arrays.Common.{
  ℕ, zero, suc, ◌+◌, ◌-◌, ◌/◌, ◌^◌, ◌≤◌, ◌<◌, bit_and, ◌≡◌, sym, ◌∙◌, ap, arith, true, false, leb,
  leb→le, ◌⊎◌, ◌==◌, Bool-cases, inl, inr, count_below, count_below-add, count_below_ext, Option,
  none, some, if◌then◌else◌,
}
use arity_arrays.Bits.{bit}
use arity_arrays.Bits.Logic.{two_pow_pos, bit-shr, lt-two_pow_self}
use arity_arrays.Bits.Words.{shl, shr, wrapping_sub}
use arity_arrays.Bits.Words.Laws.{shl-one, two_pow_lt, wrapping_sub-one}
use arity_arrays.Bitmap.Native.{raw_popcount, select_loop, raw_select, count_ones}
use arity_arrays.Bitmap.Native.Digits.{count_ones_lem, count_ones-mask}

-- Place q of x is set and has n set places below it.
abbrev pub IsNth : ℕ → ℕ → ℕ → Type 0
IsNth x n q = (bit x q ≡ true) × (count_below (bit x) q ≡ n)

-- Past k places, the count goes on in the shifted number.
count_below-shr :
    (x k m : ℕ)
    → count_below (bit x) (k + m) ≡ count_below (bit x) k + count_below (bit (shr x k)) m
count_below-shr x k m =
    count_below-add (bit x) k m
    ∙ ap (λ (t : ℕ). count_below (bit x) k + t)
        (count_below_ext (λ i. bit x (k + i)) (bit (shr x k)) m (λ i _. sym (bit-shr k x i)))

IsNth-shr :
    (x k n q : ℕ)
    → count_below (bit x) k ≤ n
    → IsNth (shr x k) (n - count_below (bit x) k) q
    → IsNth x n (k + q)
IsNth-shr x k n q h (set, counted) =
    (sym (bit-shr k x q) ∙ set, omega (arith, count_below-shr x k q))

module _ (w : ℕ) where
  -- What the search returns from the place pos on: the n-th set place of x, within m places.
  abbrev Finds : ℕ → ℕ → ℕ → ℕ → Option ℕ → Type 0
  Finds x n pos m r = (q : ℕ) × (r ≡ some (pos + q)) × (q < m) × IsNth x n q

  lo_mask_count :
      (x size : ℕ)
      → size < w
      → count_ones w (bit_and x (wrapping_sub w (shl w 1 size) 1)) ≡ count_below (bit x) size
  lo_mask_count x size h =
      rw
        (
          shl-one w size h,
          wrapping_sub-one w (2 ^ size) (two_pow_lt size w h) (omega (arith, two_pow_pos size)),
        )
        (count_ones-mask w x size (omega arith))

  -- One round at size s, for each way that its test goes.
  select_loop-suc :
      (fuel n x pos s : ℕ)
      → s < w
      → select_loop w (suc fuel) n x pos s ≡ (
          if leb (count_below (bit x) s) n
          then (if s == 1
              then some (pos + s)
              else select_loop w fuel (n - count_below (bit x) s) (shr x s) (pos + s) (s / 2))
          else (if s == 1 then some pos else select_loop w fuel n x pos (s / 2)))
  unfolding select_loop count_ones
  select_loop-suc fuel n x pos s h =
      rw (lo_mask_count x s h)
        (elim (Bool-cases (leb (count_below (bit x) s) n)) [ inl e ↦ rw e | inr e ↦ rw e ])

  two_pow_half : (k : ℕ) → 2 ^ suc k / 2 ≡ 2 ^ k
  two_pow_half k = omega (arith, pow-suc 2 k)

  Finds-mono : (x n pos m m' : ℕ) {r : Option ℕ} → m ≤ m' → Finds x n pos m r → Finds x n pos m' r
  Finds-mono x n pos m m' h (q, e, inside, nth) = (q, e, omega arith, nth)

  Finds-shr :
      (x s n pos m : ℕ) {r : Option ℕ}
      → count_below (bit x) s ≤ n
      → Finds (shr x s) (n - count_below (bit x) s) (pos + s) m r
      → Finds x n pos (s + m) r
  Finds-shr x s n pos m h (q, e, inside, nth) =
      (s + q, e ∙ ap some (omega arith), omega arith, IsNth-shr x s n q h nth)

  -- A search at size 2 ^ k that is given k + 1 rounds finds the n-th set place among 2 ^ (k + 1).
  select_loop-Finds :
      (k fuel n x pos : ℕ)
      → 2 ^ k < w
      → k < fuel
      → n < count_below (bit x) (2 ^ suc k)
      → Finds x n pos (2 ^ suc k) (select_loop w fuel n x pos (2 ^ k))
  select_loop-Finds k zero n x pos s f h = absurd (omega arith)
  select_loop-Finds zero (suc fuel) n x pos s f h =
      rw (select_loop-suc fuel n x pos 1 s) (elim (Bool-cases (leb (count_below (bit x) 1) n)) [
        | inl above ↦ (1, rw above, omega arith, (ground arith, ground arith))
        | inr below ↦
            (0, rw below (ap some (omega arith)), omega arith, (ground arith, ground arith))
      ])
  select_loop-Finds (suc k) (suc fuel) n x pos s f h =
      rw (select_loop-suc fuel n x pos size s)
        (elim (Bool-cases (leb (count_below (bit x) size) n)) [
          | inl above ↦
              let le = leb→le (count_below (bit x) size) n above in
              let within : n - count_below (bit x) size < count_below (bit (shr x size)) size =
                omega (arith, ap (count_below (bit x)) double, count_below-shr x size size) in
              rw (above, more, two_pow_half k)
                (Finds-mono x n pos (size + size) (2 ^ suc (suc k)) (omega (arith, double)) (
                  Finds-shr x size n pos size le (
                    select_loop-Finds k fuel (n - count_below (bit x) size) (shr x size)
                      (pos + size) half_in (omega arith) within)))
          | inr below ↦
              rw (below, more, two_pow_half k)
                (Finds-mono x n pos size (2 ^ suc (suc k)) (omega (arith, double))
                  (select_loop-Finds k fuel n x pos half_in (omega arith) (ground arith)))
        ])
    where
      size : ℕ
      size = 2 ^ suc k

      double : 2 ^ suc (suc k) ≡ size + size
      double = omega (arith, pow-suc 2 (suc k))

      half_in : 2 ^ k < w
      half_in = omega (arith, pow-suc 2 k)

      more : (size == 1) ≡ false
      more = ground (arith, pow-suc 2 k, two_pow_pos k)

  result :
      (k x n : ℕ) {r : Option ℕ}
      → w ≡ 2 ^ suc k
      → n < count_ones w x
      → Finds x n 0 (2 ^ suc k) r
      → (q : ℕ) × (r ≡ some q) × (q < w) × (n < count_ones w x) × IsNth x n q
  result k x n e under (q, found, inside, nth) =
      (q, found ∙ ap some (zero-add q), omega arith, under, nth)

  -- For a width 2 ^ (k + 1), `raw_select` of x and n is none if x has at most n set bits, and
  -- otherwise gives the place of a set bit of x, below the width, with exactly n set bits below it.
  -- Its fuel is enough in both cases.
  pub raw_select_lem :
      (k x n : ℕ)
      → w ≡ 2 ^ suc k
      → (count_ones w x ≤ n) × (raw_select w x n ≡ none)
        ⊎ ((q : ℕ) × (raw_select w x n ≡ some q) × (q < w) × (n < count_ones w x) × IsNth x n q)
  unfolding raw_select count_ones
  raw_select_lem k x n e = elim (Bool-cases (leb (raw_popcount w x) n)) [
    | inl past ↦ inl (leb→le _ n past, rw past)
    | inr within ↦
        let under : n < count_ones w x = ground arith in
        let half : w / 2 ≡ 2 ^ k = ap (λ (t : ℕ). t / 2) e ∙ two_pow_half k in
        inr (
          rw (within, half)
            (result k x n e under (
              select_loop-Finds k w n x 0 (omega (arith, pow-suc 2 k, two_pow_pos k))
                (omega (arith, pow-suc 2 k, lt-two_pow_self k))
                (omega (arith, count_ones_lem w x, ap (count_below (bit x)) e)))))
  ]
