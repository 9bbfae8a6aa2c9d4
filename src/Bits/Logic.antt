-- ===== src/Bits/Logic.antt =====
-- The digits of `&`, `|`, `!`, of a power of two and of a low mask, and extensionality.
use Prim.Native.Nat.{bit_and-bitwise}
use native.Mathlib.Nat.{
  pow-suc, pow-succ', div-add-mod, mod-lt, mod-eq_of_lt, mul-add-mod_self_left, one-le-pow,
  zero-add, suc-add, div-one, div-div-eq-div-mul,
}
use arity_arrays.Common.{
  ap, ◌*◌, ◌%◌, ℕ, zero, suc, ◌+◌, ◌-◌, ◌/◌, ◌^◌, ◌≤◌, ◌<◌, bit_and, bit_or, ◌≡◌, ◌≢◌, refl, sym,
  ◌∙◌, arith, true, false, not, ◌&&◌, ◌||◌, ltb, ◌==◌,
}
use arity_arrays.Bits.{bit}
use arity_arrays.Bits.Step.{bit_and_step, bit_or_step}

pub bit-zero : (i : ℕ) → bit 0 i ≡ false
bit-zero zero = refl
bit-zero (suc i) = bit-zero i

pub bit-bit_and : (x y i : ℕ) → bit (bit_and x y) i ≡ (bit x i && bit y i)
bit-bit_and x y zero = ground (arith, bit_and_step x y)
bit-bit_and x y (suc i) =
    let half : bit_and x y / 2 ≡ bit_and (x / 2) (y / 2) = omega (arith, bit_and_step x y) in
    rw half (bit-bit_and (x / 2) (y / 2) i)

pub bit-bit_or : (x y i : ℕ) → bit (bit_or x y) i ≡ (bit x i || bit y i)
bit-bit_or x y zero = ground (arith, bit_or_step x y)
bit-bit_or x y (suc i) =
    let half : bit_or x y / 2 ≡ bit_or (x / 2) (y / 2) = omega (arith, bit_or_step x y) in
    rw half (bit-bit_or (x / 2) (y / 2) i)

pub two_pow_pos : (k : ℕ) → 1 ≤ 2 ^ k
two_pow_pos k = one-le-pow k 2 (omega arith)

-- `1 << k` has the one digit k.
pub bit-two_pow : (k i : ℕ) → bit (2 ^ k) i ≡ (k == i)
bit-two_pow zero zero = refl
bit-two_pow zero (suc i) = bit-zero i ∙ ground arith
bit-two_pow (suc k) zero = ground (arith, pow-suc 2 k)
bit-two_pow (suc k) (suc i) =
    let half : 2 ^ suc k / 2 ≡ 2 ^ k = omega (arith, pow-suc 2 k) in
    rw half (bit-two_pow k i ∙ ground arith)

-- `(1 << k) - 1` has the digits below k.
pub bit-low_mask : (k i : ℕ) → bit (2 ^ k - 1) i ≡ ltb i k
bit-low_mask zero i = bit-zero i ∙ ground arith
bit-low_mask (suc k) zero = ground (arith, pow-suc 2 k, two_pow_pos k)
bit-low_mask (suc k) (suc i) =
    let half : (2 ^ suc k - 1) / 2 ≡ 2 ^ k - 1 = omega (arith, pow-suc 2 k, two_pow_pos k) in
    rw half (bit-low_mask k i ∙ ground arith)

-- `!x` at width w.
pub bit-complement : (w x i : ℕ) → x < 2 ^ w → i < w → bit (2 ^ w - 1 - x) i ≡ not (bit x i)
bit-complement zero x i h p = absurd (omega arith)
bit-complement (suc w) x zero h p = ground (arith, pow-suc 2 w, two_pow_pos w)
bit-complement (suc w) x (suc i) h p =
    let half : (2 ^ suc w - 1 - x) / 2 ≡ 2 ^ w - 1 - x / 2 =
      omega (arith, pow-suc 2 w, two_pow_pos w) in
    rw half (bit-complement w (x / 2) i (omega (arith, pow-suc 2 w)) (omega arith))

-- `x >> k` drops k digits.
pub bit-shr : (k x i : ℕ) → bit (x / 2 ^ k) i ≡ bit x (k + i)
bit-shr zero x i = rw (zero-add, div-one)
bit-shr (suc k) x i =
    let halved : x / 2 ^ suc k ≡ x / 2 / 2 ^ k =
      rw (pow-succ' 2 k) (sym (div-div-eq-div-mul x 2 (2 ^ k))) in
    rw (halved, suc-add) (bit-shr k (x / 2) i)

-- Two words of one width with the same digits are equal.
pub bit_ext : (w x y : ℕ) → x < 2 ^ w → y < 2 ^ w → ((i : ℕ) → i < w → bit x i ≡ bit y i) → x ≡ y
bit_ext zero x y p q h = omega arith
bit_ext (suc w) x y p q h =
    let halves =
      bit_ext w (x / 2) (y / 2) (omega (arith, pow-suc 2 w)) (omega (arith, pow-suc 2 w))
        (λ i r. h (suc i) (omega arith)) in
    ground (arith, h 0 (omega arith), halves)

-- The digits from the width on are 0.
pub bit_beyond : (w x i : ℕ) → x < 2 ^ w → w ≤ i → bit x i ≡ false
bit_beyond zero x i h p = let e : x ≡ 0 = omega arith in rw e (bit-zero i)
bit_beyond (suc w) x zero h p = absurd (omega arith)
bit_beyond (suc w) x (suc i) h p = bit_beyond w (x / 2) i (omega (arith, pow-suc 2 w)) (omega arith)

zero-bit_and : (y : ℕ) → bit_and 0 y ≡ 0
zero-bit_and y = bit_and-bitwise 0 y

pub bit_and-lt : (w x y : ℕ) → x < 2 ^ w → bit_and x y < 2 ^ w
bit_and-lt zero x y h =
    let e : x ≡ 0 = omega arith in rw e (ground (arith, bit_and_step 0 y, zero-bit_and y))
bit_and-lt (suc w) x y h = omega (
  arith,
  bit_and_step x y,
  pow-suc 2 w,
  bit_and-lt w (x / 2) (y / 2) (omega (arith, pow-suc 2 w)),
)

pub bit_or-lt : (w x y : ℕ) → x < 2 ^ w → y < 2 ^ w → bit_or x y < 2 ^ w
bit_or-lt zero x y h k =
    let e : x ≡ 0 = omega arith in let e' : y ≡ 0 = omega arith in rw (e, e') (omega arith)
bit_or-lt (suc w) x y h k = omega (
  arith,
  bit_or_step x y,
  pow-suc 2 w,
  bit_or-lt w (x / 2) (y / 2) (omega (arith, pow-suc 2 w)) (omega (arith, pow-suc 2 w)),
)

pub lt-two_pow_self : (x : ℕ) → x < 2 ^ x
lt-two_pow_self zero = omega arith
lt-two_pow_self (suc x) = omega (arith, pow-suc 2 x, lt-two_pow_self x)

-- A number is 0 exactly when no digit of it is set.
pub eq_zero_of_bits : (x : ℕ) → ((i : ℕ) → bit x i ≡ false) → x ≡ 0
eq_zero_of_bits x h =
    bit_ext x x 0 (lt-two_pow_self x) (two_pow_pos x) (λ i _. h i ∙ sym (bit-zero i))

pub ne_zero_of_bit : (x i : ℕ) → bit x i ≡ true → x ≢ 0
ne_zero_of_bit x i h e = let f : bit 0 i ≡ true = rw (← e) h in cc (bit-zero i)

zero-and : (x : ℕ) → bit_and x 0 ≡ 0
zero-and x = eq_zero_of_bits (bit_and x 0) (λ i. bit-bit_and x 0 i ∙ rw (bit-zero i) (ground arith))

-- A mask of the low k digits is the remainder by 2 ^ k.
pub bit_and_low_mask : (k x : ℕ) → bit_and x (2 ^ k - 1) ≡ x % 2 ^ k
bit_and_low_mask zero x = rw (zero-and x) (omega arith)
bit_and_low_mask (suc k) x =
    let high = x / 2 / 2 ^ k in
    let low = x / 2 % 2 ^ k * 2 + x % 2 in
    let split : x ≡ 2 ^ suc k * high + low =
      omega (arith, div-add-mod (x / 2) (2 ^ k), ap (λ (t : ℕ). t * high) (pow-suc 2 k)) in
    let small : low < 2 ^ suc k = omega (arith, pow-suc 2 k, mod-lt (x / 2) (two_pow_pos k)) in
    let masked : bit_and x (2 ^ suc k - 1) ≡ low =
      let half : (2 ^ suc k - 1) / 2 ≡ 2 ^ k - 1 = omega (arith, pow-suc 2 k, two_pow_pos k) in
      bit_and_step x (2 ^ suc k - 1)
      ∙ rw half (omega (arith, bit_and_low_mask k (x / 2), pow-suc 2 k, two_pow_pos k)) in
    masked
    ∙ sym (
        ap (λ (t : ℕ). t % 2 ^ suc k) split
        ∙ mul-add-mod_self_left (2 ^ suc k) high low
        ∙ mod-eq_of_lt small)
