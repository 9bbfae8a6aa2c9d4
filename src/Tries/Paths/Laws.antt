-- ===== src/Tries/Paths/Laws.antt =====
-- The laws of paths: the common prefix, and the rest of a key after a prefix.
use arity_arrays.Common.{
  ℕ, suc, ◌≡◌, ◌<◌, length-append, refl, ap, true, false, Option, none, some, ◌==◌, ==_iff,
  if◌then◌else◌, ◌>>=◌, List, [], ◌∷◌, ◌++◌, length, arith, Bool-cases, inl, inr, Bool, ◌∙◌,
}
use arity_arrays.Tries.Paths.{
  path_eq, join, PrefixOverlap, slice_to, slice_from, shared_len, common_prefix,
}

pub path_eq_refl : (a : List ℕ) → path_eq a a ≡ true
path_eq_refl [] = refl
path_eq_refl (x ∷ a) = rw ((==_iff x x).1 refl) (path_eq_refl a)

pub eq_of_path_eq : (a b : List ℕ) → path_eq a b ≡ true → a ≡ b
eq_of_path_eq [] [] e = refl
eq_of_path_eq [] (y ∷ b) e = cc
eq_of_path_eq (x ∷ a) [] e = cc
eq_of_path_eq (x ∷ a) (y ∷ b) e = elim (Bool-cases (x == y)) [
  | inl same ↦ let rest = eq_of_path_eq a b (rw same at e) in let head = (==_iff x y).0 same in cc
  | inr other ↦ let f = rw other at e in cc
]

-- Two paths that part at once, or one of which has ended.
abbrev pub Parts : List ℕ → List ℕ → Type 0
Parts [] b = Unit
Parts (x ∷ a) [] = Unit
Parts (x ∷ a) (y ∷ b) = (x == y) ≡ false

-- What an overlap is of two paths.
pub record IsOverlap (a b : List ℕ) (o : PrefixOverlap) : Type 0 where
  pub is_a : a ≡ o.shared ++ o.unique_a
  pub is_b : b ≡ o.shared ++ o.unique_b
  pub parts : Parts o.unique_a o.unique_b
  pub length_shared : length o.shared ≡ shared_len a b

slices :
    (a b : List ℕ)
    → (o : PrefixOverlap) × (slice_to a (shared_len a b) ≡ some o.shared)
      × (slice_from a (shared_len a b) ≡ some o.unique_a)
      × (slice_from b (shared_len a b) ≡ some o.unique_b)
      × IsOverlap a b o
unfolding slice_to slice_from shared_len
slices [] b = (
  record { shared = []; unique_a = []; unique_b = b },
  refl,
  refl,
  refl,
  record { is_a = refl; is_b = refl; parts = tt; length_shared = refl },
)
slices (x ∷ a) [] = (
  record { shared = []; unique_a = x ∷ a; unique_b = [] },
  refl,
  refl,
  refl,
  record { is_a = refl; is_b = refl; parts = tt; length_shared = refl },
)
slices (x ∷ a) (y ∷ b) = elim (Bool-cases (x == y)) [
  | inl same ↦
      let (o, to, from_a, from_b, over) = slices a b in
      let head = (==_iff x y).0 same in
      (
        record o { shared = x ∷ o.shared },
        rw (same, to),
        rw (same, from_a),
        rw (same, from_b),
        record {
          is_a = ap (◌∷◌ x) over.is_a;
          is_b = rw (← head) (ap (◌∷◌ x) over.is_b);
          parts = over.parts;
          length_shared = rw same (ap suc over.length_shared);
        },
      )
  | inr other ↦ (
    record { shared = []; unique_a = x ∷ a; unique_b = y ∷ b },
    rw other,
    rw other,
    rw other,
    record { is_a = refl; is_b = refl; parts = other; length_shared = rw other },
  )
]

-- `common_prefix` never slices out of range, and its three parts are the longest common prefix of a
-- and b with the two rests: these make up a and b, and do not start with the same index.
pub common_prefix-IsOverlap :
    (a b : List ℕ) → (o : PrefixOverlap) × (common_prefix a b ≡ some o) × IsOverlap a b o
unfolding common_prefix
common_prefix-IsOverlap a b =
    let (o, to, from_a, from_b, over) = slices a b in (o, rw (to, from_a, from_b), over)

-- The rest of a key after a prefix, and none if the key does not start with it.
abbrev pub strip : List ℕ → List ℕ → Option (List ℕ)
strip [] key = some key
strip (x ∷ p) [] = none
strip (x ∷ p) (y ∷ key) = if x == y then strip p key else none

pub strip-append : (p q key : List ℕ) → strip (p ++ q) key ≡ (strip p key >>= strip q)
strip-append [] q key = refl
strip-append (x ∷ p) q [] = refl
strip-append (x ∷ p) q (y ∷ key) = elim (Bool-cases (x == y)) [
  | inl same ↦ rw same (strip-append p q key)
  | inr other ↦ rw other
]

pub strip_self : (p q : List ℕ) → strip p (p ++ q) ≡ some q
strip_self [] q = refl
strip_self (x ∷ p) q = rw ((==_iff x x).1 refl) (strip_self p q)

-- Whether a key is the path or, with the flag, starts with it.
abbrev pub covers : Bool → List ℕ → List ℕ → Bool
covers below [] [] = true
covers below [] (y ∷ key) = below
covers below (x ∷ path) [] = false
covers below (x ∷ path) (y ∷ key) = if x == y then covers below path key else false

pub path_eq-covers : (path key : List ℕ) → path_eq path key ≡ covers false path key
path_eq-covers [] [] = refl
path_eq-covers [] (y ∷ key) = refl
path_eq-covers (x ∷ path) [] = refl
path_eq-covers (x ∷ path) (y ∷ key) = elim (Bool-cases (x == y)) [
  | inl same ↦ rw same (path_eq-covers path key)
  | inr other ↦ rw other
]

-- A map on keys that starts with a prefix p and then agrees with F differs from one that then agrees
-- with G at p ++ q only, if F differs from G at q only.
pub strip-update {ℓ} :
    {V : Type ℓ} (below : Bool) (p q key : List ℕ) (v : Option V) (F G : List ℕ → Option V)
    → ((t : List ℕ) → F t ≡ (if covers below q t then v else G t))
    → (strip p key >>= F) ≡ (if covers below (p ++ q) key then v else (strip p key >>= G))
strip-update below [] q key v F G h = h key
strip-update below (x ∷ p) q [] v F G h = refl
strip-update below (x ∷ p) q (y ∷ key) v F G h = elim (Bool-cases (x == y)) [
  | inl same ↦ rw same (strip-update below p q key v F G h)
  | inr other ↦ rw other
]

pub strip_shared : (s a b : List ℕ) → strip (s ++ a) (s ++ b) ≡ strip a b
strip_shared [] a b = refl
strip_shared (x ∷ s) a b = rw ((==_iff x x).1 refl) (strip_shared s a b)

pub strip_apart : (i : ℕ) (a b : List ℕ) → Parts b (i ∷ a) → strip (i ∷ a) b ≡ none
strip_apart i a [] apart = refl
strip_apart i a (j ∷ b) apart = elim (Bool-cases (i == j)) [
  | inl same ↦ absurd (ground arith)
  | inr other ↦ rw other
]

pub append_nil : (p : List ℕ) → (p ++ []) ≡ p
append_nil [] = refl
append_nil (x ∷ p) = ap (◌∷◌ x) (append_nil p)

pub bind_assoc {ℓ} :
    {V : Type ℓ} (m : Option (List ℕ)) (F : List ℕ → Option (List ℕ)) (G : List ℕ → Option V)
    → ((m >>= F) >>= G) ≡ (m >>= λ t. F t >>= G)
bind_assoc none F G = refl
bind_assoc (some t) F G = refl

-- The rest of a key after a descent step is shorter.
pub shorter_than :
    (s a rest key : List ℕ) (fuel : ℕ)
    → rest ≡ s ++ a
    → length key < length a
    → length rest < suc fuel
    → length key < fuel
shorter_than s a rest key fuel is_rest shorter h =
    let eq = ap length is_rest in let split = length-append s a in omega arith

pub join_cons : (head : List ℕ) (i : ℕ) (tail : List ℕ) → join head i tail ≡ head ++ (i ∷ tail)
unfolding join
join_cons [] i tail = refl
join_cons (x ∷ head) i tail = ap (◌∷◌ x) (join_cons head i tail)

pub eq_of_covers : (path key : List ℕ) → covers false path key ≡ true → path ≡ key
eq_of_covers path key h = eq_of_path_eq path key (path_eq-covers path key ∙ h)
