-- ===== src/Tries/Hash/Removal/Calls.antt =====
-- A property of what a call returns, through the calls that make it up.
use arity_arrays.Common.{Bool, true, false, Option, none, some, ◌>>=◌, if◌then◌else◌}

module _ {A : Type 0} where
  -- A property of what a call returns.
  abbrev pub Holds : (A → Type 0) → Option A → Type 0
  Holds P none = Unit
  Holds P (some a) = P a

module _ {A B : Type 0} (P : A → Type 0) (Q : B → Type 0) where
  pub bind-Holds :
      (m : Option A) (f : A → Option B)
      → Holds P m
      → ((a : A) → P a → Holds Q (f a))
      → Holds Q (m >>= f)
  bind-Holds none f h k = tt
  bind-Holds (some a) f h k = k a h

module _ {A : Type 0} where
  abbrev pub Anything : A → Type 0
  Anything a = Unit

  pub any-Holds : (m : Option A) → Holds Anything m
  any-Holds none = tt
  any-Holds (some a) = tt

module _ {A : Type 0} (P : A → Type 0) where
  pub if-Holds : (b : Bool) (x y : Option A) → Holds P x → Holds P y → Holds P (if b then x else y)
  if-Holds true x y h k = h
  if-Holds false x y h k = k
