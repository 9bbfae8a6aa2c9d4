-- ===== src/Iteration.antt =====
-- Rust's double-ended, exact-size iterators, as an interface: what `Iterator`,
-- `DoubleEndedIterator` and `ExactSizeIterator` ask of an implementation of this workspace.
-- A call returns the item and the new state; `none` outside is a panic or undefined behaviour.
pub mod Draws
use arity_arrays.Common.{ℕ, ◌≡◌, List, [], ◌∷◌, ◌++◌, Option, none, some, length}

pub record DoubleEnded (S : Type 0) (Item : Type 0) : Type 0 where
  pub next : S → Option (Option Item × S)
  pub next_back : S → Option (Option Item × S)
  pub len : S → ℕ

-- A call that yields x and leaves a state that shows xs.
abbrev pub Yields :
    {S Item : Type 0}
    → (S → List Item → Type 0)
    → Option (Option Item × S)
    → Option Item
    → List Item
    → Type 0
Yields {S} View call x xs = (s : S) × (call ≡ some (x, s)) × View s xs

-- `View s xs` says that xs are the items that s has left, in ascending order.
pub record Refines {S Item : Type 0} (it : DoubleEnded S Item) (View : S → List Item → Type 0)
    : Type 0 where
  pub next_nil : (s : S) → View s [] → Yields View (it.next s) none []
  pub next_cons :
      (s : S) (x : Item) (xs : List Item) → View s (x ∷ xs) → Yields View (it.next s) (some x) xs
  pub next_back_nil : (s : S) → View s [] → Yields View (it.next_back s) none []
  pub next_back_snoc :
      (s : S) (x : Item) (xs : List Item)
      → View s (xs ++ x ∷ [])
      → Yields View (it.next_back s) (some x) xs
  pub len_lem : (s : S) (xs : List Item) → View s xs → it.len s ≡ length xs
