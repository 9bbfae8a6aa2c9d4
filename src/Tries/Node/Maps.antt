-- ===== src/Tries/Node/Maps.antt =====
-- The child maps as maps: what a lookup reads after an insertion and a removal, and their order.
use arity_arrays.Common.{ℕ, suc, ◌<◌, ◌≤◌, ◌≡◌, refl, none, some, ◌==◌, if◌then◌else◌, arith}
use arity_arrays.Tries.Node.{Edge, Children, nil, cons, get, insert, remove}

module _ {V H : Type 0} where
  pub get-insert :
      (cs : Children V H) (i : ℕ) (e : Edge V H) (j : ℕ)
      → get (insert cs i e) j ≡ (if i == j then some e else get cs j)
  unfolding get insert
  get-insert nil i e j = refl
  get-insert (cons k d cs) i e j = ground (arith, get-insert cs i e j)

  -- The indices ascend from lo on.
  abbrev pub IsAscending : ℕ → Children V H → Type 0
  IsAscending lo nil = Unit
  IsAscending lo (cons j d cs) = (lo ≤ j) × IsAscending (suc j) cs

  pub get-below :
      (lo : ℕ) (cs : Children V H) (i : ℕ) → IsAscending lo cs → i < lo → get cs i ≡ none
  unfolding get
  get-below lo nil i h p = refl
  get-below lo (cons j d cs) i h p = ground (arith, get-below (suc j) cs i)

  pub get-remove :
      (lo : ℕ) (cs : Children V H) (i j : ℕ)
      → IsAscending lo cs
      → get (remove cs i) j ≡ (if i == j then none else get cs j)
  unfolding get remove
  get-remove lo nil i j h = ground arith
  get-remove lo (cons k d cs) i j h =
      ground (arith, get-remove (suc k) cs i j, get-below (suc k) cs j)
