-- ===== src/Iteration/Draws.antt =====
-- Draws from both ends in any order: an iterator that refines a list hands out the items of the
-- list, each to one end.
use arity_arrays.Common.{◌≡◌, refl, List, [], ◌∷◌, ◌++◌, Option, none, some, ◌>>=◌, ap}
use arity_arrays.Iteration.{DoubleEnded, Refines}

pub data End : Type 0 where
  front back : End

-- The last element, and the ones before it.
abbrev pub split_last {ℓ} : {A : Type ℓ} → A → List A → List A × A
split_last x [] = ([], x)
split_last x (y ∷ ys) = let (before, last) = split_last y ys in (x ∷ before, last)

pub split_last_lem {ℓ} :
    {A : Type ℓ} (x : A) (xs : List A) → x ∷ xs ≡ (split_last x xs).0 ++ (split_last x xs).1 ∷ []
split_last_lem x [] = refl
split_last_lem x (y ∷ ys) = ap (◌∷◌ x) (split_last_lem y ys)

abbrev pub draw_front {ℓ} : {A : Type ℓ} → List A → Option A × List A
draw_front [] = (none, [])
draw_front (x ∷ xs) = (some x, xs)

abbrev pub draw_back {ℓ} : {A : Type ℓ} → List A → Option A × List A
draw_back [] = (none, [])
draw_back (x ∷ xs) = let (before, last) = split_last x xs in (some last, before)

-- The items that a sequence of draws hands out, and those left.
pub draws {ℓ} : {A : Type ℓ} → List End → List A → List (Option A) × List A
draws [] xs = ([], xs)
draws (front ∷ ends) xs =
    let (x, rest) = draw_front xs in let (out, left) = draws ends rest in (x ∷ out, left)
draws (back ∷ ends) xs =
    let (x, rest) = draw_back xs in let (out, left) = draws ends rest in (x ∷ out, left)

module _ {S Item : Type 0} (it : DoubleEnded S Item) where
  pub run : List End → S → Option (List (Option Item) × S)
  run [] s = some ([], s)
  run (front ∷ ends) s = it.next s >>= λ (x, s'). run ends s' >>= λ (out, s''). some (x ∷ out, s'')
  run (back ∷ ends) s =
      it.next_back s >>= λ (x, s'). run ends s' >>= λ (out, s''). some (x ∷ out, s'')

module _ {S Item : Type 0} {it : DoubleEnded S Item} {View : S → List Item → Type 0}
    (r : Refines it View) where
  step_front :
      (s : S) (xs : List Item)
      → View s xs
      → (s' : S) × (it.next s ≡ some ((draw_front xs).0, s')) × View s' (draw_front xs).1
  step_front s [] v = r.next_nil s v
  step_front s (x ∷ xs) v = r.next_cons s x xs v

  step_back :
      (s : S) (xs : List Item)
      → View s xs
      → (s' : S) × (it.next_back s ≡ some ((draw_back xs).0, s')) × View s' (draw_back xs).1
  step_back s [] v = r.next_back_nil s v
  step_back s (x ∷ xs) v =
      r.next_back_snoc s (split_last x xs).1 (split_last x xs).0 (rw (split_last_lem x xs) at v)

  -- No sequence of draws faults, and it hands out what the list would.
  pub run_refines :
      (ends : List End) (s : S) (xs : List Item)
      → View s xs
      → (s' : S) × (run it ends s ≡ some ((draws ends xs).0, s')) × View s' (draws ends xs).1
  unfolding run draws
  run_refines [] s xs v = (s, refl, v)
  run_refines (front ∷ ends) s xs v =
      let (s', e, v') = step_front s xs v in
      let (s'', e', v'') = run_refines ends s' (draw_front xs).1 v' in (s'', rw (e, e'), v'')
  run_refines (back ∷ ends) s xs v =
      let (s', e, v') = step_back s xs v in
      let (s'', e', v'') = run_refines ends s' (draw_back xs).1 v' in (s'', rw (e, e'), v'')
