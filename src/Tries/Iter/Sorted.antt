-- ===== src/Tries/Iter/Sorted.antt =====
-- The entries of a trie ascend.
use mathlib.Core.List.{append_assoc}
use Prim.Native.Nat.{Ordering}
use arity_arrays.Common.{
  ℕ, suc, ◌<◌, ◌≤◌, ◌≡◌, refl, sym, ◌∙◌, ap, subst, true, false, Option, none, some, ◌==◌, ==_iff,
  ltb, List, [], ◌∷◌, ◌++◌, arith,
}
use arity_arrays.Tries.Paths.{cmp}
use arity_arrays.Tries.Node.{Node, Children, node, mem_edge, nil, cons, partial_path}
use arity_arrays.Tries.Walk.Order.{preorder, preorder_below, IsOrdered, AreOrdered}
use arity_arrays.Tries.Iter.Entries.{entry, entry-append, valued, valued-append}

-- Every path of the list comes after the path.
abbrev pub AreAfter : {V : Type 0} → List ℕ → List (List ℕ × V) → Type 0
AreAfter path [] = Unit
AreAfter path ((q, v) ∷ xs) = (cmp path q ≡ Ordering.lt) × AreAfter path xs

-- The paths ascend strictly.
abbrev pub AreSorted : {V : Type 0} → List (List ℕ × V) → Type 0
AreSorted [] = Unit
AreSorted ((q, v) ∷ xs) = AreAfter q xs × AreSorted xs

-- A path that goes on from another with an index, from lo on.
record GoesOn (path : List ℕ) (lo : ℕ) (q : List ℕ) : Type 0 where
  pub index : ℕ
  pub rest : List ℕ
  pub is : q ≡ path ++ (index ∷ rest)
  pub le : lo ≤ index

abbrev From : {V : Type 0} → List ℕ → ℕ → List (List ℕ × V) → Type 0
From path lo [] = Unit
From path lo ((q, v) ∷ xs) = GoesOn path lo q × From path lo xs

-- Every path goes on from path with j.
abbrev Through : {V : Type 0} → List ℕ → ℕ → List (List ℕ × V) → Type 0
Through path j [] = Unit
Through path j ((q, v) ∷ xs) = ((rest : List ℕ) × (q ≡ path ++ (j ∷ rest))) × Through path j xs

same : (x : ℕ) → (x == x) ≡ true
same x = (==_iff x x).1 refl

cmp-extend : (path t : List ℕ) (i : ℕ) → cmp path (path ++ (i ∷ t)) ≡ Ordering.lt
cmp-extend [] t i = refl
cmp-extend (x ∷ path) t i = rw (same x) (cmp-extend path t i)

cmp-part :
    (path s t : List ℕ) (j k : ℕ) → j < k → cmp (path ++ (j ∷ s)) (path ++ (k ∷ t)) ≡ Ordering.lt
cmp-part [] s t j k less =
    let other : (j == k) ≡ false = ground arith in
    let lt : ltb j k ≡ true = ground arith in rw (other, lt)
cmp-part (x ∷ path) s t j k less = rw (same x) (cmp-part path s t j k less)

module _ {V : Type 0} where
  From-AreAfter :
      (path : List ℕ) (lo : ℕ) (xs : List (List ℕ × V)) → From path lo xs → AreAfter path xs
  From-AreAfter path lo [] h = tt
  From-AreAfter path lo ((q, v) ∷ xs) h =
      (rw h.0.is (cmp-extend path h.0.rest h.0.index), From-AreAfter path lo xs h.1)

  After-append :
      (q : List ℕ) (xs ys : List (List ℕ × V))
      → AreAfter q xs
      → AreAfter q ys
      → AreAfter q (xs ++ ys)
  After-append q [] ys h k = k
  After-append q ((r, v) ∷ xs) ys h k = (h.0, After-append q xs ys h.1 k)

  through_before-From :
      (path t q : List ℕ) (j : ℕ) (ys : List (List ℕ × V))
      → q ≡ path ++ (j ∷ t)
      → From path (suc j) ys
      → AreAfter q ys
  through_before-From path t q j [] is h = tt
  through_before-From path t q j ((r, v) ∷ ys) is h =
      let first = h.0 in
      let le = first.le in
      (
        rw (is, first.is) (cmp-part path t first.rest j first.index (omega arith)),
        through_before-From path t q j ys is h.1,
      )

  Sorted-append :
      (path : List ℕ) (j : ℕ) (xs ys : List (List ℕ × V))
      → Through path j xs
      → From path (suc j) ys
      → AreSorted xs
      → AreSorted ys
      → AreSorted (xs ++ ys)
  Sorted-append path j [] ys through from h k = k
  Sorted-append path j ((q, v) ∷ xs) ys through from h k = (
    After-append q xs ys h.0 (through_before-From path through.0.0 q j ys through.0.1 from),
    Sorted-append path j xs ys through.1 from h.1 k,
  )

  Through-From :
      (path : List ℕ) (j lo : ℕ) (xs : List (List ℕ × V))
      → lo ≤ j
      → Through path j xs
      → From path lo xs
  Through-From path j lo [] le h = tt
  Through-From path j lo ((q, v) ∷ xs) le h =
      (record { index = j; rest = h.0.0; is = h.0.1; le = le }, Through-From path j lo xs le h.1)

  From-append :
      (path : List ℕ) (lo : ℕ) (xs ys : List (List ℕ × V))
      → From path lo xs
      → From path lo ys
      → From path lo (xs ++ ys)
  From-append path lo [] ys h k = k
  From-append path lo ((q, v) ∷ xs) ys h k = (h.0, From-append path lo xs ys h.1 k)

  From-weaken :
      (path : List ℕ) (lo hi : ℕ) (xs : List (List ℕ × V))
      → lo ≤ hi
      → From path hi xs
      → From path lo xs
  From-weaken path lo hi [] le h = tt
  From-weaken path lo hi ((q, v) ∷ xs) le h =
      let first = h.0 in
      let more = first.le in
      (
        record { index = first.index; rest = first.rest; is = first.is; le = omega arith },
        From-weaken path lo hi xs le h.1,
      )

  -- What is below a child's full path goes through the child.
  From-Through :
      (path p : List ℕ) (j lo : ℕ) (xs : List (List ℕ × V))
      → From (path ++ (j ∷ p)) lo xs
      → Through path j xs
  From-Through path p j lo [] h = tt
  From-Through path p j lo ((q, v) ∷ xs) h = (
    (p ++ (h.0.index ∷ h.0.rest), h.0.is ∙ append_assoc path (j ∷ p) (h.0.index ∷ h.0.rest)),
    From-Through path p j lo xs h.1,
  )

  entry-Through :
      (path p : List ℕ) (j : ℕ) (v : Option V) (xs : List (List ℕ × V))
      → Through path j xs
      → Through path j (entry (path ++ (j ∷ p)) v xs)
  entry-Through path p j none xs h = h
  entry-Through path p j (some v) xs h = ((p, refl), h)

  entry-AreSorted :
      (path : List ℕ) (v : Option V) (xs : List (List ℕ × V))
      → From path 0 xs
      → AreSorted xs
      → AreSorted (entry path v xs)
  entry-AreSorted path none xs from h = h
  entry-AreSorted path (some v) xs from h = (From-AreAfter path 0 xs from, h)

-- What the entries below a path are.
abbrev Fine : {V : Type 0} → List ℕ → ℕ → List (List ℕ × V) → Type 0
Fine path lo xs = AreSorted xs × From path lo xs

joined :
    {V : Type 0}
    → (path p : List ℕ) (j lo : ℕ) (v : Option V) (deep later : List (List ℕ × V)) → lo ≤ j
    → Fine (path ++ (j ∷ p)) 0 deep
    → Fine path (suc j) later
    → Fine path lo (entry (path ++ (j ∷ p)) v deep ++ later)
joined path p j lo v deep later le (sorted, from) (sorted', from') =
    let through = entry-Through path p j v deep (From-Through path p j 0 deep from) in
    (
      Sorted-append path j (entry (path ++ (j ∷ p)) v deep) later through from'
          (entry-AreSorted (path ++ (j ∷ p)) v deep from sorted) sorted',
      From-append path lo (entry (path ++ (j ∷ p)) v deep) later
          (Through-From path j lo (entry (path ++ (j ∷ p)) v deep) le through)
          (From-weaken path lo (suc j) later (omega arith) from'),
    )

module _ {V H : Type 0} where
  below-Fine :
      (cs : Children V H) (lo : ℕ) (path : List ℕ)
      → AreOrdered lo cs
      → Fine path lo (valued (preorder_below path cs))
  unfolding preorder IsOrdered
  below-Fine nil lo path ordered = (tt, tt)
  below-Fine (cons j (mem_edge (node p v cm) hash) cs) lo path ordered =
      let full = path ++ (j ∷ p) in
      let deep = valued (preorder_below full cm) in
      let later = valued (preorder_below path cs) in
      subst (Fine path lo)
        (sym (entry-append full v deep later)
          ∙ ap (entry full v)
              (sym (valued-append (preorder_below full cm) (preorder_below path cs))))
        (joined path p j lo v deep later ordered.0 (below-Fine cm 0 full ordered.1)
          (below-Fine cs (suc j) path ordered.2))

  pub valued-AreSorted :
      (n : Node V H) → IsOrdered n → AreSorted (valued (preorder (partial_path n) n))
  unfolding preorder IsOrdered
  valued-AreSorted (node p v cs) ordered =
      let (sorted, from) = below-Fine cs 0 p ordered in
      entry-AreSorted p v (valued (preorder_below p cs)) from sorted
