-- ===== src/Tries/Hash/Scans.antt =====
-- The scan of the children in `prepare`: what it counts, and the only sealed child where there is one.
use arity_arrays.Common.{
  ℕ, suc, ◌+◌, ◌<◌, ◌≤◌, ◌≡◌, ◌≢◌, refl, sym, ap, ◌∙◌, true, false, none, some, ◌==◌, ltb, List, [],
  ◌∷◌, ◌++◌, All, All-snoc, arith, Bool-cases, inl, inr, ==_iff, suc,
}
use mathlib.Core.List.{append-nil, append_assoc}
use arity_arrays.Tries.Node.{Node, Edge, Children, mem_edge, nil, cons, get, count}
use arity_arrays.Tries.Node.Maps.{IsAscending}
use arity_arrays.Tries.Hash.Scheme.{TrieHasher, Scan, scan, scan_edge, new_scan, with_bit, put}
use arity_arrays.Tries.Hash.Digests.{inlines, sealed_count, IsExact, AreExact}

with_bit-snoc : (js : List ℕ) (i : ℕ) → All (λ j. j < i) js → with_bit js i ≡ js ++ i ∷ []
unfolding with_bit
with_bit-snoc [] i h = refl
with_bit-snoc (j ∷ js) i h =
    let less = h.0 in
    let other : (j == i) ≡ false = ground arith in
    let past : ltb i j ≡ false = ground arith in
    rw (other, past) (ap (◌∷◌ j) (with_bit-snoc js i h.1))

weaken : (i k : ℕ) (js : List ℕ) → i ≤ k → All (λ j. j < i) js → All (λ j. j < k) js
weaken i k [] le h = tt
weaken i k (j ∷ js) le h =
    let less = h.0 in let more : j < k = omega arith in (more, weaken i k js le h.1)

module _ {V H : Type 0} where
  pub scan-count : (s : Scan) (cs : Children V H) → (scan s cs).count ≡ s.count + count cs
  unfolding scan count
  scan-count s nil = omega arith
  scan-count s (cons i (mem_edge n none) cs) =
      omega (arith, scan-count (scan_edge {H = H} s i none) cs)
  scan-count s (cons i (mem_edge n (some h)) cs) =
      omega (arith, scan-count (scan_edge s i (some h)) cs)

  pub scan-sealed : (s : Scan) (cs : Children V H) → (scan s cs).sealed ≡ s.sealed + sealed_count cs
  unfolding scan
  scan-sealed s nil = omega arith
  scan-sealed s (cons i (mem_edge n none) cs) =
      omega (arith, scan-sealed (scan_edge {H = H} s i none) cs)
  scan-sealed s (cons i (mem_edge n (some h)) cs) =
      omega (arith, scan-sealed (scan_edge s i (some h)) cs)

  scan-pending_from :
      (lo : ℕ) (s : Scan) (cs : Children V H)
      → IsAscending lo cs
      → All (λ j. j < lo) s.pending
      → (scan s cs).pending ≡ s.pending ++ inlines cs
  unfolding scan
  scan-pending_from lo s nil h below = sym (append-nil s.pending)
  scan-pending_from lo s (cons i (mem_edge n none) cs) h below =
      let less = weaken lo i s.pending h.0 below in
      let s' = scan_edge {H = H} s i none in
      let is = with_bit-snoc s.pending i less in
      let next : All (λ j. j < suc i) s'.pending = rw is (
        All-snoc (λ j. j < suc i) s.pending i (weaken i (suc i) s.pending (omega arith) less)
          (omega arith)) in
      scan-pending_from (suc i) s' cs h.1 next
      ∙ ap (λ t. t ++ inlines cs) is
      ∙ append_assoc s.pending (i ∷ []) (inlines cs)
  scan-pending_from lo s (cons i (mem_edge n (some x)) cs) h below =
      let first = h.0 in
      scan-pending_from (suc i) (scan_edge s i (some x)) cs h.1
        (weaken lo (suc i) s.pending (omega arith) below)

  pub scan-pending :
      (cs : Children V H) → IsAscending 0 cs → (scan new_scan cs).pending ≡ inlines cs
  scan-pending cs h = scan-pending_from 0 new_scan cs h tt

  scan_last :
      (s : Scan) (cs : Children V H) → sealed_count cs ≡ 0 → (scan s cs).last_sealed ≡ s.last_sealed
  unfolding scan
  scan_last s nil h = refl
  scan_last s (cons i (mem_edge n none) cs) h = scan_last (scan_edge {H = H} s i none) cs h
  scan_last s (cons i (mem_edge n (some x)) cs) h = absurd (omega arith)

  -- The only sealed child.
  pub record OnlySealed (s : Scan) (lo : ℕ) (cs : Children V H) : Type 0 where
    pub index : ℕ
    pub child : Node V H
    pub hash : H
    pub above : lo ≤ index
    pub is_last : (scan s cs).last_sealed ≡ some index
    pub there : get cs index ≡ some (mem_edge child (some hash))
    pub pending : with_bit (inlines cs) index ≡ inlines (put cs index (mem_edge child none))

  lift : (i j : ℕ) (cs : Children V H) → i ≤ j → IsAscending j cs → IsAscending i cs
  lift i j nil le h = tt
  lift i j (cons k e cs) le h = let first = h.0 in let more : i ≤ k = omega arith in (more, h.1)

  with_bit-least :
      (i : ℕ) (cs : Children V H)
      → IsAscending (suc i) cs
      → with_bit (inlines cs) i ≡ i ∷ inlines cs
  unfolding with_bit
  with_bit-least i nil h = refl
  with_bit-least i (cons j (mem_edge n none) cs) h =
      let first = h.0 in
      let other : (j == i) ≡ false = ground arith in
      let less : ltb i j ≡ true = ground arith in rw (other, less)
  with_bit-least i (cons j (mem_edge n (some x)) cs) h =
      let first = h.0 in with_bit-least i cs (lift (suc i) (suc j) cs (omega arith) h.1)

  pub only_sealed :
      (s : Scan) (lo : ℕ) (cs : Children V H)
      → IsAscending lo cs
      → sealed_count cs ≡ 1
      → OnlySealed s lo cs
  unfolding scan get put with_bit
  only_sealed s lo nil asc one = absurd (omega arith)
  only_sealed s lo (cons j (mem_edge n none) cs) asc one =
      let rest = only_sealed (scan_edge {H = H} s j none) (suc j) cs asc.1 one in
      let above = rest.above in
      let first = asc.0 in
      let other : (j == rest.index) ≡ false = ground arith in
      let past : ltb rest.index j ≡ false = ground arith in
      record {
        index = rest.index;
        child = rest.child;
        hash = rest.hash;
        above = omega arith;
        is_last = rest.is_last;
        there = rw other rest.there;
        pending = rw (other, past) (ap (◌∷◌ j) rest.pending);
      }
  only_sealed s lo (cons j (mem_edge n (some x)) cs) asc one =
      let same = (==_iff j j).1 refl in
      record {
        index = j;
        child = n;
        hash = x;
        above = asc.0;
        is_last = scan_last (scan_edge s j (some x)) cs (omega arith);
        there = rw same;
        pending = rw same (with_bit-least j cs asc.1);
      }

  none-sealed :
      (cs : Children V H) (i : ℕ) (n : Node V H) (h : H)
      → sealed_count cs ≡ 0
      → get cs i ≢ some (mem_edge n (some h))
  unfolding get
  none-sealed nil i n h zero_sealed there = cc
  none-sealed (cons j (mem_edge m none) cs) i n h zero_sealed there = elim (Bool-cases (j == i)) [
    | inl same ↦ let found = rw same at there in cc
    | inr other ↦ none-sealed cs i n h zero_sealed (rw other at there)
  ]
  none-sealed (cons j (mem_edge m (some x)) cs) i n h zero_sealed there = absurd (omega arith)

  module _ (hasher : TrieHasher V H) where
    pub none-AreExact :
        (path : List ℕ) (c : ℕ) (cs : Children V H)
        → sealed_count cs ≡ 0
        → AreExact hasher path c cs
    none-AreExact path c nil h = tt
    none-AreExact path c (cons j (mem_edge n none) cs) h = (tt, none-AreExact path c cs h)
    none-AreExact path c (cons j (mem_edge n (some x)) cs) h = absurd (omega arith)

    -- Once the only sealed child is exact, all are.
    pub only-AreExact :
        (path : List ℕ) (c : ℕ) (cs : Children V H) (i : ℕ) (n : Node V H) (h : H) (e : Edge V H)
        → sealed_count cs ≡ 1
        → get cs i ≡ some (mem_edge n (some h))
        → IsExact hasher (path ++ (i ∷ [])) c e
        → AreExact hasher path c (put cs i e)
    unfolding get put
    only-AreExact path c nil i n h e one there is = tt
    only-AreExact path c (cons j (mem_edge m none) cs) i n h e one there is =
        elim (Bool-cases (j == i)) [
          | inl same ↦ let found = rw same at there in cc
          | inr other ↦ rw other (tt, only-AreExact path c cs i n h e one (rw other at there) is)
        ]
    only-AreExact path c (cons j (mem_edge m (some x)) cs) i n h e one there is =
        let rest = none-AreExact path c cs (omega arith) in
        elim (Bool-cases (j == i)) [
          | inl same ↦ let eq = (==_iff j i).0 same in rw (same, eq) (is, rest)
          | inr other ↦ absurd (none-sealed cs i n h (omega arith) (rw other at there))
        ]
