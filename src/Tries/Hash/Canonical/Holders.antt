-- ===== src/Tries/Hash/Canonical/Holders.antt =====
-- Keys that a trie has values for, and what is left of one after the partial path: they force the
-- partial path.
use arity_arrays.Common.{
  ℕ, suc, ◌≡◌, refl, sym, ap, ap₂, ◌∙◌, false, Option, none, some, ◌==◌, ◌>>=◌, List, [], ◌∷◌, ◌++◌,
  arith, Bool-cases, inl, inr, ==_iff,
}
use arity_arrays.Tries.Paths.Laws.{strip, strip_self}
use arity_arrays.Tries.Node.{Node, Edge, Children, node, mem_edge, nil, cons, get, count}
use arity_arrays.Tries.Lookups.{lookup, lookup-node, after}
use arity_arrays.Tries.Structure.{IsTrie, parts_of, tries_of}

goes_on : (x : ℕ) (p k : List ℕ) → strip (x ∷ p) (x ∷ k) ≡ strip p k
goes_on x p k = rw ((==_iff x x).1 refl)

turns : (y j : ℕ) (q t : List ℕ) → (y == j) ≡ false → strip (y ∷ q) (j ∷ t) ≡ none
turns y j q t other = rw other

module _ {V : Type 0} where
  -- What is left of a key after the partial path, where it does not go on with this index.
  pub record Avoids (y : ℕ) (f : List ℕ → Option V) : Type 0 where
    rest : List ℕ
    pub held : V
    pub finds : f rest ≡ some held
    misses : (q : List ℕ) → strip (y ∷ q) rest ≡ none

  -- The partial paths are the same, and so is what comes after them.
  pub same_path :
      (p q : List ℕ) (f g : List ℕ → Option V)
      → ((y : ℕ) → Avoids y f)
      → ((y : ℕ) → Avoids y g)
      → ((k : List ℕ) → (strip p k >>= f) ≡ (strip q k >>= g))
      → (p ≡ q) × ((t : List ℕ) → f t ≡ g t)
  same_path [] [] f g avoid_f avoid_g same = (refl, same)
  same_path [] (y ∷ q) f g avoid_f avoid_g same =
      let a = avoid_f y in
      let here = same a.rest in
      let missed = rw (a.misses q) at here in let found = a.finds in absurd cc
  same_path (x ∷ p) [] f g avoid_f avoid_g same =
      let a = avoid_g x in
      let here = same a.rest in
      let missed = rw (a.misses p) at here in let found = a.finds in absurd cc
  same_path (x ∷ p) (y ∷ q) f g avoid_f avoid_g same = elim (Bool-cases (y == x)) [
    | inl eq ↦
        let is = (==_iff y x).0 eq in
        let (paths, rests) = same_path p q f g avoid_f avoid_g (λ k.
          ap (λ o. o >>= f) (sym (goes_on x p k))
          ∙ same (x ∷ k)
          ∙ ap (λ o. o >>= g) (ap (λ t. strip (t ∷ q) (x ∷ k)) is ∙ goes_on x q k)) in
        (ap₂ ◌∷◌ (sym is) paths, rests)
    | inr other ↦
        let a = avoid_f x in
        let here = same ((x ∷ p) ++ a.rest) in
        let found = rw (strip_self (x ∷ p) a.rest, a.finds) at here in
        let missed = turns y x q (p ++ a.rest) other in let clash = rw missed at found in absurd cc
  ]

module _ {V H : Type 0} where
  -- A key that a trie has a value for.
  pub record Holder (n : Node V H) : Type 0 where
    pub key : List ℕ
    pub held : V
    pub finds : lookup n key ≡ some held

  through :
      (p t : List ℕ) (v : Option V) (cs : Children V H)
      → lookup (node p v cs) (p ++ t) ≡ after v cs t
  through p t v cs = rw (lookup-node p v cs (p ++ t), strip_self p t)

  pub first_child : (j : ℕ) (e : Edge V H) (cs : Children V H) → get (cons j e cs) j ≡ some e
  unfolding get
  first_child j e cs = rw ((==_iff j j).1 refl)

  pub later_child :
      (j i : ℕ) (e : Edge V H) (cs : Children V H)
      → (j == i) ≡ false
      → get (cons j e cs) i ≡ get cs i
  unfolding get
  later_child j i e cs other = rw other

  pub holder : (n : Node V H) → IsTrie n → Holder n
  unfolding count
  holder (node p (some v) cs) h = record {
    key = p ++ [];
    held = v;
    finds = through p [] (some v) cs;
  }
  holder (node p none nil) h = let few = (parts_of p none nil h).0 in absurd (omega arith)
  holder (node p none (cons j (mem_edge n x) cs)) h =
      let below =
        holder n (tries_of 0 j n x cs (parts_of p none (cons j (mem_edge n x) cs) h).1).1 in
      record {
        key = p ++ (j ∷ below.key);
        held = below.held;
        finds =
            through p (j ∷ below.key) none (cons j (mem_edge n x) cs)
            ∙ rw (first_child j (mem_edge n x) cs) below.finds;
      }

  pub avoid :
      (y : ℕ) (p : List ℕ) (v : Option V) (cs : Children V H)
      → IsTrie (node p v cs)
      → Avoids y (after v cs)
  unfolding count
  avoid y p (some v) cs h = record { rest = []; held = v; finds = refl; misses = λ q. refl }
  avoid y p none nil h = let few = (parts_of p none nil h).0 in absurd (omega arith)
  avoid y p none (cons j d nil) h =
      let few = (parts_of p none (cons j d nil) h).0 in absurd (omega arith)
  avoid y p none (cons j (mem_edge n x) (cons k (mem_edge m z) cs)) h =
      let others = cons k (mem_edge m z) cs in
      let (le, is, rest) =
        tries_of 0 j n x others (parts_of p none (cons j (mem_edge n x) others) h).1 in
      let (less, is_m, rest_m) = tries_of (suc j) k m z cs rest in
      elim (Bool-cases (y == j)) [
        | inr other ↦
            let below = holder n is in
            record {
              rest = j ∷ below.key;
              held = below.held;
              finds = rw (first_child j (mem_edge n x) others) below.finds;
              misses = λ q. turns y j q below.key other;
            }
        | inl same ↦
            let below = holder m is_m in
            let apart : (j == k) ≡ false = ground arith in
            record {
              rest = k ∷ below.key;
              held = below.held;
              finds =
                  rw (later_child j k (mem_edge n x) others apart, first_child k (mem_edge m z) cs)
                    below.finds;
              misses = λ q. turns y k q below.key (ground arith);
            }
      ]
