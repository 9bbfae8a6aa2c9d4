-- ===== src/Tries/Hash/Scheme.antt =====
-- crates/arity-tries/src/hash.rs: the hash scheme, and what the walk does at one node. The hasher is a
-- parameter, as it is in the source. The set of the children still to hash is the list of their
-- indices, ascending. `none` is a panic.
use arity_arrays.Common.{
  ℕ, suc, Bool, true, false, Option, none, some, ◌>>=◌, ◌==◌, ltb, if◌then◌else◌, ◌||◌, List, [],
  ◌∷◌,
}
use arity_arrays.Tries.Node.{
  Node, Edge, Children, nil, cons, partial_path, value, children, set_value, set_children, get,
  seal, hash as hash_of,
}

pub record HashInput (V H : Type 0) : Type 0 where
  pub leading_path : List ℕ
  pub partial_path : List ℕ
  pub value : Option V
  pub siblings : ℕ
  pub children : List (ℕ × H)

pub record TrieHasher (V H : Type 0) : Type 0 where
  pub hash_node : HashInput V H → H
  pub sibling_sensitive : List ℕ → List ℕ → Bool
  pub update_value : List ℕ → List ℕ → List (ℕ × H) → V → V

-- The defaults of the trait.
abbrev pub default_sensitive : List ℕ → List ℕ → Bool
default_sensitive leading partial = false

abbrev pub default_update : {V H : Type 0} → List ℕ → List ℕ → List (ℕ × H) → V → V
default_update leading partial children v = v

pub record Frame : Type 0 where
  pub index_in_parent : Option ℕ
  pub leading_len : ℕ
  pub siblings : ℕ
  pub count : ℕ
  pub pending : List ℕ

-- The variables of the scan in `prepare`.
pub record Scan : Type 0 where
  pub pending : List ℕ
  pub count : ℕ
  pub sealed : ℕ
  pub last_sealed : Option ℕ

-- `Bitmap::with_bit` on the set of indices.
unfoldable pub with_bit : List ℕ → ℕ → List ℕ
with_bit [] i = i ∷ []
with_bit (j ∷ js) i =
    let rest = with_bit js i in
    if j == i then j ∷ js else (if ltb i j then i ∷ j ∷ js else j ∷ rest)

module _ {H : Type 0} where
  abbrev pub is_none : Option H → Bool
  is_none none = true
  is_none (some h) = false

  abbrev pub scan_edge : Scan → ℕ → Option H → Scan
  scan_edge s i none = record s { pending = with_bit s.pending i; count = suc s.count }
  scan_edge s i (some h) = record s {
    count = suc s.count;
    sealed = suc s.sealed;
    last_sealed = some i;
  }

abbrev pub new_scan : Scan
new_scan = record { pending = []; count = 0; sealed = 0; last_sealed = none }

module _ {V H : Type 0} where
  -- A write through `ChildMap::get_mut`: the edge at an index that is present.
  unfoldable pub put : Children V H → ℕ → Edge V H → Children V H
  put nil i e = nil
  put (cons j d cs) i e = let rest = put cs i e in if j == i then cons j e cs else cons j d rest

  abbrev pub put_child : Node V H → ℕ → Edge V H → Node V H
  put_child n i e = set_children n (put (children n) i e)

  unfoldable pub sealed_hashes : Children V H → Option (List (ℕ × H))
  sealed_hashes nil = some []
  sealed_hashes (cons i e cs) = do h ← hash_of e; hs ← sealed_hashes cs; some ((i, h) ∷ hs)

  -- Some child is inline.
  unfoldable pub any_inline : Children V H → Bool
  any_inline nil = false
  any_inline (cons i e cs) = is_none (hash_of e) || any_inline cs

  -- The loop over the children in `prepare`.
  unfoldable pub scan : Scan → Children V H → Scan
  scan s nil = s
  scan s (cons i e cs) = scan (scan_edge s i (hash_of e)) cs

  unfoldable pub input_of : Node V H → List ℕ → ℕ → List (ℕ × H) → HashInput V H
  input_of n leading siblings hashes = record {
    leading_path = leading;
    partial_path = partial_path n;
    value = value n;
    siblings = siblings;
    children = hashes;
  }

  -- The second option is the result: none if a child is inline.
  unfoldable pub hash_sealed_node : TrieHasher V H → Node V H → List ℕ → ℕ → Option (Option H)
  unfolding any_inline sealed_hashes input_of
  hash_sealed_node hasher n leading siblings = if any_inline (children n) then some none else (do
    hashes ← sealed_hashes (children n)
    some (some (hasher.hash_node (input_of n leading siblings hashes))))

  -- The value of a node that is about to be hashed.
  unfoldable pub updated : TrieHasher V H → Node V H → List ℕ → Option V → Option (Option V)
  unfolding sealed_hashes
  updated hasher n leading none = some none
  updated hasher n leading (some v) = do
    hashes ← sealed_hashes (children n)
    some (some (hasher.update_value leading (partial_path n) hashes v))

  -- The node afterwards, and its hash.
  unfoldable pub finish_node : TrieHasher V H → Node V H → List ℕ → ℕ → Option (Node V H × H)
  unfolding updated sealed_hashes input_of
  finish_node hasher n leading siblings = do
    v ← updated hasher n leading (value n)
    hashes ← sealed_hashes (children n)
    let n' = set_value n v in some (n', hasher.hash_node (input_of n' leading siblings hashes))

  unfoldable pub seal_child : Node V H → ℕ → H → Option (Node V H)
  unfolding put
  seal_child parent i h = do edge ← get (children parent) i; some (put_child parent i (seal edge h))
