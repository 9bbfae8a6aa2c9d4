-- ===== src/Tests/Hashes.antt =====
-- The theorems on hashing at concrete inputs: a hasher that is sensitive to siblings below the nodes at
-- depth 1, and stores that fail.
use arity_arrays.Common.{
  ℕ, ◌+◌, ◌*◌, ◌≡◌, refl, Option, none, some, ◌==◌, if◌then◌else◌, List, [], ◌∷◌, ◌++◌, length,
  arith, ap, sym, ◌∙◌, length-append, ◌⊎◌, ◌≤◌, false,
}
use arity_arrays.Tries.Node.{Node, node, mem_edge, nil, cons, leaf, inline, get}
use arity_arrays.Tries.Paths.{common_prefix, slice_to}
use arity_arrays.Tries.Node.{insert, write}
use arity_arrays.Tries.Lookups.{Same}
use arity_arrays.Tries.Structure.{IsTrie}
use arity_arrays.Tries.Ops.Descent.{split_of, below}
use arity_arrays.Tries.Ops.Insert.{insert_value, fork}
use arity_arrays.Tries.Ops.Read.Laws.{get_value-lookup}
use arity_arrays.Tries.Ops.Prefix.{remove_prefix}
use arity_arrays.Tries.Ops.Subtree.{materialize_subtree}
use arity_arrays.Tries.Ops.Subtree.Laws.{inlined}
use arity_arrays.Tries.Ops.Subtree.Inlined.{materialize_subtree-inlined}
use arity_arrays.Tries.Walk.Order.{IsOrdered}
use arity_arrays.Tries.Validate.Laws.{validate-IsTrie}
use arity_arrays.Tries.Hash.Contract.{IsPositional}
use arity_arrays.Tries.Hash.Unique.{validated_alike}
use arity_arrays.Tries.Hash.Histories.{
  empty, inserted, pruned, materialized, hashed, hash-get_value,
}
use arity_arrays.Tries.Store.{
  Outcome, ok, err, failing, new, Failing, FailingError, in_memory, failing_read,
}
use arity_arrays.Tries.Hash.{hash, hash_loop, prepare}
use arity_arrays.Tries.Hash.Scheme.{TrieHasher, HashInput, finish_node, seal_child}
use arity_arrays.Tries.Hash.Digests.{image, digest, IsValid}
use arity_arrays.Tries.Hash.Laws.{HashedAs, Recovers, hash-Hashes, hash_again}
use arity_arrays.Tries.Hash.Results.{Hashes}

abbrev path_sum : List ℕ → ℕ
path_sum [] = 1
path_sum (x ∷ xs) = x + 3 * path_sum xs

abbrev hash_sum : List (ℕ × ℕ) → ℕ
hash_sum [] = 0
hash_sum ((i, h) ∷ hs) = 5 * (i + h) + 7 * hash_sum hs

abbrev value_sum : Option ℕ → ℕ
value_sum none = 0
value_sum (some v) = v + 1

abbrev hash_input : HashInput ℕ ℕ → ℕ
hash_input i =
    path_sum (i.leading_path ++ i.partial_path)
    + 11 * value_sum i.value
    + hash_sum i.children
    + (if length i.leading_path == 2 then (if i.siblings == 1 then 1000 else 0) else 0)

abbrev sample_hasher : TrieHasher ℕ ℕ
sample_hasher = record {
  hash_node = hash_input;
  sibling_sensitive = λ leading partial. length leading + length partial == 1;
  update_value = λ leading partial hashes v. v;
}

-- The node at depth 1 has an inline child, and a sealed one that was hashed when it was alone.
abbrev account : Node ℕ ℕ
account =
    node (4 ∷ []) (some 8)
      (cons 2 (mem_edge (leaf [] 5) (some 1085)) (cons 6 (inline (leaf (1 ∷ []) 9)) nil))

lone_form : digest sample_hasher (4 ∷ 2 ∷ []) 1 (leaf {H = ℕ} [] 5) ≡ 1085
unfolding digest
lone_form = refl

account-IsValid : IsValid sample_hasher [] account
unfolding IsValid
account-IsValid = (
  (omega arith, (omega arith, tt)),
  λ settled. cc,
  (((tt, λ settled. tt, tt), λ sealed. tt), ((tt, λ settled. tt, tt), tt)),
)

-- The hash of the only sealed child is taken again, next to its sibling.
hash_run :
    hash sample_hasher in_memory tt account
    ≡ some (
      tt,
      node (4 ∷ []) (some 8) (
          cons 2
            (mem_edge (leaf [] 5) (some 85))
            (cons 6 (mem_edge (leaf (1 ∷ []) 9) (some 168)) nil)),
      ok (
          hash_input (record {
            leading_path = [];
            partial_path = 4 ∷ [];
            value = some 8;
            siblings = 0;
            children = (2, 85) ∷ (6, 168) ∷ [];
          })),
    )
unfolding hash prepare get hash_loop finish_node seal_child
hash_run = refl

-- Its read fails.
hash_failed :
    hash sample_hasher failing (new 1 0) account
    ≡ some (
      record { reads = 1; fail_read_at = 1; materializes = 0; fail_materialize_at = 0 },
      account,
      err FailingError.read_error,
    )
unfolding hash prepare get failing_read
hash_failed = refl

hash-Hashes_example :
    Hashes
      (λ (v : ℕ). v)
      sample_hasher
      failing
      (image (λ (v : ℕ). v) account)
      (hash sample_hasher failing (new 1 0) account)
hash-Hashes_example =
    hash-Hashes (λ (v : ℕ). v) sample_hasher failing (new 1 0) account (λ leading p hashes v. refl)
      account-IsValid

hash_again_example :
    (s' : Failing) × (left : Node ℕ ℕ) × (outcome : Outcome FailingError ℕ) × (hash sample_hasher
        failing
        (new 1 0)
        account
      ≡ some (s', left, outcome))
    × Recovers sample_hasher account left outcome
hash_again_example =
    hash_again sample_hasher failing (new 1 0) account (λ leading p hashes v. refl) account-IsValid

-- A node at depth 1 by two insertions, in either order and with a hash walk between them.
abbrev twins : Node ℕ ℕ
twins = node (4 ∷ []) none (cons 2 (inline (leaf [] 5)) (cons 6 (inline (leaf [] 9)) nil))

abbrev key_two : List ℕ
key_two = 4 ∷ 2 ∷ []

abbrev key_six : List ℕ
key_six = 4 ∷ 6 ∷ []

insert_six : insert_value (some (leaf {H = ℕ} key_two 5)) key_six 9 ≡ some (twins, none)
unfolding insert_value split_of common_prefix below fork insert slice_to
insert_six = refl

insert_two : insert_value (some (leaf {H = ℕ} key_six 9)) key_two 5 ≡ some (twins, none)
unfolding insert_value split_of common_prefix below fork insert slice_to
insert_two = refl

insert_first : (key : List ℕ) (w : ℕ) → insert_value none key w ≡ some (leaf {H = ℕ} key w, none)
unfolding insert_value
insert_first key w = refl

hash_leaf :
    hash sample_hasher failing (new 1 0) (leaf key_six 9)
    ≡ some (
      new 1 0,
      leaf key_six 9,
      ok (
          hash_input (record {
            leading_path = [];
            partial_path = key_six;
            value = some 9;
            siblings = 0;
            children = [];
          })),
    )
unfolding hash prepare hash_loop finish_node
hash_leaf = refl

sample_hasher-IsPositional : IsPositional sample_hasher
sample_hasher-IsPositional = record {
  by_path = λ l p l' p' same. same_length l p l' p' (ap length same);
  alone_or_not = λ l p i x s place free. same_sum l p i x s (ap length place) free;
}
  where
    same_length :
        (l p l' p' : List ℕ)
        → length (l ++ p) ≡ length (l' ++ p')
        → (length l + length p == 1) ≡ (length l' + length p' == 1)
    same_length l p l' p' same =
        let left = length-append l p in let right = length-append l' p' in ground arith

    same_sum :
        (l p : List ℕ) (i : ℕ) (x : HashInput ℕ ℕ) (s : ℕ)
        → length x.leading_path ≡ length ((l ++ p) ++ (i ∷ []))
        → ((length l + length p == 1) ≡ false) ⊎ ((2 ≤ x.siblings) × (2 ≤ s))
        → hash_input (record x { siblings = s }) ≡ hash_input x
    same_sum l p i x s place free =
        let whole = length-append (l ++ p) (i ∷ []) in let part = length-append l p in ground arith

twins-materialized : materialize_subtree twins ≡ some twins
unfolding materialize_subtree get insert write
twins-materialized = refl

nothing_pruned : remove_prefix {V = ℕ} {H = ℕ} none key_two ≡ some none
unfolding remove_prefix
nothing_pruned = refl

hash-get_value_example :
    HashedAs sample_hasher twins (digest sample_hasher [] 0 twins)
    × HashedAs sample_hasher twins (digest sample_hasher [] 0 twins)
hash-get_value_example =
    hash-get_value sample_hasher failing (λ leading p hashes v. refl) sample_hasher-IsPositional
      twins twins
      (materialized twins twins
        (inserted (some (leaf key_two 5)) key_six 9 twins none
          (inserted none key_two 5 (leaf key_two 5) none
            (pruned none key_two none empty nothing_pruned) (insert_first key_two 5))
          insert_six)
        twins-materialized)
      (inserted (some (leaf key_six 9)) key_two 5 twins none
        (hashed (leaf key_six 9) (new 1 0) (new 1 0) (leaf key_six 9) (ok 141)
          (inserted none key_six 9 (leaf key_six 9) none empty (insert_first key_six 9)) hash_leaf)
        insert_two)
      (λ k. refl)

account-IsTrie : IsTrie account
unfolding IsTrie
account-IsTrie = (tt, (omega arith, (tt, tt), (omega arith, (tt, tt), tt)))

account-IsOrdered : IsOrdered account
unfolding IsOrdered
account-IsOrdered = (omega arith, tt, (omega arith, tt, tt))

inlined-IsOrdered : IsOrdered (inlined account)
unfolding IsOrdered inlined
inlined-IsOrdered = (omega arith, tt, (omega arith, tt, tt))

account-inlined :
    (materialize_subtree account ≡ some (inlined account))
    × IsTrie (inlined account)
    × Same account (inlined account)
account-inlined = materialize_subtree-inlined account account-IsTrie

validated_alike_example :
    (t : Node ℕ ℕ) × (materialize_subtree account ≡ some t)
    × (materialize_subtree (inlined account) ≡ some t)
validated_alike_example =
    validated_alike account (inlined account) account-IsOrdered inlined-IsOrdered
      ((validate-IsTrie account account-IsOrdered).1 account-IsTrie)
      ((validate-IsTrie (inlined account) inlined-IsOrdered).1 account-inlined.1)
      (λ k.
        get_value-lookup (some account) k
        ∙ ap some (sym (account-inlined.2 k))
        ∙ sym (get_value-lookup (some (inlined account)) k))
