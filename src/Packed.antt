-- ===== src/Packed.antt =====
-- crates/arity-arrays/src/packed.rs: `PackedArray`, over any bitmap. The pointer is an option, the
-- block behind it the header bitmap with the element slots. `none` of an operation's result is a
-- panic or undefined behaviour.
pub mod Laws
pub mod Blocks
pub mod Insert
pub mod Remove
pub mod OnlyChild
pub mod Extend
pub mod Iter
use arity_arrays.Common.{
  debug_assert, ℕ, ◌+◌, ◌-◌, Bool, true, false, Option, none, some, ◌==◌, if◌then◌else◌, ◌>>=◌,
}
use arity_arrays.Memory.{Block, uninit, read, write, copy}
use arity_arrays.Bitmap.{Bitmap}
use arity_arrays.Bitmap.BitIter.{bit_next}

-- The header, and the element slots behind it.
pub record Inner (b : Bitmap) (T : Type 0) : Type 0 where
  pub bitmap : b.Bits
  pub elements : Block T

abbrev pub PackedArray : Bitmap → Type 0 → Type 0
PackedArray b T = Option (Inner b T)

module _ (b : Bitmap) {T : Type 0} where
  open b use {Bits, zero_bits, count_ones, test, with_bit, without_bit, rank}

  -- The slots are left uninitialised.
  unfoldable pub alloc_block : Bits → ℕ → Inner b T
  alloc_block bits count = record { bitmap = bits; elements = uninit count }

  unfoldable pub new : PackedArray b T
  new = none

  unfoldable pub bitmap : PackedArray b T → Bits
  bitmap none = zero_bits
  bitmap (some p) = p.bitmap

  unfoldable pub count : PackedArray b T → ℕ
  unfolding bitmap
  count a = count_ones (bitmap a)

  unfoldable pub is_empty : PackedArray b T → Bool
  is_empty none = true
  is_empty (some p) = false

  unfoldable pub get : PackedArray b T → ℕ → Option (Option T)
  unfolding read
  get none i = some none
  get (some p) i =
      if test p.bitmap i
      then (read p.elements (rank p.bitmap i) >>= λ v. some (some v))
      else some none

  -- The caller applies f through the mutable reference; the result says whether there was one.
  unfoldable pub get_mut : PackedArray b T → ℕ → (T → T) → Option (Bool × PackedArray b T)
  unfolding read write
  get_mut none i f = some (false, none)
  get_mut (some p) i f =
      if test p.bitmap i
      then (do
        v ← read p.elements (rank p.bitmap i)
        m ← write p.elements (rank p.bitmap i) (f v)
        some (true, some (record p { elements = m })))
      else some (false, some p)

  -- `Index::index`, which panics on an absent index.
  unfoldable pub index : PackedArray b T → ℕ → Option T
  unfolding get
  index a i = get a i >>= λ v. v

  -- `insert` into an allocated array, at a present index.
  unfoldable pub insert_present : Inner b T → ℕ → T → Option (Option T × PackedArray b T)
  unfolding read write
  insert_present p i v = do
    old ← read p.elements (rank p.bitmap i)
    m ← write p.elements (rank p.bitmap i) v
    some (some old, some (record p { elements = m }))

  -- `insert` at an absent index: a new block, and the two segments around the rank.
  unfoldable pub insert_absent : Inner b T → ℕ → T → Option (Option T × PackedArray b T)
  unfolding alloc_block write copy
  insert_absent p i v =
      let at = rank p.bitmap i in
      let old_count = count_ones p.bitmap in
      let new_count = old_count + 1 in
      let fresh = alloc_block (with_bit p.bitmap i) new_count in
      debug_assert (count_ones (with_bit p.bitmap i) == new_count) (do
        m ← copy p.elements 0 fresh.elements 0 at
        m' ← write m at v
        m'' ← copy p.elements at m' (at + 1) (old_count - at)
        some (none, some (record fresh { elements = m'' })))

  unfoldable pub insert : PackedArray b T → ℕ → T → Option (Option T × PackedArray b T)
  unfolding alloc_block write insert_present insert_absent
  insert none i v =
      let fresh = alloc_block (with_bit zero_bits i) 1 in
      debug_assert (count_ones (with_bit zero_bits i) == 1)
        (write fresh.elements 0 v >>= λ m. some (none, some (record fresh { elements = m })))
  insert (some p) i v = if test p.bitmap i then insert_present p i v else insert_absent p i v

  -- `remove` of a present index: the last element frees the block, any other is closed over.
  unfoldable pub remove_present : Inner b T → ℕ → Option (Option T × PackedArray b T)
  unfolding alloc_block read copy
  remove_present p i =
      let at = rank p.bitmap i in
      let old_count = count_ones p.bitmap in
      let new_count = old_count - 1 in
      let fresh = alloc_block (without_bit p.bitmap i) new_count in
      if new_count == 0
      then (read p.elements at >>= λ v. some (some v, none))
      else debug_assert (count_ones (without_bit p.bitmap i) == new_count) (do
        v ← read p.elements at
        m ← copy p.elements 0 fresh.elements 0 at
        m' ← copy p.elements (at + 1) m at (old_count - at - 1)
        some (some v, some (record fresh { elements = m' })))

  unfoldable pub remove : PackedArray b T → ℕ → Option (Option T × PackedArray b T)
  unfolding remove_present
  remove none i = some (none, none)
  remove (some p) i = if test p.bitmap i then remove_present p i else some (none, some p)

  unfoldable pub take_only_child : PackedArray b T → Option (Option (ℕ × T) × PackedArray b T)
  unfolding bitmap bit_next remove
  take_only_child a =
      if count_ones (bitmap a) == 1
      then (do
        (next, _) ← bit_next b (bitmap a)
        elim next [
          | none ↦ some (none, a)
          | some only ↦ remove a only >>= λ (taken, a').
              some (elim taken [ none ↦ none | some v ↦ some (only, v) ], a')
        ])
      else some (none, a)
