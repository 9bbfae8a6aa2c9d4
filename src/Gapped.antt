-- ===== src/Gapped.antt =====
-- crates/arity-arrays/src/gapped.rs: `GappedArray`, over any bitmap. The pointer is an option, the
-- block behind it the two header bitmaps, the capacity exponent and the element slots. `none`
-- outside of an operation's result is a panic or undefined behaviour.
pub mod Laws
pub mod Remove
pub mod Place
pub mod Grow
pub mod Update
use arity_arrays.Common.{
  ℕ, zero, suc, ◌+◌, ◌*◌, ◌^◌, ◌-◌, Bool, true, false, not, Option, none, some, ◌==◌, leb,
  if◌then◌else◌, ◌>>=◌, debug_assert,
}
use arity_arrays.Memory.{Block, uninit, read, write}
use arity_arrays.Niche.{try_from_usize}
use arity_arrays.Bitmap.{Bitmap, select}
use arity_arrays.Bitmap.BitIter.{bit_next}

-- `occupancy` is the logical membership, `live` marks the filled slots. The capacity is
-- `2 ^ cap_exp`.
pub record Inner (b : Bitmap) (T : Type 0) : Type 0 where
  pub occupancy : b.Bits
  pub live : b.Bits
  pub cap_exp : ℕ
  pub elements : Block T

abbrev pub GappedArray : Bitmap → Type 0 → Type 0
GappedArray b T = Option (Inner b T)

module _ (b : Bitmap) {T : Type 0} where
  open b use {Bits, width, zero_bits, count_ones, test, with_bit, without_bit, rank}

  -- The slots are left uninitialised.
  unfoldable pub alloc_block : Bits → Bits → ℕ → ℕ → Inner b T
  alloc_block occupancy live cap_exp cap = record {
    occupancy = occupancy;
    live = live;
    cap_exp = cap_exp;
    elements = uninit cap;
  }

  unfoldable pub new : GappedArray b T
  new = none

  unfoldable pub capacity : GappedArray b T → ℕ
  capacity none = 0
  capacity (some p) = 2 ^ p.cap_exp

  unfoldable pub bitmap : GappedArray b T → Bits
  bitmap none = zero_bits
  bitmap (some p) = p.occupancy

  unfoldable pub count : GappedArray b T → ℕ
  unfolding bitmap
  count a = count_ones (bitmap a)

  unfoldable pub is_empty : GappedArray b T → Bool
  unfolding count
  is_empty a = count a == 0

  -- `live.select(r).expect(…)` at the rank of a present index.
  unfoldable pub slot_of : Inner b T → ℕ → Option ℕ
  unfolding select
  slot_of p i = select b p.live (rank p.occupancy i) >>= λ s. s

  unfoldable pub get : GappedArray b T → ℕ → Option (Option T)
  unfolding slot_of read
  get none i = some none
  get (some p) i =
      if test p.occupancy i
      then (do at ← slot_of p i; v ← read p.elements at; some (some v))
      else some none

  -- The caller applies f through the mutable reference; the result says whether there was one.
  unfoldable pub get_mut : GappedArray b T → ℕ → (T → T) → Option (Bool × GappedArray b T)
  unfolding slot_of read write
  get_mut none i f = some (false, none)
  get_mut (some p) i f =
      if test p.occupancy i
      then (do
        at ← slot_of p i
        v ← read p.elements at
        m ← write p.elements at (f v)
        some (true, some (record p { elements = m })))
      else some (false, some p)

  -- `remove` of a present index. The bits are cleared before the element is moved out.
  unfoldable pub remove_present : Inner b T → ℕ → Option (Option T × GappedArray b T)
  unfolding slot_of try_from_usize read
  remove_present p i = do
    at ← slot_of p i
    at_index ← try_from_usize width at
    let p' = record p { occupancy = without_bit p.occupancy i; live = without_bit p.live at_index }
    v ← read p.elements at
    some (some v, some p')

  unfoldable pub remove : GappedArray b T → ℕ → Option (Option T × GappedArray b T)
  unfolding remove_present
  remove none i = some (none, none)
  remove (some p) i = if test p.occupancy i then remove_present p i else some (none, some p)

  unfoldable pub take_only_child : GappedArray b T → Option (Option (ℕ × T) × GappedArray b T)
  unfolding bitmap bit_next remove
  take_only_child a =
      if count_ones (bitmap a) == 1
      then (do
        (next, _) ← bit_next b (bitmap a)
        elim next [
          | none ↦ some (none, a)
          | some only ↦ remove a only >>= λ (taken, a').
              some (elim taken [ none ↦ none | some v ↦ some (only, v) ], a')
        ])
      else some (none, a)
