-- ===== src/Memory.antt =====
-- The raw memory of a heap block: slots that hold a value or nothing. An access out of bounds, and
-- a read of a slot that holds nothing, is undefined behaviour: `none`. `ptr::copy` and
-- `copy_nonoverlapping` move whole ranges of slots, whatever they hold.
use arity_arrays.Common.{
  ℕ, ◌+◌, ◌-◌, ◌<◌, ◌≤◌, ◌≡◌, ◌&&◌, Option, none, some, ltb, leb, ◌==◌, if◌then◌else◌, arith,
}

pub record Block (T : Type 0) : Type 0 where
  pub size : ℕ
  pub slot : ℕ → Option T

module _ {T : Type 0} where
  -- A fresh block.
  abbrev pub uninit : ℕ → Block T
  uninit n = record { size = n; slot = λ _. none }

  abbrev pub written : Block T → ℕ → T → Block T
  written m p v = record m { slot = λ j. if p == j then some v else m.slot j }

  abbrev pub copied : Block T → ℕ → Block T → ℕ → ℕ → Block T
  copied src s dst d n = record dst {
    slot = λ j. if leb d j && ltb j (d + n) then src.slot (j - d + s) else dst.slot j;
  }

  unfoldable pub read : Block T → ℕ → Option T
  read m p = if ltb p m.size then m.slot p else none

  unfoldable pub write : Block T → ℕ → T → Option (Block T)
  write m p v = if ltb p m.size then some (written m p v) else none

  -- `copy src s dst d n` copies n slots from s in src to d in dst.
  unfoldable pub copy : Block T → ℕ → Block T → ℕ → ℕ → Option (Block T)
  copy src s dst d n =
      if leb (s + n) src.size && leb (d + n) dst.size then some (copied src s dst d n) else none

  pub read_in : (m : Block T) (p : ℕ) → p < m.size → read m p ≡ m.slot p
  unfolding read
  read_in m p h = ground arith

  pub write_in : (m : Block T) (p : ℕ) (v : T) → p < m.size → write m p v ≡ some (written m p v)
  unfolding write
  write_in m p v h = ground arith

  pub copy_in :
      (src : Block T) (s : ℕ) (dst : Block T) (d n : ℕ)
      → s + n ≤ src.size
      → d + n ≤ dst.size
      → copy src s dst d n ≡ some (copied src s dst d n)
  unfolding copy
  copy_in src s dst d n h k = ground arith
