-- ===== src/Lib.antt =====
-- A model of the arity-arrays workspace: dense and sparse arrays that are indexed by small index
-- types and addressed through bitmaps. The parts, from the bottom:
--   crates/arity-index (niche.rs, range.rs): Niche.antt, Niche/Range.antt. An index type with
--     `count` values is the numbers below count, which `as_usize` returns; its ranges are states
--     with `next`, `next_back` and `len`.
--   crates/arity-bitmap (lib.rs): Bitmap.antt, the traits `Raw` and `Bitmap` as a record of
--     operations and a record of their documented contract, with the default methods.
--   crates/arity-bitmap (native.rs): Bitmap/Native.antt, the macro `impl_native_bitmap!` at any
--     width w, on the numbers below 2 ^ w, with the wrap-around of each operation written out in
--     Bits/Words.antt. Bitmap/Words.antt packs it as an instance of the contract at every width
--     that is a power of two from 2 to 256.
--   crates/arity-bitmap (iter.rs): Bitmap/BitIter.antt, the iterator over the set bits.
--   crates/arity-arrays (packed.rs): Packed.antt, the packed array over any bitmap of the contract:
--     an optional block, which is a bitmap and as many slots as it has set bits, in the order of
--     the bits. Packed/Laws.antt has its type invariant and the map that an array stands for.
--     Packed/Iter.antt has `PresentIter` and `IntoIter` of packed.rs, Packed/Extend.antt `Extend`.
--   crates/arity-arrays (gapped.rs): Gapped.antt, the gapped array over any bitmap: an optional
--     block with the bitmap of the present indices, the bitmap of the live slots, the capacity
--     exponent and the slots; the r-th present index stands in the r-th live slot. Gapped/Place.antt
--     has the ways to fill a hole, Gapped/Grow.antt the allocation of a larger or smaller block,
--     Gapped/Update.antt `insert` and the operations on the capacity. Gapped/Laws.antt has the type
--     invariant and the map, Gapped/Place/Laws.antt what a placement has to do.
--   crates/arity-tries (path.rs, key.rs): Tries/Paths.antt, Tries/Paths/Nibbles.antt. A path is the
--     list of its indices.
--   crates/arity-tries (node.rs, memory.rs, children.rs, frames.rs): Tries/Node.antt, nodes with the
--     edges of the in-memory store, for any type of values and of hashes; a child map is the list of
--     its entries in ascending order. Tries/Frames.antt is the stack of nodes behind a mutation: a
--     frame is the parent and the index descended into. A descent makes the edge inline in the parent,
--     and a child that was changed through its pointer is written back to its parent, the hash of the
--     edge left as it is, when its frame is popped, or at the end.
--   crates/arity-tries (ops.rs): Tries/Ops/Read.antt (`get_node`, `get`), Tries/Ops/Insert.antt and
--     Tries/Ops/Remove.antt (`insert`, `remove` and their helpers), over Tries/Ops/Descent.antt
--     (`Split`), Tries/Ops/Subtree.antt and Tries/Ops/Prefix.antt (`materialize_subtree`,
--     `remove_prefix`). Tries/Lookups.antt has the map that a trie stands for, Tries/Structure.antt the
--     structural invariant of validate.rs, Tries/Ops/Histories.antt sequences of operations.
--   crates/arity-tries (iter.rs, validate.rs): Tries/Walk.antt (`Walk`), Tries/Iter.antt
--     (`iter`, `visit`), Tries/Validate.antt (`validate`).
--   crates/arity-tries (hash.rs, store.rs, testing.rs): Tries/Hash/Scheme.antt, the hasher as a
--     parameter and what the walk does at a node; Tries/Hash.antt (`hash`, `prepare`), the walk over a
--     stack of frames and a store that may fail; Tries/Store.antt, the in-memory store and one that fails
--     on demand. Tries/Hash/Digests.antt has the hash as a recursive function and the hash-validity
--     contract of node.rs.
--
-- Shared: Common.antt (names, tests, counts, lists), Bits.antt (the binary digits of a number, and
-- what the word operations do to them), Iteration.antt (double-ended iterators, and what it means
-- that one hands out a list), Memory.antt (blocks of slots with reads, writes and copies).
--
-- Faults: an operation that can panic, fail a debug assertion, or have undefined behaviour (an
-- access outside a block, a read of an uninitialised slot, an unreachable conversion) returns an
-- option whose none is the fault; an `Option` of the source is a second option inside it.
--
-- Fuel: the loop of `raw_select` gets the width as fuel and halves its size each round; the loops
-- of `fold` and `rfold` get fuel too, and the width is enough, since each round clears a bit. A
-- lack of fuel is none, like a fault, so that the theorems that a result is returned cover it.
-- The loops of the gapped array over the set bits of the live slots get the width and one more, a
-- round for each set bit and the last, which finds none. The loops that descend a trie get the length
-- of the key and one more, since each round but the last reads an index of the key;
-- the loops over a whole trie get a round for each node and each edge.
--
-- Interaction: the arrays and the bit iterator use a bitmap through the record of its contract
-- only, and the native bitmaps fill that record. `take_only_child` draws from the bit iterator and
-- calls `remove`. The ranges and the iterator convert a cursor back to an index by
-- `try_from_usize`, whose failure is a fault that the theorems exclude. The operations of a trie go
-- through the child map of a node, the edges of the store and the stack of frames; the walk is shared
-- by iteration and validation. The hash walk trusts the seals that insertion and removal leave. The child maps are not yet those of the array models.
--
-- Not modelled: allocation failure and capacity overflow (a block is always given), destructors
-- and deallocation, `Clone`, serde, formatting and comparison, the 256-bit integer bitmap, the
-- iterators over all slots and those of the gapped array, the fixed array, the conversions between
-- the arrays; of the tries, the operations but hashing over stores with errors.
pub mod Common
pub mod Bits
pub mod Iteration
pub mod Niche
pub mod Bitmap
pub mod Memory
pub mod Packed
pub mod Gapped
pub mod Tries
pub mod Tests
