-- ===== src/Tries.antt =====
-- crates/arity-tries: path-compressed tries over the in-memory store.
pub mod Paths
pub mod Node
pub mod Lookups
pub mod Frames
pub mod Structure
pub mod Ops
pub mod Walk
pub mod Validate
pub mod Iter
pub mod Store
pub mod Hash
