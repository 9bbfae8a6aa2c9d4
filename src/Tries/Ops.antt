-- ===== src/Tries/Ops.antt =====
-- crates/arity-tries/src/ops.rs: lookup and mutation over the in-memory store. Its errors are
-- impossible; `none` is a panic, or fuel that has run out.
pub mod Descent
pub mod Read
pub mod Insert
pub mod Subtree
pub mod Remove
pub mod Prefix
pub mod Histories
