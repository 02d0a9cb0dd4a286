-- ===== src/Rule.antt =====
-- crates/goliath-rule: paths into events, folding, and rules resolved to tests on paths.
pub mod FieldPath
pub mod Fold
pub mod Resolved
mod Samples
