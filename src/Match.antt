-- ===== src/Match.antt =====
-- crates/goliath-match: the reference evaluator and the engine.
pub mod Semantics
pub mod Reference
pub mod Meaning
pub mod Laws
pub mod Engine
mod Samples
mod EngineRules
mod EngineSamples
