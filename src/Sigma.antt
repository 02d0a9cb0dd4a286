-- ===== src/Sigma.antt =====
-- crates/goliath-sigma: rule values, identifiers and conditions.
pub mod Pattern
pub mod Wildcard
pub mod Span
pub mod Lexer
pub mod Parser
mod Samples
mod ParserSamples
