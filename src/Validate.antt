-- ===== src/Validate.antt =====
-- The validation of composed responses (crates/chat/src/engine/validate.rs).
pub mod Claims
pub mod Numerals
pub mod Evidence
pub mod Rules
pub mod Charts
pub mod Apply
pub mod Worst
pub mod Honest
pub mod Shape
pub mod Drawn
pub mod Backed
pub mod Served
pub mod Tokens
pub mod Decimals
pub mod Dropped
pub mod Contributors
