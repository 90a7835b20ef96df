-- ===== src/Freshness.antt =====
-- The freshness verdict of an analysis that depends on a batch (crates/chat/src/engine/freshness.rs), and
-- the completeness that the analysis is composed with (crates/chat/src/engine/compose.rs).
pub mod Assess
pub mod Verdict
pub mod Lowered
pub mod Reported
