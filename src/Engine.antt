-- ===== src/Engine.antt =====
-- The transactions of the engine (crates/chat/src/engine/repository.rs): claim (T2), plan (T3),
-- node (T4), settlement (T7), and the reaper (T11).
pub mod Claim
pub mod Model
pub mod Plan
pub mod Node
pub mod Memory
pub mod Settle
pub mod Reaper
pub mod Passes
pub mod Sweeps
pub mod Budget
pub mod Oldest
pub mod Recall
