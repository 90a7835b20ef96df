-- ===== src/WriteIntent.antt =====
-- The guard against requests that ask for a write (crates/chat/src/engine/write_intent.rs).
pub mod Words
pub mod Guard
pub mod Hidden
