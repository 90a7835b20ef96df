-- ===== src/Job.antt =====
-- The transactions that a user starts (crates/chat/src/job/repository.rs): create_job (T1) and
-- request_cancel (T9).
pub mod Cancel
pub mod Idempotency
pub mod Accept
pub mod OneActive
pub mod Replay
