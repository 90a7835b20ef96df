-- ===== src/Store.antt =====
-- The tables that a job's transactions read and write (crates/chat/src/job/repository.rs,
-- crates/chat/src/engine/repository.rs, crates/chat/src/clarification/repository.rs,
-- crates/chat/src/audit.rs).
pub mod Vocabulary
pub mod Rows
pub mod Events
pub mod Lease
pub mod Sessions
