-- ===== src/Protocol.antt =====
-- The transactions of a job as one step relation, and what every run of it keeps.
pub mod Step
pub mod Frames
pub mod Fence
pub mod Gapless
pub mod Frozen
pub mod Resolved
pub mod Lease
pub mod Standing
pub mod Served
pub mod Endings
pub mod Attempts
