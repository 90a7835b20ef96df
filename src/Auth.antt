-- ===== src/Auth.antt =====
-- Logins, refresh tokens and their rotation (crates/core/src/auth).
pub mod Repository
pub mod Service
pub mod Lives
pub mod Rotation
pub mod Sessions
pub mod Refines
