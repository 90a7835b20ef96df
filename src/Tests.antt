-- ===== src/Tests.antt =====
-- Concrete jobs and runs, on which the theorems are applied.
mod Data
mod Runs
mod Documents
mod Logins
mod Requests
mod Plans
mod Components
