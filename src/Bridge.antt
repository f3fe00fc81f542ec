-- ===== src/Bridge.antt =====
-- The automation bridge (automation-bridge/src).
pub mod Errors
pub mod Files
pub mod Revisions
pub mod World
pub mod Writes
pub mod Execute
pub mod Apply
pub mod Rollback
pub mod Auth
pub mod Idempotency
pub mod Jobs
pub mod Locks
pub mod Paths
pub mod Redirects
pub mod Vfs
pub mod Plan
