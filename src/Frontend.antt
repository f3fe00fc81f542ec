-- ===== src/Frontend.antt =====
-- The React UI's own logic (frontend/src/lib and frontend/src/hooks).
pub mod Diff
pub mod Health
pub mod Metadata
pub mod Roles
pub mod Toasts
pub mod ChangeSets
