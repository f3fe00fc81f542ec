-- ===== src/Bridge/Auth.antt =====
-- Authentication of requests (automation-bridge/src/core/auth).
pub mod Nonces
pub mod Rates
pub mod Keys
pub mod Signing
pub mod Requests
