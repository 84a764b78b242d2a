-- ===== src/Auth.antt =====
-- The package auth: failed logins, api keys, sessions, and the checks in front of a handler.
pub mod Lockout
pub mod Keys
pub mod Sessions
pub mod Gate
