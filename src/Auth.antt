-- ===== src/Auth.antt =====
-- Sessions and the lockout after failed logins (internal/auth).
pub mod Session
pub mod Guard
