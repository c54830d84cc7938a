-- ===== src/Throttle.antt =====
-- Rate limits and quotas (internal/throttle/throttle.go).
pub mod Tables
pub mod Limiter
pub mod Windows
pub mod Enforced
pub mod Admitted
pub mod Overrides
pub mod Middleware
