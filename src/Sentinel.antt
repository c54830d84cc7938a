-- ===== src/Sentinel.antt =====
-- The data-integrity gate (internal/sentinel/sentinel.go).
pub mod Gate
pub mod Order
pub mod Flagged
