-- ===== src/Results.antt =====
-- Saved scan results with their permissions and access lists (internal/results/results.go).
pub mod Store
pub mod Access
pub mod Transfer
pub mod Listed
pub mod Kept
pub mod Imported
