-- ===== src/Snapshot.antt =====
-- The snapshot store: one table of rows keyed by date and symbol, and the active date that queries
-- read (internal/snapshot/snapshot.go).
pub mod Store
pub mod Loading
pub mod Query
pub mod Batch
pub mod Keyed
pub mod Present
pub mod Whole
