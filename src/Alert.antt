-- ===== src/Alert.antt =====
-- Entries and exits of a study between two snapshots (internal/alert/alert.go).
pub mod Detect
pub mod Changes
pub mod Between
