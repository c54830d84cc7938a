-- ===== src/Groups.antt =====
-- Groups and their members (internal/groups/groups.go).
pub mod Store
pub mod Members
pub mod Referenced
pub mod Teams
pub mod Modelled
