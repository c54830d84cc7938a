-- ===== src/Permissions.antt =====
-- Permission bits and access control on saved results (internal/permissions).
pub mod Bits
pub mod Triples
pub mod Checker
pub mod Grants
pub mod Tables
