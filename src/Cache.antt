-- ===== src/Cache.antt =====
-- The bar cache (internal/scan/cache.go).
pub mod Store
pub mod Keyed
pub mod Read
pub mod Listed
pub mod Qualifying
