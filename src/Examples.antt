-- ===== src/Examples.antt =====
-- Concrete inputs, and each theorem with hypotheses at one of them.
pub mod Charts
pub mod Markets
pub mod Caches
pub mod Stores
pub mod Studies
pub mod Alerts
pub mod Quotas
pub mod Access
pub mod Subscribers
pub mod Logins
pub mod Editor
pub mod Loads
pub mod People
pub mod Teams
