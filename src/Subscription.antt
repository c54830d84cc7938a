-- ===== src/Subscription.antt =====
-- The subscription store: a cache in memory in front of a SQLite table
-- (internal/study/subscription.go). A statement of the source on the table `subscriptions`, whose
-- primary key is the pair, is a function on its rows. Whether the driver carries a statement out
-- is the argument `up` of each operation: where it is false the statement changes nothing and the
-- source sees an error. The lock makes each operation one step.
pub mod Store
pub mod Memory
pub mod Shape
pub mod Synced
pub mod Lines
pub mod Opened
