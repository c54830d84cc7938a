-- ===== src/Study.antt =====
-- Saved screens: who may run which study, the clause denylist, the JSONL loader
-- (internal/study/study.go) and the subscription store (internal/study/subscription.go).
pub mod Access
pub mod Clause
pub mod Visible
pub mod Load
pub mod Denied
pub mod Store
pub mod Stored
