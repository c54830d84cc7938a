-- ===== src/Backtest.antt =====
-- Backtests over the snapshots (internal/backtest/backtest.go and replay.go).
pub mod Run
pub mod Replay
pub mod Trades
pub mod Held
