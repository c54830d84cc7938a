-- ===== src/Screen.antt =====
-- The snapshot rows, the preset studies and the market's breadth (internal/screen/screen.go), and the
-- signals of the last bar (internal/scanner/scanner.go).
pub mod Row
pub mod Presets
pub mod Signals
pub mod Crossed
pub mod Ranked
pub mod Breadth
