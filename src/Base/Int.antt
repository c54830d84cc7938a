-- ===== src/Base/Int.antt =====
-- Signed numbers of configuration, compared with counts.
use Prim.Native.Nat.{ℕ}
use mathlib.Core.Bool.{Bool, true}
use json_scanner.Base.Tests.{leb}

-- `negsuc n` is -(n + 1).
pub data ℤ : Type 0 where
  pos : ℕ → ℤ
  negsuc : ℕ → ℤ

-- `c >= max` of a count and a limit.
abbrev pub reaches : ℕ → ℤ → Bool
reaches c (pos m) = leb m c
reaches c (negsuc m) = true

-- The number of calls that a limit leaves room for.
abbrev pub room : ℤ → ℕ
room (pos m) = m
room (negsuc m) = 0
