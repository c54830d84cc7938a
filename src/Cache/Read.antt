-- ===== src/Cache/Read.antt =====
-- The bars that the cache returns for a symbol (internal/scan/cache.go).
use json_scanner.Base.{◌<◌, ◌≡◌, false, List, [], ◌∷◌, All, ◌==◌}
use json_scanner.Backtest.Replay.{Bar}

module _ {W : Type 0} where
  -- Each bar is before all the later ones.
  abbrev pub IsAscending : List (Bar W) → Type 0
  IsAscending [] = Unit
  IsAscending (x ∷ xs) = All (λ y. x.timestamp < y.timestamp) xs × IsAscending xs

  abbrev IsDistinct : List (Bar W) → Type 0
  IsDistinct [] = Unit
  IsDistinct (x ∷ xs) = All (λ y. (y.timestamp == x.timestamp) ≡ false) xs × IsDistinct xs
