-- ===== src/Indicators/Returns.antt =====
-- internal/indicators/returns.go
use json_scanner.Base.{ℕ, ◌+◌, ◌-◌, ◌||◌, Option, none, some, ◌==◌, ltb, if◌then◌else◌}
use json_scanner.Indicators.{Number, Series, ◌-f◌, ◌*f◌, ◌/f◌}

module _ {W : Type 0} ⦃num : Number W⦄ where
  unfoldable pub return_ : Series W → ℕ → Series W
  return_ vals k i =
      if ltb i (k + 1) || ltb k 1 || num.le (vals (i - 1 - k)) (num.of_nat 0)
      then num.nan
      else vals (i - 1) /f vals (i - 1 - k) -f num.of_nat 1

  unfoldable pub return_pct : Series W → ℕ → Series W
  unfolding return_
  return_pct vals k i = let r = return_ vals k i in if num.is_nan r then r else r *f num.of_nat 100

  -- The lengths come first: where they differ, the code panics.

  abbrev pub difference : Series W → Series W → Series W
  difference xs ys i =
      let x = xs i in let y = ys i in if num.is_nan x || num.is_nan y then num.nan else x -f y

  -- The lengths come first: where they differ, the code panics.
  unfoldable pub relative_strength : ℕ → ℕ → Series W → Series W → ℕ → Option (Series W)
  unfolding return_pct
  relative_strength n m symbol benchmark k =
      if n == m then some (difference (return_pct symbol k) (return_pct benchmark k)) else none
