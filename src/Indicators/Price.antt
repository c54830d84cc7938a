-- ===== src/Indicators/Price.antt =====
-- internal/indicators/price.go
use json_scanner.Base.{
  ℕ, zero, suc, ◌-◌, Bool, true, false, not, ◌&&◌, ◌||◌, Option, none, some, ltb, if◌then◌else◌,
}
use json_scanner.Indicators.{Number, Series, fold_window, ◌-f◌, ◌*f◌, ◌/f◌}

-- A bar's read of the bar before it. The first bar has none: the code panics.
abbrev pub before : {A : Type 0} → ℕ → A → Option A
before zero a = none
before (suc i) a = some a

module _ {W : Type 0} ⦃num : Number W⦄ where
  -- The body of the inner loop.
  abbrev pub extreme : Bool → W → W → W
  extreme high ext v = if (high && num.lt ext v) || (not high && num.lt v ext) then v else ext

  unfoldable pub rolling_extreme : Series W → ℕ → Bool → Series W
  rolling_extreme vals period high i =
      if ltb period 1
      then num.nan
      else if ltb i period
      then num.nan
      else fold_window (λ ext j. extreme high ext (vals j)) (vals (i - period)) (suc (i - period))
          (period - 1)

  unfoldable pub rolling_high : Series W → ℕ → Series W
  unfolding rolling_extreme
  rolling_high vals period = rolling_extreme vals period true

  unfoldable pub rolling_low : Series W → ℕ → Series W
  unfolding rolling_extreme
  rolling_low vals period = rolling_extreme vals period false

  unfoldable pub gap_pct : Series W → Series W → Series W
  gap_pct opens closes i =
      if ltb i 2 || num.eq (closes (i - 2)) (num.of_nat 0)
      then num.nan
      else (opens (i - 1) /f closes (i - 2) -f num.of_nat 1) *f num.of_nat 100

  unfoldable pub true_range : Series W → Series W → Series W → Series W
  true_range highs lows closes i =
      if ltb i 2
      then num.nan
      else num.max (highs (i - 1) -f lows (i - 1)) (
          num.max (num.abs (highs (i - 1) -f closes (i - 2)))
            (num.abs (lows (i - 1) -f closes (i - 2))))

  unfoldable pub is_52w_high : Series W → Series W → ℕ → Option Bool
  is_52w_high closes high52w i =
      if num.is_nan (high52w i) then some false else before i (num.le (high52w i) (closes (i - 1)))

  unfoldable pub is_52w_low : Series W → Series W → ℕ → Option Bool
  is_52w_low closes low52w i =
      if num.is_nan (low52w i) then some false else before i (num.le (closes (i - 1)) (low52w i))

  unfoldable pub pct_off_52w_high : Series W → Series W → ℕ → Option W
  pct_off_52w_high closes high52w i =
      if num.is_nan (high52w i) || num.eq (high52w i) (num.of_nat 0)
      then some num.nan
      else before i ((closes (i - 1) /f high52w i -f num.of_nat 1) *f num.of_nat 100)

  unfoldable pub pct_above_52w_low : Series W → Series W → ℕ → Option W
  pct_above_52w_low closes low52w i =
      if num.is_nan (low52w i) || num.eq (low52w i) (num.of_nat 0)
      then some num.nan
      else before i ((closes (i - 1) /f low52w i -f num.of_nat 1) *f num.of_nat 100)
