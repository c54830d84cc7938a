-- ===== src/Indicators/Trend.antt =====
-- internal/indicators/trend.go, without `PSAR`
use json_scanner.Base.{ℕ, suc, ◌+◌, ◌-◌, Bool, false, ◌&&◌, ◌||◌, ◌==◌, leb, ltb, if◌then◌else◌}
use json_scanner.Indicators.{Number, Series, fold_window, sum, ◌+f◌, ◌-f◌, ◌*f◌, ◌/f◌}

module _ {W : Type 0} ⦃num : Number W⦄ where
  unfoldable pub sma : Series W → ℕ → Series W
  unfolding sum
  sma vals period i =
      if ltb period 1
      then num.nan
      else if ltb i period
      then num.nan
      else sum vals (i - period) period /f num.of_nat period

  -- The loop's step at bar `j`, from the average of the bar before.
  abbrev pub ema_step : Series W → ℕ → W → ℕ → W
  ema_step vals period e j = (vals (j - 1) -f e) *f (num.of_nat 2 /f num.of_nat (period + 1)) +f e

  -- `n` is the length. What the loop does not reach is as `make` left it.
  unfoldable pub ema : ℕ → Series W → ℕ → Series W
  unfolding sum
  ema n vals period i =
      if ltb period 1 || leb n period
      then num.nan
      else if ltb i period
      then num.of_nat 0
      else fold_window (ema_step vals period) (sum vals 0 period /f num.of_nat period) (suc period)
          (i - period)

  unfoldable pub pct_from_sma : Series W → Series W → Series W
  pct_from_sma close average i =
      if i == 0 || num.is_nan (average i) || num.eq (average i) (num.of_nat 0)
      then num.nan
      else close (i - 1) /f average i -f num.of_nat 1

  unfoldable pub ma_stack : Series W → Series W → Series W → Series W → ℕ → Bool
  ma_stack ema10 ema21 ema50 ema200 i =
      if num.is_nan (ema10 i)
        || num.is_nan (ema21 i)
        || num.is_nan (ema50 i)
        || num.is_nan (ema200 i)
      then false
      else num.lt (ema21 i) (ema10 i) && num.lt (ema50 i) (ema21 i) && num.lt (ema200 i) (ema50 i)

  -- The index of the highest bar of `i` and the `period` bars before it.
  unfoldable pub highest : Series W → ℕ → ℕ → ℕ
  highest highs period i =
      fold_window (λ hi j. if num.lt (highs hi) (highs j) then j else hi) i (i - period) period

  unfoldable pub lowest : Series W → ℕ → ℕ → ℕ
  lowest lows period i =
      fold_window (λ lo j. if num.lt (lows j) (lows lo) then j else lo) i (i - period) period

  unfoldable pub aroon_up : Series W → ℕ → Series W
  unfolding highest
  aroon_up highs period i =
      if ltb i period
      then num.nan
      else num.of_nat 100 *f num.of_nat (period - (i - highest highs period i)) /f num.of_nat period

  unfoldable pub aroon_down : Series W → ℕ → Series W
  unfolding lowest
  aroon_down lows period i =
      if ltb i period
      then num.nan
      else num.of_nat 100 *f num.of_nat (period - (i - lowest lows period i)) /f num.of_nat period

  unfoldable pub aroon_osc : Series W → Series W → ℕ → Series W
  unfolding aroon_up aroon_down
  aroon_osc highs lows period i =
      if ltb i period then num.nan else aroon_up highs period i -f aroon_down lows period i
