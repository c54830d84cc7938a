-- ===== src/Indicators/Momentum.antt =====
-- `RSI`, `MACD`, `Stochastic`, `WilliamsR`, `CCI` and `ROC` of internal/indicators/momentum.go
use json_scanner.Base.{ℕ, suc, ◌+◌, ◌-◌, ◌||◌, leb, ltb, if◌then◌else◌}
use json_scanner.Indicators.{Number, Series, fold_window, sum, literal, ◌+f◌, ◌-f◌, ◌*f◌, ◌/f◌}
use json_scanner.Indicators.Returns.{difference}
use json_scanner.Indicators.Trend.{ema, sma}
use json_scanner.Indicators.Volatility.{wilder}
use json_scanner.Indicators.Volume.{typical_price}

module _ {W : Type 0} ⦃num : Number W⦄ where
  unfoldable pub rsi_from : W → W → W
  rsi_from avg_gain avg_loss =
      if num.eq avg_loss (num.of_nat 0)
      then (if num.eq avg_gain (num.of_nat 0) then num.of_nat 50 else num.of_nat 100)
      else num.of_nat 100 -f num.of_nat 100 /f (num.of_nat 1 +f avg_gain /f avg_loss)

  -- The change at a bar, as it adds to the gains or to the losses.
  abbrev pub rises : Series W → ℕ → W → W → W
  rises closes i yes_ no_ = if num.le (num.of_nat 0) (closes i -f closes (i - 1)) then yes_ else no_

  unfoldable pub avg_gain : Series W → ℕ → Series W
  avg_gain closes period i =
      let seed =
        fold_window (λ g j. rises closes j (g +f (closes j -f closes (j - 1))) g) (num.of_nat 0) 1
          period in
      fold_window
        (λ a j. wilder period a (rises closes j (closes j -f closes (j - 1)) (num.of_nat 0)))
        (seed /f num.of_nat period) (suc period) (i - period)

  unfoldable pub avg_loss : Series W → ℕ → Series W
  avg_loss closes period i =
      let seed =
        fold_window (λ l j. rises closes j l (l -f (closes j -f closes (j - 1)))) (num.of_nat 0) 1
          period in
      fold_window
        (λ a j.
          wilder period a (rises closes j (num.of_nat 0) (num.neg (closes j -f closes (j - 1)))))
        (seed /f num.of_nat period) (suc period) (i - period)

  -- `n` is the length. The value at `i` is made of the averages at the bar before.
  unfoldable pub rsi : ℕ → Series W → ℕ → Series W
  unfolding rsi_from avg_gain avg_loss
  rsi n closes period i =
      if ltb period 1 || leb n (period + 1)
      then num.nan
      else if leb i period
      then num.nan
      else rsi_from (avg_gain closes period (i - 1)) (avg_loss closes period (i - 1))

  unfoldable pub macd_line : ℕ → Series W → Series W
  unfolding ema
  macd_line n closes = difference (ema n closes 12) (ema n closes 26)

  unfoldable pub macd_signal : ℕ → Series W → Series W
  unfolding macd_line ema
  macd_signal n closes = ema n (macd_line n closes) 9

  unfoldable pub macd_histogram : ℕ → Series W → Series W
  unfolding macd_line macd_signal
  macd_histogram n closes = difference (macd_line n closes) (macd_signal n closes)

  -- The highest high and the lowest low of the `period` bars before `i`.
  unfoldable pub highest_high : Series W → ℕ → Series W
  highest_high highs period i =
      fold_window (λ h j. if num.lt h (highs j) then highs j else h) (highs (i - period))
        (suc (i - period)) (period - 1)

  unfoldable pub lowest_low : Series W → ℕ → Series W
  lowest_low lows period i =
      fold_window (λ l j. if num.lt (lows j) l then lows j else l) (lows (i - period))
        (suc (i - period)) (period - 1)

  unfoldable pub raw_k : Series W → Series W → Series W → ℕ → Series W
  unfolding highest_high lowest_low
  raw_k highs lows closes k_period i =
      let high = highest_high highs k_period i in
      let low = lowest_low lows k_period i in
      if ltb i k_period
      then num.nan
      else if num.eq high low
      then num.of_nat 50
      else (closes (i - 1) -f low) /f (high -f low) *f num.of_nat 100

  unfoldable pub stochastic_k : Series W → Series W → Series W → ℕ → ℕ → Series W
  unfolding raw_k sum
  stochastic_k highs lows closes k_period smooth i =
      if ltb i (k_period + smooth - 1)
      then num.nan
      else sum (raw_k highs lows closes k_period) (i - smooth) smooth /f num.of_nat smooth

  unfoldable pub stochastic_d : Series W → Series W → Series W → ℕ → ℕ → ℕ → Series W
  unfolding stochastic_k sma
  stochastic_d highs lows closes k_period d_period smooth =
      sma (stochastic_k highs lows closes k_period smooth) d_period

  unfoldable pub williams_r : Series W → Series W → Series W → ℕ → Series W
  unfolding highest_high lowest_low
  williams_r highs lows closes period i =
      let high = highest_high highs period i in
      let low = lowest_low lows period i in
      if ltb i period
      then num.nan
      else if num.eq high low
      then num.neg (num.of_nat 50)
      else (high -f closes (i - 1)) /f (high -f low) *f num.neg (num.of_nat 100)

  unfoldable pub cci : Series W → Series W → Series W → ℕ → Series W
  unfolding typical_price sum
  cci highs lows closes period i =
      let tp = typical_price highs lows closes in
      let mean = sum tp (i - period) period /f num.of_nat period in
      let mean_dev = sum (λ j. num.abs (tp j -f mean)) (i - period) period /f num.of_nat period in
      if ltb i period
      then num.nan
      else if num.eq mean_dev (num.of_nat 0)
      then num.of_nat 0
      else (tp (i - 1) -f mean) /f (literal 15 1000 *f mean_dev)

  unfoldable pub roc : Series W → ℕ → Series W
  roc closes period i =
      if leb i period
      then num.nan
      else if num.eq (closes (i - 1 - period)) (num.of_nat 0)
      then num.nan
      else (closes (i - 1) /f closes (i - 1 - period) -f num.of_nat 1) *f num.of_nat 100
