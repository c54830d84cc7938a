-- ===== src/Indicators/Volatility.antt =====
-- internal/indicators/volatility.go
use json_scanner.Base.{ℕ, suc, ◌+◌, ◌-◌, ◌||◌, leb, ltb, ◌==◌, if◌then◌else◌}
use json_scanner.Indicators.{
  Number, Series, fold_window, sum, literal, of_pred, ◌+f◌, ◌-f◌, ◌*f◌, ◌/f◌,
}
use json_scanner.Indicators.Trend.{ema}

module _ {W : Type 0} ⦃num : Number W⦄ where
  -- `tr[i]` of `ATR` and `ADX`: at the first bar it is as `make` left it.
  unfoldable pub range_at : Series W → Series W → Series W → Series W
  range_at highs lows closes i =
      if i == 0
      then num.of_nat 0
      else num.max (highs i -f lows i)
          (num.max (num.abs (highs i -f closes (i - 1))) (num.abs (lows i -f closes (i - 1))))

  -- Wilder's smoothing.
  abbrev pub wilder : ℕ → W → W → W
  wilder period a x = (a *f of_pred period +f x) /f num.of_nat period

  -- `n` is the length.
  unfoldable pub atr : ℕ → Series W → Series W → Series W → ℕ → Series W
  unfolding sum range_at
  atr n highs lows closes period i =
      let tr = range_at highs lows closes in
      if ltb n (period + 1)
      then num.nan
      else if ltb i period
      then num.of_nat 0
      else fold_window (λ a j. wilder period a (tr j)) (sum tr 1 period /f num.of_nat period)
          (suc period) (i - period)

  unfoldable pub atr_pct : ℕ → Series W → Series W → Series W → ℕ → Series W
  unfolding atr
  atr_pct n highs lows closes period i =
      let a = atr n highs lows closes period i in
      if ltb i 1 || num.is_nan a || num.eq (closes (i - 1)) (num.of_nat 0)
      then num.nan
      else a /f closes (i - 1) *f num.of_nat 100

  unfoldable pub bb_middle : Series W → ℕ → Series W
  unfolding sum
  bb_middle closes period i =
      if ltb i period then num.nan else sum closes (i - period) period /f num.of_nat period

  unfoldable pub std_dev : Series W → ℕ → Series W
  unfolding bb_middle
  std_dev closes period i =
      let mean = bb_middle closes period i in
      num.sqrt (
        fold_window (λ acc j. acc +f (closes j -f mean) *f (closes j -f mean)) (num.of_nat 0)
          (i - period) period
        /f num.of_nat period)

  unfoldable pub bb_upper : Series W → ℕ → W → Series W
  unfolding bb_middle std_dev
  bb_upper closes period mult i =
      if ltb i period then num.nan else bb_middle closes period i +f mult *f std_dev closes period i

  unfoldable pub bb_lower : Series W → ℕ → W → Series W
  unfolding bb_middle std_dev
  bb_lower closes period mult i =
      if ltb i period then num.nan else bb_middle closes period i -f mult *f std_dev closes period i

  unfoldable pub bb_width : Series W → ℕ → W → Series W
  unfolding bb_upper bb_lower bb_middle
  bb_width closes period mult i =
      let upper = bb_upper closes period mult i in
      let middle = bb_middle closes period i in
      let lower = bb_lower closes period mult i in
      if num.is_nan upper || num.is_nan middle || num.eq middle (num.of_nat 0)
      then num.nan
      else (upper -f lower) /f middle *f num.of_nat 100

  unfoldable pub bb_pct_b : Series W → ℕ → W → Series W
  unfolding bb_upper bb_lower
  bb_pct_b closes period mult i =
      let upper = bb_upper closes period mult i in
      let lower = bb_lower closes period mult i in
      if num.is_nan upper || num.is_nan lower
      then num.nan
      else if num.eq (upper -f lower) (num.of_nat 0)
      then literal 1 2
      else (closes (i - 1) -f lower) /f (upper -f lower)

  unfoldable pub log_return : Series W → Series W
  log_return closes i =
      if i == 0
      then num.of_nat 0
      else if num.eq (closes (i - 1)) (num.of_nat 0)
      then num.nan
      else num.log (closes i /f closes (i - 1))

  -- A term of a loop that skips what is NaN.
  abbrev pub add_known : W → W → W → W
  add_known x term acc = if num.is_nan x then acc else acc +f term

  unfoldable pub known : Series W → ℕ → ℕ → ℕ
  known xs lo k = fold_window (λ c j. if num.is_nan (xs j) then c else suc c) 0 lo k

  unfoldable pub historical_vol : Series W → ℕ → Series W
  unfolding log_return known
  historical_vol closes period i =
      let r = log_return closes in
      let count = known r (i - period) period in
      let total =
        fold_window (λ acc j. add_known (r j) (r j) acc) (num.of_nat 0) (i - period) period in
      let mean = total /f num.of_nat count in
      let variance =
        fold_window (λ acc j. add_known (r j) ((r j -f mean) *f (r j -f mean)) acc) (num.of_nat 0)
          (i - period) period in
      if leb i period
      then num.nan
      else if count == 0
      then num.nan
      else num.sqrt (variance /f num.of_nat count) *f num.sqrt (num.of_nat 252) *f num.of_nat 100

  unfoldable pub keltner_upper : ℕ → Series W → Series W → Series W → ℕ → ℕ → W → Series W
  unfolding ema atr
  keltner_upper n closes highs lows period atr_period mult i =
      let mid = ema n closes period i in
      let range = atr n highs lows closes atr_period i in
      if num.is_nan mid || num.is_nan range then num.nan else mid +f mult *f range

  unfoldable pub keltner_lower : ℕ → Series W → Series W → Series W → ℕ → ℕ → W → Series W
  unfolding ema atr
  keltner_lower n closes highs lows period atr_period mult i =
      let mid = ema n closes period i in
      let range = atr n highs lows closes atr_period i in
      if num.is_nan mid || num.is_nan range then num.nan else mid -f mult *f range
