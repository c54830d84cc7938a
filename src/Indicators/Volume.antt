-- ===== src/Indicators/Volume.antt =====
-- internal/indicators/volume.go
use json_scanner.Base.{ℕ, ◌+◌, ◌-◌, ◌||◌, ltb, if◌then◌else◌}
use json_scanner.Base.Int.{ℤ}
use json_scanner.Indicators.{Number, Series, fold_window, sum, ◌+f◌, ◌-f◌, ◌*f◌, ◌/f◌}

module _ {W : Type 0} ⦃num : Number W⦄ where
  unfoldable pub dollar_vol : Series W → Series ℤ → Series W
  dollar_vol closes volumes i =
      if ltb i 1 then num.nan else closes (i - 1) *f num.of_int (volumes (i - 1))

  unfoldable pub avg_dollar_vol : Series W → Series ℤ → ℕ → Series W
  unfolding dollar_vol sum
  avg_dollar_vol closes volumes period i =
      if ltb i period
      then num.nan
      else sum (dollar_vol closes volumes) (i - period) period /f num.of_nat period

  unfoldable pub rel_volume : Series ℤ → ℕ → Series W
  unfolding sum
  rel_volume volumes period i =
      let average = sum (λ j. num.of_int (volumes j)) (i - period) period /f num.of_nat period in
      if ltb i (period + 1)
      then num.nan
      else if num.eq average (num.of_nat 0)
      then num.nan
      else num.of_int (volumes (i - 1)) /f average

  abbrev pub obv_step : Series W → Series ℤ → W → ℕ → W
  obv_step closes volumes acc i =
      if num.lt (closes (i - 2)) (closes (i - 1))
      then acc +f num.of_int (volumes (i - 1))
      else if num.lt (closes (i - 1)) (closes (i - 2))
      then acc -f num.of_int (volumes (i - 1))
      else acc

  -- `n` is the length.
  unfoldable pub obv : ℕ → Series W → Series ℤ → Series W
  obv n closes volumes i =
      if ltb n 2 then num.nan else fold_window (obv_step closes volumes) (num.of_nat 0) 2 (i - 1)

  unfoldable pub typical_price : Series W → Series W → Series W → Series W
  typical_price highs lows closes i = (highs i +f lows i +f closes i) /f num.of_nat 3

  unfoldable pub vwap : Series W → Series W → Series W → Series ℤ → ℕ → Series W
  unfolding typical_price sum
  vwap highs lows closes volumes period i =
      let tp = typical_price highs lows closes in
      let sum_tpv = sum (λ j. tp j *f num.of_int (volumes j)) (i - period) period in
      let sum_v = sum (λ j. num.of_int (volumes j)) (i - period) period in
      if ltb i period
      then num.nan
      else if num.eq sum_v (num.of_nat 0)
      then num.nan
      else sum_tpv /f sum_v

  unfoldable pub vwap_dist : Series W → Series W → Series W → Series ℤ → ℕ → Series W
  unfolding vwap
  vwap_dist highs lows closes volumes period i =
      let v = vwap highs lows closes volumes period i in
      if num.is_nan v || num.eq v (num.of_nat 0)
      then num.nan
      else (closes (i - 1) /f v -f num.of_nat 1) *f num.of_nat 100

  -- The flow of the bars that rise, or of those that fall.
  abbrev pub up_flow : Series W → Series W → W → ℕ → W
  up_flow tp raw acc j = if num.lt (tp (j - 1)) (tp j) then acc +f raw j else acc

  abbrev pub down_flow : Series W → Series W → W → ℕ → W
  down_flow tp raw acc j =
      if num.lt (tp (j - 1)) (tp j)
      then acc
      else if num.lt (tp j) (tp (j - 1))
      then acc +f raw j
      else acc

  unfoldable pub mfi : ℕ → Series W → Series W → Series W → Series ℤ → ℕ → Series W
  unfolding typical_price
  mfi n highs lows closes volumes period i =
      let tp = typical_price highs lows closes in
      let raw = λ (j : ℕ). tp j *f num.of_int (volumes j) in
      let pos = fold_window (up_flow tp raw) (num.of_nat 0) (i - period) period in
      let neg = fold_window (down_flow tp raw) (num.of_nat 0) (i - period) period in
      if ltb n (period + 1)
      then num.nan
      else if ltb i (period + 1)
      then num.of_nat 0
      else if num.eq neg (num.of_nat 0)
      then num.of_nat 100
      else num.of_nat 100 -f num.of_nat 100 /f (num.of_nat 1 +f pos /f neg)
