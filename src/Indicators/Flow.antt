-- ===== src/Indicators/Flow.antt =====
-- `CMF` and `UltimateOsc` of internal/indicators/momentum.go
use json_scanner.Base.{ℕ, ◌+◌, ◌-◌, ltb, if◌then◌else◌}
use json_scanner.Base.Int.{ℤ}
use json_scanner.Indicators.{Number, Series, sum, ◌+f◌, ◌-f◌, ◌*f◌, ◌/f◌}

module _ {W : Type 0} ⦃num : Number W⦄ where
  unfoldable pub money_flow : Series W → Series W → Series W → Series ℤ → Series W
  money_flow highs lows closes volumes j =
      if num.eq (highs j) (lows j)
      then num.of_nat 0
      else num.of_int (volumes j)
        *f ((closes j -f lows j) -f (highs j -f closes j))
        /f (highs j -f lows j)

  unfoldable pub cmf : Series W → Series W → Series W → Series ℤ → ℕ → Series W
  unfolding money_flow sum
  cmf highs lows closes volumes period i =
      let mf_sum = sum (money_flow highs lows closes volumes) (i + 1 - period) period in
      let vol_sum = sum (λ j. num.of_int (volumes j)) (i + 1 - period) period in
      if ltb i period
      then num.nan
      else if num.lt (num.of_nat 0) vol_sum
      then mf_sum /f vol_sum
      else num.nan

  unfoldable pub buying_pressure : Series W → Series W → Series W
  buying_pressure lows closes i = closes i -f num.min (lows i) (closes i)

  unfoldable pub true_range_at : Series W → Series W → Series W → Series W
  true_range_at highs lows closes i = num.max (highs i) (closes i) -f num.min (lows i) (closes i)

  -- The pressure by the range over the `period` bars up to `i`, or the constant.
  unfoldable pub average_pressure : Series W → Series W → Series W → ℕ → W → Series W
  unfolding buying_pressure true_range_at sum
  average_pressure highs lows closes period constant i =
      let tr = sum (true_range_at highs lows closes) (i + 1 - period) period in
      if num.lt (num.of_nat 0) tr
      then sum (buying_pressure lows closes) (i + 1 - period) period /f tr
      else constant

  -- `n` is the length.
  unfoldable pub ultimate_osc : ℕ → Series W → Series W → Series W → ℕ → ℕ → ℕ → Series W
  unfolding average_pressure
  ultimate_osc n highs lows closes p1 p2 p3 i =
      let avg1 = average_pressure highs lows closes p1 (num.of_nat 4) i in
      let avg2 = average_pressure highs lows closes p2 (num.of_nat 2) i in
      let avg3 = average_pressure highs lows closes p3 (num.of_nat 1) i in
      if ltb n (p3 + 2)
      then num.nan
      else if ltb i p3
      then num.nan
      else num.of_nat 100 *f (num.of_nat 4 *f avg1 +f num.of_nat 2 *f avg2 +f avg3) /f num.of_nat 7
