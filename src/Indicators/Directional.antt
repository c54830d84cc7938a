-- ===== src/Indicators/Directional.antt =====
-- `ADX` of internal/indicators/momentum.go
use json_scanner.Base.{ℕ, suc, ◌+◌, ◌-◌, ◌*◌, ◌&&◌, ◌==◌, ltb, if◌then◌else◌}
use json_scanner.Indicators.{Number, Series, fold_window, sum, ◌+f◌, ◌-f◌, ◌*f◌, ◌/f◌}
use json_scanner.Indicators.Volatility.{range_at, wilder}

module _ {W : Type 0} ⦃num : Number W⦄ where
  -- `upMove` where it is the larger move and above zero; `pdm[i]` and, with the sides exchanged,
  -- `ndm[i]`.
  abbrev pub larger_move : W → W → W
  larger_move mine other =
      if num.lt other mine && num.lt (num.of_nat 0) mine then mine else num.of_nat 0

  unfoldable pub up_move : Series W → Series W → Series W
  up_move highs lows i =
      if i == 0
      then num.of_nat 0
      else larger_move (highs i -f highs (i - 1)) (lows (i - 1) -f lows i)

  unfoldable pub down_move : Series W → Series W → Series W
  down_move highs lows i =
      if i == 0
      then num.of_nat 0
      else larger_move (lows (i - 1) -f lows i) (highs i -f highs (i - 1))

  -- `trSmooth[i]` and its like, from `period` on.
  unfoldable pub smooth_sum : Series W → ℕ → Series W
  unfolding sum
  smooth_sum xs period i =
      fold_window (λ s j. s -f s /f num.of_nat period +f xs j) (sum xs 1 period) (suc period)
        (i - period)

  -- A directional indicator: the smoothed moves by the smoothed range.
  unfoldable pub directional : Series W → Series W → ℕ → ℕ → Series W
  unfolding smooth_sum
  directional moves tr n period i =
      if ltb n (period + 1)
      then num.nan
      else if ltb i period
      then num.of_nat 0
      else if num.eq (smooth_sum tr period i) (num.of_nat 0)
      then num.of_nat 0
      else smooth_sum moves period i /f smooth_sum tr period i *f num.of_nat 100

  -- `n` is the length.
  unfoldable pub di_plus : ℕ → Series W → Series W → Series W → ℕ → Series W
  unfolding directional up_move range_at
  di_plus n highs lows closes period =
      directional (up_move highs lows) (range_at highs lows closes) n period

  unfoldable pub di_minus : ℕ → Series W → Series W → Series W → ℕ → Series W
  unfolding directional down_move range_at
  di_minus n highs lows closes period =
      directional (down_move highs lows) (range_at highs lows closes) n period

  unfoldable pub dx : Series W → Series W → Series W
  dx plus minus i =
      if num.eq (plus i +f minus i) (num.of_nat 0)
      then num.of_nat 0
      else num.abs (plus i -f minus i) /f (plus i +f minus i) *f num.of_nat 100

  unfoldable pub adx : ℕ → Series W → Series W → Series W → ℕ → Series W
  unfolding dx di_plus di_minus sum
  adx n highs lows closes period i =
      let d = dx (di_plus n highs lows closes period) (di_minus n highs lows closes period) in
      if ltb n (period + 1)
      then num.nan
      else if ltb i (period * 2)
      then num.of_nat 0
      else fold_window (λ a j. wilder period a (d (j - 1)))
          (sum d period period /f num.of_nat period) (suc (period * 2)) (i - period * 2)
