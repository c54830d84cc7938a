-- ===== src/Indicators/Parabolic.antt =====
-- `PSAR` of internal/indicators/trend.go
use json_scanner.Base.{ℕ, suc, ◌-◌, Bool, true, false, ◌&&◌, ltb, if◌then◌else◌}
use json_scanner.Indicators.{Number, Series, fold_window, literal, ◌+f◌, ◌-f◌, ◌*f◌}

-- The loop's variables.
pub record Parabolic (W : Type 0) : Type 0 where
  pub af : W
  pub ep : W
  pub sar : W
  pub is_bullish : Bool

module _ {W : Type 0} ⦃num : Number W⦄ where
  -- A new extreme point, with the acceleration it brings.
  abbrev pub advance : Bool → W → W → W → Parabolic W → Parabolic W
  advance beyond point step max_af s =
      if beyond then record s { ep = point; af = num.min (s.af +f step) max_af } else s

  abbrev pub reverse_if : Bool → Bool → W → W → Parabolic W → Parabolic W
  reverse_if crossed bullish point step s =
      if crossed then record s { is_bullish = bullish; af = step; sar = s.ep; ep = point } else s

  abbrev pub at_most : W → W → W
  at_most x bound = if num.lt bound x then bound else x

  abbrev pub at_least : W → W → W
  at_least x bound = if num.lt x bound then bound else x

  unfoldable pub bullish_step : Series W → Series W → W → W → Parabolic W → ℕ → Parabolic W
  bullish_step highs lows step max_af s i =
      let sar = at_most (at_most (s.sar +f s.af *f (s.ep -f s.sar)) (lows i)) (lows (suc i)) in
      let t = advance (num.lt s.ep (highs i)) (highs i) step max_af (record s { sar = sar }) in
      reverse_if (num.lt (lows (suc i)) sar) false (lows i) step t

  unfoldable pub bearish_step : Series W → Series W → W → W → Parabolic W → ℕ → Parabolic W
  bearish_step highs lows step max_af s i =
      let sar = at_least (at_least (s.sar -f s.af *f (s.sar -f s.ep)) (highs i)) (highs (suc i)) in
      let t = advance (num.lt (lows i) s.ep) (lows i) step max_af (record s { sar = sar }) in
      reverse_if (num.lt sar (highs (suc i))) true (highs i) step t

  unfoldable pub psar_step : Series W → Series W → W → W → Parabolic W → ℕ → Parabolic W
  unfolding bullish_step bearish_step
  psar_step highs lows step max_af s i =
      if s.is_bullish
      then bullish_step highs lows step max_af s i
      else bearish_step highs lows step max_af s i

  unfoldable pub psar_start : Series W → Series W → W → Parabolic W
  psar_start highs lows step =
      if num.lt (highs 0) (highs 1) && num.lt (lows 0) (lows 1)
      then record { af = step; ep = highs 0; sar = lows 0; is_bullish = true }
      else record { af = step; ep = lows 0; sar = highs 0; is_bullish = false }

  -- `n` is the length.
  unfoldable pub psar : ℕ → Series W → Series W → W → W → Series W
  unfolding psar_step psar_start
  psar n highs lows step max_af i =
      let start = psar_start highs lows step in
      let run = fold_window (psar_step highs lows step max_af) start 1 (i - 1) in
      if ltb n 2
      then num.nan
      else if ltb i 1
      then num.nan
      else if ltb i 2
      then start.sar
      else num.max run.sar (literal 1 100)
