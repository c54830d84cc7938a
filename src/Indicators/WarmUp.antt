-- ===== src/Indicators/WarmUp.antt =====
-- What stands at the bars before a window is full.
use json_scanner.Base.{
  ℕ, ◌+◌, ◌*◌, ◌<◌, ◌≡◌, refl, arith, true, false, ltb, leb, Bool-cases, inl, inr,
}
use json_scanner.Indicators.{Number, Bars}
use json_scanner.Indicators.Price.{rolling_extreme, rolling_high, rolling_low}
use json_scanner.Indicators.Returns.{return_}
use json_scanner.Indicators.Trend.{sma, ema}
use json_scanner.Indicators.Volatility.{atr, bb_upper, bb_lower, historical_vol}
use json_scanner.Indicators.Volume.{avg_dollar_vol, rel_volume, vwap, mfi}
use json_scanner.Indicators.Momentum.{rsi, williams_r, cci, roc}
use json_scanner.Indicators.Directional.{adx, di_plus, di_minus, directional}
use json_scanner.Indicators.Flow.{cmf}

module _ {W : Type 0} ⦃num : Number W⦄ where
  -- Before its window is full, each of the windowed indicators is NaN.
  pub windowed_warm_up :
      (n : ℕ) (b : Bars W) (m : W) (p i : ℕ)
      → i < p
      → (rolling_high b.high p i ≡ num.nan)
        × (rolling_low b.low p i ≡ num.nan)
        × (return_ b.close p i ≡ num.nan)
        × (sma b.close p i ≡ num.nan)
        × (bb_upper b.close p m i ≡ num.nan)
        × (bb_lower b.close p m i ≡ num.nan)
        × (historical_vol b.close p i ≡ num.nan)
        × (avg_dollar_vol b.close b.volume p i ≡ num.nan)
        × ◌≡◌ {A = W} (rel_volume b.volume p i) num.nan
        × (vwap b.high b.low b.close b.volume p i ≡ num.nan)
        × (rsi n b.close p i ≡ num.nan)
        × (williams_r b.high b.low b.close p i ≡ num.nan)
        × (cci b.high b.low b.close p i ≡ num.nan)
        × (roc b.close p i ≡ num.nan)
        × (cmf b.high b.low b.close b.volume p i ≡ num.nan)
  unfolding rolling_high rolling_low rolling_extreme return_ sma bb_upper bb_lower historical_vol
      avg_dollar_vol rel_volume vwap rsi williams_r cci roc cmf
  windowed_warm_up n b m p i h =
      let e : ltb i p ≡ true = ground arith in
      let f : ltb p 1 ≡ false = ground arith in
      let g : ltb i (p + 1) ≡ true = ground arith in
      let q : leb i p ≡ true = ground arith in
      (
        rw (f, e) refl,
        rw (f, e) refl,
        rw g refl,
        rw (f, e) refl,
        rw e refl,
        rw e refl,
        rw q refl,
        rw e refl,
        rw g refl,
        rw e refl,
        elim (Bool-cases (leb n (p + 1))) [ inl c ↦ rw (f, c) refl | inr c ↦ rw (f, c, q) refl ],
        rw e refl,
        rw e refl,
        rw q refl,
        rw e refl,
      )

  -- On a series longer than the window, the exponential average, the average true range, the
  -- directional indicators and the money flow index are zero and not NaN before the window is full,
  -- and so is the directional index before twice the window.
  pub smoothed_warm_up :
      (n : ℕ) (b : Bars W) (p i : ℕ)
      → 0 < p
      → p < n
      → i < p
      → (ema n b.close p i ≡ num.of_nat 0)
        × (atr n b.high b.low b.close p i ≡ num.of_nat 0)
        × (di_plus n b.high b.low b.close p i ≡ num.of_nat 0)
        × (di_minus n b.high b.low b.close p i ≡ num.of_nat 0)
        × (mfi n b.high b.low b.close b.volume p i ≡ num.of_nat 0)
        × (adx n b.high b.low b.close p (p + i) ≡ num.of_nat 0)
  unfolding ema atr di_plus di_minus directional mfi adx
  smoothed_warm_up n b p i o l h =
      let e : ltb i p ≡ true = ground arith in
      let g : ltb i (p + 1) ≡ true = ground arith in
      let f : ltb p 1 ≡ false = ground arith in
      let k : leb n p ≡ false = ground arith in
      let m : ltb n (p + 1) ≡ false = ground arith in
      let t : ltb (p + i) (p * 2) ≡ true = ground arith in
      (
        rw (f, k, e) refl,
        rw (m, e) refl,
        rw (m, e) refl,
        rw (m, e) refl,
        rw (m, g) refl,
        rw (m, t) refl,
      )
