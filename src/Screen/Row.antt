-- ===== src/Screen/Row.antt =====
-- `Build` of internal/screen/screen.go: a symbol's latest state from its bars.
use json_scanner.Base.{ℕ, zero, suc, ◌-◌, String, Bool, false, ◌&&◌, Option, none, some}
use json_scanner.Indicators.{Number, Series, Bars, literal}
use json_scanner.Indicators.Price as Price
use json_scanner.Indicators.Price.{rolling_high, rolling_low}
use json_scanner.Indicators.Returns.{return_}
use json_scanner.Indicators.Trend as Trend
use json_scanner.Indicators.Trend.{sma, ema, pct_from_sma}
use json_scanner.Indicators.Parabolic as Parabolic
use json_scanner.Indicators.Volatility as Volatility
use json_scanner.Indicators.Volatility.{atr, historical_vol}
use json_scanner.Indicators.Volume as Volume
use json_scanner.Indicators.Volume.{avg_dollar_vol, mfi}
use json_scanner.Indicators.Momentum as Momentum
use json_scanner.Indicators.Momentum.{
  rsi, macd_line, macd_histogram, stochastic_k, stochastic_d, cci, roc,
}
use json_scanner.Indicators.Directional as Directional
use json_scanner.Indicators.Directional.{adx}
use json_scanner.Indicators.Flow as Flow
use json_scanner.Indicators.Flow.{cmf}

pub record SnapshotRow (W : Type 0) : Type 0 where
  pub symbol : String
  pub close : W
  pub high : W
  pub low : W
  pub open_ : W
  pub sma5 : W
  pub sma10 : W
  pub sma20 : W
  pub sma30 : W
  pub sma50 : W
  pub sma100 : W
  pub sma200 : W
  pub ema10 : W
  pub ema21 : W
  pub ema50 : W
  pub ema100 : W
  pub ema200 : W
  pub pct_from_sma50 : W
  pub pct_from_sma200 : W
  pub ma_stack : Bool
  pub rsi14 : W
  pub macd : W
  pub macd_signal : W
  pub macd_hist : W
  pub stoch_k : W
  pub stoch_d : W
  pub williams_r : W
  pub cci20 : W
  pub roc10 : W
  pub roc20 : W
  pub adx14 : W
  pub di_plus : W
  pub di_minus : W
  pub atr14 : W
  pub atr_pct : W
  pub bb_upper : W
  pub bb_middle : W
  pub bb_lower : W
  pub bb_width : W
  pub bb_pct_b : W
  pub hist_vol20 : W
  pub high_52w : W
  pub low_52w : W
  pub is_52w_high : Bool
  pub is_52w_low : Bool
  pub gap_pct : W
  pub true_range : W
  pub pct_off_52w_high : W
  pub pct_above_52w_low : W
  pub ret_1d : W
  pub ret_5d : W
  pub ret_1m : W
  pub ret_3m : W
  pub ret_6m : W
  pub ret_1y : W
  pub dollar_vol : W
  pub avg_dollar_vol20 : W
  pub rel_volume : W
  pub obv : W
  pub vwap_dist : W
  pub mfi14 : W
  pub golden_cross : Bool
  pub oversold_bounce : Bool
  pub psar : W
  pub aroon_up : W
  pub aroon_down : W
  pub aroon_osc : W
  pub keltner_upper : W
  pub keltner_mid : W
  pub keltner_lower : W
  pub cmf20 : W
  pub ultimate_osc : W

-- A read that the code makes before the series would panic; `Build` makes none, since a window of
-- 252 bars is not full at the first.
abbrev pub or_panic : {A : Type 0} → A → Option A → A
or_panic d none = d
or_panic d (some a) = a

-- `if n >= 2`, for the last bar of a series of `n`.
abbrev pub suc_crossed : ℕ → (ℕ → Bool) → Bool
suc_crossed zero at = false
suc_crossed (suc zero) at = false
suc_crossed (suc (suc k)) at = at (suc k)

module _ {W : Type 0} ⦃num : Number W⦄ where
  abbrev pub golden_cross_at : Series W → ℕ → Bool
  golden_cross_at closes i =
      num.lt (sma closes 200 i) (sma closes 50 i)
      && num.le (sma closes 50 (i - 1)) (sma closes 200 (i - 1))

  abbrev pub bounce_at : ℕ → Series W → ℕ → Bool
  bounce_at n closes i =
      num.lt (num.of_nat 30) (rsi n closes 14 i) && num.le (rsi n closes 14 (i - 1)) (num.of_nat 30)

  -- The row at the last of `n` bars, which is bar `i`.
  unfoldable pub row_at : String → ℕ → Bars W → ℕ → SnapshotRow W
  row_at symbol n b i = record {
    symbol = symbol;
    close = b.close i;
    high = b.high i;
    low = b.low i;
    open_ = b.open_ i;
    sma5 = sma b.close 5 i;
    sma10 = sma b.close 10 i;
    sma20 = sma b.close 20 i;
    sma30 = sma b.close 30 i;
    sma50 = sma b.close 50 i;
    sma100 = sma b.close 100 i;
    sma200 = sma b.close 200 i;
    ema10 = ema n b.close 10 i;
    ema21 = ema n b.close 21 i;
    ema50 = ema n b.close 50 i;
    ema100 = ema n b.close 100 i;
    ema200 = ema n b.close 200 i;
    pct_from_sma50 = pct_from_sma b.close (sma b.close 50) i;
    pct_from_sma200 = pct_from_sma b.close (sma b.close 200) i;
    ma_stack =
        Trend.ma_stack (ema n b.close 10) (ema n b.close 21) (ema n b.close 50) (ema n b.close 200)
          i;
    rsi14 = rsi n b.close 14 i;
    macd = macd_line n b.close i;
    macd_signal = Momentum.macd_signal n b.close i;
    macd_hist = macd_histogram n b.close i;
    stoch_k = stochastic_k b.high b.low b.close 14 3 i;
    stoch_d = stochastic_d b.high b.low b.close 14 3 3 i;
    williams_r = Momentum.williams_r b.high b.low b.close 14 i;
    cci20 = cci b.high b.low b.close 20 i;
    roc10 = roc b.close 10 i;
    roc20 = roc b.close 20 i;
    adx14 = adx n b.high b.low b.close 14 i;
    di_plus = Directional.di_plus n b.high b.low b.close 14 i;
    di_minus = Directional.di_minus n b.high b.low b.close 14 i;
    atr14 = atr n b.high b.low b.close 14 i;
    atr_pct = Volatility.atr_pct n b.high b.low b.close 14 i;
    bb_upper = Volatility.bb_upper b.close 20 (num.of_nat 2) i;
    bb_middle = Volatility.bb_middle b.close 20 i;
    bb_lower = Volatility.bb_lower b.close 20 (num.of_nat 2) i;
    bb_width = Volatility.bb_width b.close 20 (num.of_nat 2) i;
    bb_pct_b = Volatility.bb_pct_b b.close 20 (num.of_nat 2) i;
    hist_vol20 = historical_vol b.close 20 i;
    high_52w = rolling_high b.high 252 i;
    low_52w = rolling_low b.low 252 i;
    is_52w_high = or_panic false (Price.is_52w_high b.close (rolling_high b.high 252) i);
    is_52w_low = or_panic false (Price.is_52w_low b.close (rolling_low b.low 252) i);
    gap_pct = Price.gap_pct b.open_ b.close i;
    true_range = Price.true_range b.high b.low b.close i;
    pct_off_52w_high =
        or_panic num.nan (Price.pct_off_52w_high b.close (rolling_high b.high 252) i);
    pct_above_52w_low =
        or_panic num.nan (Price.pct_above_52w_low b.close (rolling_low b.low 252) i);
    ret_1d = return_ b.close 1 i;
    ret_5d = return_ b.close 5 i;
    ret_1m = return_ b.close 21 i;
    ret_3m = return_ b.close 63 i;
    ret_6m = return_ b.close 126 i;
    ret_1y = return_ b.close 252 i;
    dollar_vol = Volume.dollar_vol b.close b.volume i;
    avg_dollar_vol20 = avg_dollar_vol b.close b.volume 20 i;
    rel_volume = Volume.rel_volume b.volume 20 i;
    obv = Volume.obv n b.close b.volume i;
    vwap_dist = Volume.vwap_dist b.high b.low b.close b.volume 20 i;
    mfi14 = mfi n b.high b.low b.close b.volume 14 i;
    golden_cross = suc_crossed n (golden_cross_at b.close);
    oversold_bounce = suc_crossed n (bounce_at n b.close);
    psar = Parabolic.psar n b.high b.low (literal 2 100) (literal 20 100) i;
    aroon_up = Trend.aroon_up b.high 25 i;
    aroon_down = Trend.aroon_down b.low 25 i;
    aroon_osc = Trend.aroon_osc b.high b.low 25 i;
    keltner_upper = Volatility.keltner_upper n b.close b.high b.low 20 10 (num.of_nat 2) i;
    keltner_mid = ema n b.close 20 i;
    keltner_lower = Volatility.keltner_lower n b.close b.high b.low 20 10 (num.of_nat 2) i;
    cmf20 = cmf b.high b.low b.close b.volume 20 i;
    ultimate_osc = Flow.ultimate_osc n b.high b.low b.close 7 14 28 i;
  }

  -- `n` is the number of bars.
  unfoldable pub build : String → ℕ → Bars W → Option (SnapshotRow W)
  unfolding row_at
  build symbol zero b = none
  build symbol (suc i) b = some (row_at symbol (suc i) b i)
