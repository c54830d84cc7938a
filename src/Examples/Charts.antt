-- ===== src/Examples/Charts.antt =====
-- Indicators on series of whole numbers (internal/indicators).
use json_scanner.Base.{
  ℕ, ◌+◌, ◌-◌, ◌*◌, ◌/◌, ◌≡◌, refl, arith, Bool, true, false, Option, none, some, ltb, leb, ◌==◌,
  if◌then◌else◌,
}
use json_scanner.Base.Int.{ℤ, pos, negsuc}
use json_scanner.Indicators.{Number, Series, Bars, sum, fold_window}
use json_scanner.Indicators.Price.{rolling_high, rolling_low, rolling_extreme}
use json_scanner.Indicators.Trend.{sma, ema, highest, aroon_up, aroon_down, aroon_osc}
use json_scanner.Indicators.Parabolic.{psar}
use json_scanner.Indicators.Volatility.{
  atr, bb_middle, bb_upper, bb_lower, bb_width, bb_pct_b, historical_vol,
}
use json_scanner.Indicators.Volume.{dollar_vol, avg_dollar_vol, rel_volume, obv, vwap, mfi}
use json_scanner.Indicators.Momentum.{
  rsi, macd_line, macd_signal, macd_histogram, stochastic_k, stochastic_d, williams_r, cci,
}
use json_scanner.Indicators.Directional.{di_plus, di_minus, adx}
use json_scanner.Indicators.Flow.{cmf, ultimate_osc}
use json_scanner.Indicators.Window.{AgreesBefore}
use json_scanner.Indicators.Traded.{volume_of_earlier}
use json_scanner.Indicators.Smoothed.{momentum_of_earlier}
use json_scanner.Indicators.Bands.{bands_of_earlier}
use json_scanner.Indicators.Present.{values_of_present}
use json_scanner.Indicators.Extremes.{IsOrdered, StandsOut, rolling-StandsOut}

-- Whole numbers, with `none` for NaN and for what lies below zero.
abbrev pub Count : Type 0
Count = Option ℕ

abbrev on_counts : (ℕ → ℕ → Count) → Count → Count → Count
on_counts f none y = none
on_counts f (some a) none = none
on_counts f (some a) (some b) = f a b

abbrev pub test_counts : (ℕ → ℕ → Bool) → Count → Count → Bool
test_counts f none y = false
test_counts f (some a) none = false
test_counts f (some a) (some b) = f a b

abbrev of_int : ℤ → Count
of_int (pos n) = some n
of_int (negsuc n) = none

abbrev is_none : Count → Bool
is_none none = true
is_none (some a) = false

instance abbrev pub count_number : Number Count
count_number = record {
  plus = on_counts λ a b. some (a + b);
  minus = on_counts λ a b. if ltb a b then none else some (a - b);
  times = on_counts λ a b. some (a * b);
  over = on_counts λ a b. if b == 0 then none else some (a / b);
  lt = test_counts ltb;
  le = test_counts leb;
  eq = test_counts ◌==◌;
  abs = λ x. x;
  neg = λ x. none;
  max = on_counts λ a b. if ltb a b then some b else some a;
  min = on_counts λ a b. if ltb a b then some a else some b;
  sqrt = λ x. x;
  log = λ x. x;
  nan = none;
  is_nan = is_none;
  of_nat = some;
  of_int = of_int;
}

count_irrefl : (x : Count) → test_counts ltb x x ≡ false
count_irrefl none = refl
count_irrefl (some a) = ground arith

count_trans :
    (x y z : Count)
    → test_counts ltb x y ≡ true
    → test_counts ltb y z ≡ true
    → test_counts ltb x z ≡ true
count_trans none y z p q = p
count_trans (some a) none z p q = cc
count_trans (some a) (some b) none p q = q
count_trans (some a) (some b) (some c) p q = ground arith

Count-IsOrdered : IsOrdered Count
Count-IsOrdered = record { lt_irrefl = count_irrefl; lt_trans = count_trans }

-- Two rising series that part at bar 6.
abbrev pub rising : ℕ → Series Count
rising last j = if ltb j 6 then some (10 + j) else some last

abbrev pub bars : ℕ → Bars Count
bars last = record {
  open_ = rising last;
  high = rising last;
  low = rising last;
  close = rising last;
  volume = λ j. if ltb j 6 then pos 5 else pos last;
}

bars_agree : AgreesBefore 6 (bars 3) (bars 40)
bars_agree = record {
  open_ = λ j u. let e : ltb j 6 ≡ true = ground arith in rw e refl;
  high = λ j u. let e : ltb j 6 ≡ true = ground arith in rw e refl;
  low = λ j u. let e : ltb j 6 ≡ true = ground arith in rw e refl;
  close = λ j u. let e : ltb j 6 ≡ true = ground arith in rw e refl;
  volume = λ j u. let e : ltb j 6 ≡ true = ground arith in rw e refl;
}

sma_test : sma (bars 3).close 3 5 ≡ some 13
unfolding sma sum fold_window
sma_test = refl

ema_test : ema 9 (bars 3).close 2 4 ≡ some 10
unfolding ema sum fold_window
ema_test = refl

rolling_high_test : rolling_high (bars 3).high 4 7 ≡ some 15
unfolding rolling_high rolling_extreme fold_window
rolling_high_test = refl

highest_test : highest (bars 40).high 3 6 ≡ 6
unfolding highest fold_window
highest_test = refl

volume_of_earlier_example :
    (dollar_vol (bars 3).close (bars 3).volume 6 ≡ dollar_vol (bars 40).close (bars 40).volume 6)
    × (avg_dollar_vol (bars 3).close (bars 3).volume 4 6
        ≡ avg_dollar_vol (bars 40).close (bars 40).volume 4 6)
    × ◌≡◌ {A = Count} (rel_volume (bars 3).volume 4 6) (rel_volume (bars 40).volume 4 6)
    × (obv 8 (bars 3).close (bars 3).volume 6 ≡ obv 8 (bars 40).close (bars 40).volume 6)
    × (vwap (bars 3).high (bars 3).low (bars 3).close (bars 3).volume 4 6
        ≡ vwap (bars 40).high (bars 40).low (bars 40).close (bars 40).volume 4 6)
    × (mfi 8 (bars 3).high (bars 3).low (bars 3).close (bars 3).volume 4 6
        ≡ mfi 8 (bars 40).high (bars 40).low (bars 40).close (bars 40).volume 4 6)
volume_of_earlier_example = volume_of_earlier 8 (bars 3) (bars 40) 4 6 bars_agree

momentum_of_earlier_example :
    (ema 8 (bars 3).close 4 6 ≡ ema 8 (bars 40).close 4 6)
    × (rsi 8 (bars 3).close 4 6 ≡ rsi 8 (bars 40).close 4 6)
    × (macd_line 8 (bars 3).close 6 ≡ macd_line 8 (bars 40).close 6)
    × (macd_signal 8 (bars 3).close 6 ≡ macd_signal 8 (bars 40).close 6)
    × (macd_histogram 8 (bars 3).close 6 ≡ macd_histogram 8 (bars 40).close 6)
    × (stochastic_k (bars 3).high (bars 3).low (bars 3).close 4 2 6
        ≡ stochastic_k (bars 40).high (bars 40).low (bars 40).close 4 2 6)
    × (stochastic_d (bars 3).high (bars 3).low (bars 3).close 4 2 2 6
        ≡ stochastic_d (bars 40).high (bars 40).low (bars 40).close 4 2 2 6)
    × (williams_r (bars 3).high (bars 3).low (bars 3).close 4 6
        ≡ williams_r (bars 40).high (bars 40).low (bars 40).close 4 6)
momentum_of_earlier_example =
    momentum_of_earlier 8 (bars 3) (bars 40) 4 2 2 6 (omega arith) bars_agree

bands_of_earlier_example :
    (bb_upper (bars 3).close 4 (some 2) 6 ≡ bb_upper (bars 40).close 4 (some 2) 6)
    × (bb_middle (bars 3).close 4 6 ≡ bb_middle (bars 40).close 4 6)
    × (bb_lower (bars 3).close 4 (some 2) 6 ≡ bb_lower (bars 40).close 4 (some 2) 6)
    × (bb_width (bars 3).close 4 (some 2) 6 ≡ bb_width (bars 40).close 4 (some 2) 6)
    × (bb_pct_b (bars 3).close 4 (some 2) 6 ≡ bb_pct_b (bars 40).close 4 (some 2) 6)
    × (historical_vol (bars 3).close 4 6 ≡ historical_vol (bars 40).close 4 6)
    × (cci (bars 3).high (bars 3).low (bars 3).close 4 6
        ≡ cci (bars 40).high (bars 40).low (bars 40).close 4 6)
    × (adx 8 (bars 3).high (bars 3).low (bars 3).close 4 6
        ≡ adx 8 (bars 40).high (bars 40).low (bars 40).close 4 6)
bands_of_earlier_example =
    bands_of_earlier 8 (bars 3) (bars 40) 4 (some 2) 6 (omega arith) (omega arith) bars_agree

values_of_present_example :
    (atr 8 (bars 3).high (bars 3).low (bars 3).close 4 5
      ≡ atr 8 (bars 40).high (bars 40).low (bars 40).close 4 5)
    × (di_plus 8 (bars 3).high (bars 3).low (bars 3).close 4 5
        ≡ di_plus 8 (bars 40).high (bars 40).low (bars 40).close 4 5)
    × (di_minus 8 (bars 3).high (bars 3).low (bars 3).close 4 5
        ≡ di_minus 8 (bars 40).high (bars 40).low (bars 40).close 4 5)
    × (cmf (bars 3).high (bars 3).low (bars 3).close (bars 3).volume 4 5
        ≡ cmf (bars 40).high (bars 40).low (bars 40).close (bars 40).volume 4 5)
    × (ultimate_osc 8 (bars 3).high (bars 3).low (bars 3).close 2 3 4 5
        ≡ ultimate_osc 8 (bars 40).high (bars 40).low (bars 40).close 2 3 4 5)
    × (aroon_up (bars 3).high 4 5 ≡ aroon_up (bars 40).high 4 5)
    × (aroon_down (bars 3).low 4 5 ≡ aroon_down (bars 40).low 4 5)
    × (aroon_osc (bars 3).high (bars 3).low 4 5 ≡ aroon_osc (bars 40).high (bars 40).low 4 5)
    × (psar 8 (bars 3).high (bars 3).low (some 1) (some 2) 5
        ≡ psar 8 (bars 40).high (bars 40).low (some 1) (some 2) 5)
values_of_present_example =
    values_of_present 8 (bars 3) (bars 40) 4 2 3 (some 1) (some 2) 5 (omega arith) (omega arith)
      bars_agree

rolling-StandsOut_example :
    StandsOut (test_counts ltb) (rising 3) (7 - 4) 7 (rolling_high (rising 3) 4 7)
    × StandsOut (λ x y. (test_counts ltb) y x) (rising 3) (7 - 4) 7 (rolling_low (rising 3) 4 7)
rolling-StandsOut_example =
    rolling-StandsOut (rising 3) 4 7 Count-IsOrdered (omega arith) (omega arith)
