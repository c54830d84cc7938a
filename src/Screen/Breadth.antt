-- ===== src/Screen/Breadth.antt =====
-- The market's breadth (internal/screen/screen.go).
use json_scanner.Base.{◌+◌, ◌||◌, Bool, not, ◌&&◌, List, count}
use json_scanner.Indicators.{Number}
use json_scanner.Screen.Row.{SnapshotRow}
use json_scanner.Screen.Presets.{Breadth, above_sma200, above_sma50, at_52w_high, at_52w_low}

module _ {W : Type 0} ⦃num : Number W⦄ where
  abbrev pub has_sma200 : SnapshotRow W → Bool
  has_sma200 r = not (num.is_nan r.sma200)

  abbrev pub has_sma50 : SnapshotRow W → Bool
  has_sma50 r = not (num.is_nan r.sma50)

  abbrev pub plus : Breadth → List (SnapshotRow W) → Breadth
  plus b rows = record {
    total = b.total;
    with_sma200 = b.with_sma200 + count has_sma200 rows;
    above_sma200 = b.above_sma200 + count (λ r. has_sma200 r && above_sma200 r) rows;
    with_sma50 = b.with_sma50 + count has_sma50 rows;
    above_sma50 = b.above_sma50 + count (λ r. has_sma50 r && above_sma50 r) rows;
    new_52w_high = b.new_52w_high + count at_52w_high rows;
    new_52w_low = b.new_52w_low + count at_52w_low rows;
  }

  -- A close above a known average.
  abbrev pub closes_above : (SnapshotRow W → W) → SnapshotRow W → Bool
  closes_above average r = not (num.is_nan (average r)) && num.lt (average r) r.close

  -- A close at a known high above zero, or the mark that the bar made one.
  abbrev pub marks_high : SnapshotRow W → Bool
  marks_high r =
      (not (num.is_nan r.high_52w)
        && (num.lt (num.of_nat 0) r.high_52w && num.le r.high_52w r.close))
      || r.is_52w_high

  abbrev pub marks_low : SnapshotRow W → Bool
  marks_low r =
      (not (num.is_nan r.low_52w) && (num.lt (num.of_nat 0) r.low_52w && num.le r.close r.low_52w))
      || r.is_52w_low
