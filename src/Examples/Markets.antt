-- ===== src/Examples/Markets.antt =====
-- Screens, signals and backtests (internal/screen, internal/scanner, internal/backtest).
use json_scanner.Base.{
  ℕ, ◌+◌, ◌≤◌, ◌<◌, String, ◌≡◌, refl, arith, Bool, true, false, ◌&&◌, Option, none, some, List, [],
  ◌∷◌, map, All, length, count, ltb, leb, if◌then◌else◌, not, ◌++◌,
}
use json_scanner.Base.Result.{ok}
use json_scanner.Indicators.{Series, Bars}
use json_scanner.Examples.Charts.{Count, count_number, test_counts, bars}
use json_scanner.Screen.Row.{SnapshotRow, row_at, build}
use json_scanner.Screen.Presets.{Preset, run}
use json_scanner.Screen.Signals.{ScanConfig}
use json_scanner.Screen.Crossed.{build_crosses}
use json_scanner.Screen.Ranked.{IsTotal, IsDescending, IsCut, run-IsDescending}
use json_scanner.Sentinel.Gate.{Severity, suspect, watch, Tier0Config, tier0, counts}
use json_scanner.Sentinel.Flagged.{is_held_back, is_to_verify, IsInOrder, passing, tier0-IsInOrder}
use json_scanner.Snapshot.Store.{
  SnapRow, Db, date_rows, set_active, list_snapshots, dates_of, insert_date, nearest_date,
  min_date_from, symbol_close,
}
use json_scanner.Snapshot.Query as Query
use json_scanner.Study.Access.{Study}
use json_scanner.Backtest.Run.{
  Trade, Summary, Outcomes, calculate_return, trades_of, run_date, run_dates, tally,
  calculate_summary, run_backtest,
}
use json_scanner.Backtest.Trades.{IsHeld}
use json_scanner.Backtest.Held.{run_backtest-IsHeld}

abbrev today : SnapshotRow Count
today = row_at "AAA" 8 (bars 3) 7

abbrev yesterday : SnapshotRow Count
yesterday = row_at "AAA" 7 (bars 3) 6

today_is : build "AAA" 8 (bars 3) ≡ some today
unfolding build
today_is = refl

yesterday_is : build "AAA" 7 (bars 3) ≡ some yesterday
unfolding build
yesterday_is = refl

build_crosses_example :
    (today.golden_cross ≡ (
      test_counts ltb today.sma200 today.sma50 && test_counts leb yesterday.sma50 yesterday.sma200))
    × (today.oversold_bounce
        ≡ (test_counts ltb (some 30) today.rsi14 && test_counts leb yesterday.rsi14 (some 30)))
build_crosses_example = build_crosses "AAA" 6 (bars 3) today yesterday today_is yesterday_is

count_asym : (x y : Count) → test_counts ltb x y ≡ true → test_counts ltb y x ≡ false
count_asym none y p = cc
count_asym (some a) none p = cc
count_asym (some a) (some b) p = ground arith

count_not_lt_trans :
    (x y z : Count)
    → count_number.is_nan y ≡ false
    → test_counts ltb x y ≡ false
    → test_counts ltb y z ≡ false
    → test_counts ltb x z ≡ false
count_not_lt_trans x none z n p q = cc
count_not_lt_trans none (some b) z n p q = refl
count_not_lt_trans (some a) (some b) none n p q = refl
count_not_lt_trans (some a) (some b) (some c) n p q = ground arith

Count-IsTotal : IsTotal Count
Count-IsTotal = record { lt_asym = count_asym; not_lt_trans = count_not_lt_trans }

abbrev by_close : Preset Count
by_close = record {
  key = "by_close";
  title = "By close";
  match = none;
  metric = λ r. r.close;
  limit = 1;
}

run-IsDescending_example :
    let shown = run by_close (today ∷ yesterday ∷ []) in
    (rest : List (SnapshotRow Count)) × IsCut 1 shown rest
    × IsDescending (λ r. r.close) (shown ++ rest)
    × All (λ r. count_number.is_nan r.close ≡ false) (shown ++ rest)
    × ((q : SnapshotRow Count → Bool)
        → count q (shown ++ rest)
          ≡ count
              (λ r. true && (not (count_number.is_nan r.close) && q r))
              (today ∷ yesterday ∷ []))
run-IsDescending_example = run-IsDescending by_close (today ∷ yesterday ∷ []) Count-IsTotal

abbrev thresholds : Tier0Config Count
thresholds = record { extreme_ret = some 1; suspect_ret = some 3; thin_dollar_vol = some 20 }

abbrev moved : SnapshotRow Count
moved = record today { ret_3m = some 2; dollar_vol = some 10 }

abbrev jumped : SnapshotRow Count
jumped = record today { ret_3m = some 4; dollar_vol = some 10 }

two_flagged : counts (tier0 (moved ∷ jumped ∷ []) thresholds) ≡ (1, 1)
unfolding counts tier0
two_flagged = refl

tier0-IsInOrder_example :
    let rows = moved ∷ jumped ∷ [] in
    IsInOrder (tier0 rows thresholds)
    × ((q : String → Severity → Count → Count → Bool)
        → count (passing q) (tier0 rows thresholds)
          ≡ count (λ r. is_held_back thresholds r && q r.symbol suspect r.ret_3m r.dollar_vol) rows
            + count (λ r. is_to_verify thresholds r && q r.symbol watch r.ret_3m r.dollar_vol) rows)
    × (counts (tier0 rows thresholds)
        ≡ (count (is_held_back thresholds) rows, count (is_to_verify thresholds) rows))
tier0-IsInOrder_example = tier0-IsInOrder (moved ∷ jumped ∷ []) thresholds Count-IsTotal

abbrev config : ScanConfig Count
config = record { lookback = 3; volume_mult = some 2; gap_pct = some 1 }

-- The bars with other values before bar 2.
abbrev shifted : Series Count
shifted j = if ltb j 2 then some 99 else (bars 3).close j

abbrev other_bars : Bars Count
other_bars = record (bars 3) { open_ = shifted; high = shifted; close = shifted }

abbrev clock : Series ℕ
clock j = j

after_two :
    (j : ℕ)
    → 8 ≤ j + 4
    → j < 8
    → ((bars 3).open_ j ≡ other_bars.open_ j)
      × ((bars 3).high j ≡ other_bars.high j)
      × ((bars 3).close j ≡ other_bars.close j)
      × ((bars 3).volume j ≡ other_bars.volume j)
      × (clock j ≡ clock j)
after_two j p q =
    let e : ltb j 2 ≡ false = ground arith in (rw e refl, rw e refl, rw e refl, refl, refl)

abbrev priced_row : ℕ → ℕ → SnapRow ℕ
priced_row d px = record { date = d; symbol = "AAA"; columns = px }

abbrev prices : Db ℕ
prices = record {
  rows = priced_row 86400 10 ∷ priced_row 259200 15 ∷ [];
  snapshot_date = 259200;
  active_date = 259200;
  symbol_count = 1;
}

abbrev everything : Query.Engine ℕ String
everything = record {
  explain = λ t d rows. true;
  matches = λ t d rows. ok (map (λ r. r.symbol) (date_rows d rows));
}

abbrev column : ℕ → Option Count
column n = some (some n)

abbrev all_up : Outcomes
all_up = record { list = true; active = λ d. true; reads = λ s d n. true }

abbrev any_study : Study
any_study = record {
  owner = "global";
  visibility = "public";
  group = "";
  tier = "free";
  key = "any";
  title = "";
  emoji = "";
  where_sql = "1=1";
  order_by = "";
  limit = 0;
}

abbrev one_trade : List (Trade Count)
one_trade =
    record {
      symbol = "AAA";
      date = 86400;
      entry_px = some 10;
      exit_px = some 15;
      return_ = some 0;
      hold_days = 2;
    }
    ∷ []

abbrev summary : Summary Count
summary = record {
  study_key = "any";
  start_date = 0;
  end_date = 100000;
  total_trades = 1;
  winning_trades = 0;
  losing_trades = 1;
  win_rate = some 0;
  avg_return = some 0;
  total_return = some 0;
  results = one_trade;
}

backtest_is :
    (run_backtest column everything (λ s. s) all_up any_study 0 100000 1 prices).1 ≡ ok summary
unfolding run_backtest run_dates run_date trades_of calculate_return calculate_summary tally
    Query.run set_active list_snapshots dates_of insert_date nearest_date min_date_from symbol_close
backtest_is = refl

run_backtest-IsHeld_example :
    ((run_backtest column everything (λ s. s) all_up any_study 0 100000 1 prices).0.rows
      ≡ prices.rows)
    × All (IsHeld column 0 100000 1 prices) one_trade
    × (1 ≡ length one_trade)
    × (0 + 1 ≡ 1)
run_backtest-IsHeld_example =
    run_backtest-IsHeld column everything (λ s. s) all_up any_study 0 100000 1 prices summary
      backtest_is
