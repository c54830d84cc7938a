-- ===== src/Backtest/Run.antt =====
-- The engine of internal/backtest/backtest.go over the snapshot store, which it leaves at the last
-- date that it ran. `W` is a price, `close` reads it from a row's columns, and `symbol_of` reads the
-- symbol of a match. Whether the driver carries the statements out is given by date and by symbol.
use json_scanner.Base.{
  ℕ, suc, ◌+◌, ◌-◌, ◌*◌, ◌/◌, String, Bool, ◌||◌, Option, none, some, List, [], ◌∷◌, ◌++◌, ltb,
  ◌==◌, length, if◌then◌else◌,
}
use json_scanner.Base.Result.{Result, ok, err, ◌>>=◌}
use json_scanner.Indicators.{Number, ◌+f◌, ◌-f◌, ◌/f◌}
use json_scanner.Snapshot.Store.{
  Db, SnapError, set_active, list_snapshots, nearest_date, symbol_close,
}
use json_scanner.Snapshot.Query as Query
use json_scanner.Study.Access.{Study}

-- `Result` of the package.
pub record Trade (W : Type 0) : Type 0 where
  pub symbol : String
  pub date : ℕ
  pub entry_px : W
  pub exit_px : W
  pub return_ : W
  pub hold_days : ℕ

pub record Summary (W : Type 0) : Type 0 where
  pub study_key : String
  pub start_date : ℕ
  pub end_date : ℕ
  pub total_trades : ℕ
  pub winning_trades : ℕ
  pub losing_trades : ℕ
  pub win_rate : W
  pub avg_return : W
  pub total_return : W
  pub results : List (Trade W)

-- Which statements the driver carries out.
pub record Outcomes : Type 0 where
  pub list : Bool
  pub active : ℕ → Bool
  pub reads : String → ℕ → ℕ → Bool

module _ {D W : Type 0} ⦃num : Number W⦄ (close : D → Option W) where
  abbrev pub trade : String → ℕ → ℕ → W → W → Trade W
  trade symbol entry exit entry_px exit_px = record {
    symbol = symbol;
    date = entry;
    entry_px = entry_px;
    exit_px = exit_px;
    return_ = (exit_px -f entry_px) /f entry_px;
    hold_days = (exit - entry) / 86400;
  }

  -- `up` says whether each of the three statements is carried out.
  unfoldable pub calculate_return : (ℕ → Bool) → String → ℕ → ℕ → Db D → Result SnapError (Trade W)
  calculate_return up symbol entry hold_days db =
      symbol_close close (up 0) symbol entry db >>= λ entry_px.
      nearest_date (up 1) (entry + hold_days * 86400) db >>= λ exit.
      symbol_close close (up 2) symbol exit db >>= λ exit_px.
      ok (trade symbol entry exit entry_px exit_px)

  -- The loop over the matches, which goes on after an error.
  abbrev pub or_skip : Result SnapError (Trade W) → List (Trade W) → List (Trade W)
  or_skip (ok t) rest = t ∷ rest
  or_skip (err e) rest = rest

  unfoldable pub trades_of : (String → ℕ → Bool) → List String → ℕ → ℕ → Db D → List (Trade W)
  unfolding calculate_return
  trades_of reads [] entry hold db = []
  trades_of reads (s ∷ symbols) entry hold db =
      or_skip (calculate_return (reads s) s entry hold db) (trades_of reads symbols entry hold db)

  module _ {M : Type 0} (engine : Query.Engine D M) (symbol_of : M → String) where
    abbrev pub symbols_of : List M → List String
    symbols_of [] = []
    symbols_of (x ∷ xs) = symbol_of x ∷ symbols_of xs

    abbrev pub on_matches : Outcomes → ℕ → ℕ → Db D → Result SnapError (List M) → List (Trade W)
    on_matches o date hold db (err e) = []
    on_matches o date hold db (ok ms) = trades_of (λ s. o.reads s date) (symbols_of ms) date hold db

    abbrev pub on_active :
        Outcomes → Study → ℕ → ℕ → Db D × Option SnapError → Db D × List (Trade W)
    on_active o s date hold (db, some e) = (db, [])
    on_active o s date hold (db, none) = (db, on_matches o date hold db (Query.run engine s db))

    -- One turn of the loop over the dates.
    unfoldable pub run_date : Outcomes → Study → ℕ → ℕ → ℕ → ℕ → Db D → Db D × List (Trade W)
    unfolding trades_of
    run_date o s start end hold date db =
        if ltb date start || ltb end date
        then (db, [])
        else on_active o s date hold (set_active (o.active date) date db)

    unfoldable pub run_dates : Outcomes → Study → ℕ → ℕ → ℕ → List ℕ → Db D → Db D × List (Trade W)
    unfolding run_date
    run_dates o s start end hold [] db = (db, [])
    run_dates o s start end hold (d ∷ dates) db =
        let now = run_date o s start end hold d db in
        let rest = run_dates o s start end hold dates now.0 in (rest.0, now.1 ++ rest.1)

    -- The loop of `calculateSummary`: the sum of the returns, the wins and the losses.
    unfoldable pub tally : List (Trade W) → W → ℕ → ℕ → W × ℕ × ℕ
    tally [] total wins losses = (total, wins, losses)
    tally (t ∷ ts) total wins losses =
        let won = tally ts (total +f t.return_) (suc wins) losses in
        let lost = tally ts (total +f t.return_) wins (suc losses) in
        if num.lt (num.of_nat 0) t.return_ then won else lost

    unfoldable pub calculate_summary : Study → ℕ → ℕ → List (Trade W) → Summary W
    unfolding tally
    calculate_summary s start end ts =
        let n = length ts in
        let sums = tally ts (num.of_nat 0) 0 0 in
        record {
          study_key = s.key;
          start_date = start;
          end_date = end;
          total_trades = n;
          winning_trades = sums.1;
          losing_trades = sums.2;
          win_rate = if n == 0 then num.of_nat 0 else num.of_nat sums.1 /f num.of_nat n;
          avg_return = if n == 0 then num.of_nat 0 else sums.0 /f num.of_nat n;
          total_return = sums.0;
          results = ts;
        }

    abbrev pub on_dates :
        Outcomes
        → Study
        → ℕ
        → ℕ
        → ℕ
        → Db D
        → Result SnapError (List ℕ)
        → Db D × Result SnapError (Summary W)
    on_dates o s start end hold db (err e) = (db, err e)
    on_dates o s start end hold db (ok dates) =
        let r = run_dates o s start end hold dates db in
        (r.0, ok (calculate_summary s start end r.1))

    unfoldable pub run_backtest :
        Outcomes → Study → ℕ → ℕ → ℕ → Db D → Db D × Result SnapError (Summary W)
    unfolding run_dates calculate_summary
    run_backtest o s start end hold db = on_dates o s start end hold db (list_snapshots o.list db)

  abbrev pub then_run :
      {M : Type 0}
      → Query.Engine D M
      → Study
      → Db D × Option SnapError
      → Db D × Result SnapError (List M)
  then_run engine s (db, some e) = (db, err e)
  then_run engine s (db, none) = (db, Query.run engine s db)

  unfoldable pub run_point_in_time :
      {M : Type 0} → Query.Engine D M → Bool → Study → ℕ → Db D → Db D × Result SnapError (List M)
  run_point_in_time engine up s date db = then_run engine s (set_active up date db)
