-- ===== src/Backtest/Replay.antt =====
-- `ReplayHistoricalScan` of internal/backtest/replay.go. A loaded bar has its time; a load that fails
-- is none, and the context is not cancelled.
use json_scanner.Base.{
  ℕ, zero, suc, ◌-◌, String, Bool, Option, none, some, List, [], ◌∷◌, ◌++◌, leb, ltb, ◌==◌, length,
  select, if◌then◌else◌,
}
use json_scanner.Base.Int.{ℤ, pos}
use json_scanner.Base.Result.{Result, ok, err}
use json_scanner.Indicators.{Number, Bars, ◌+f◌, ◌-f◌, ◌/f◌}
use json_scanner.Screen.Signals.{ScanConfig, Signal, scan}
use json_scanner.Snapshot.Store.{Db, SnapError, list_snapshots, symbol_close}

pub record Bar (W : Type 0) : Type 0 where
  pub timestamp : ℕ
  pub open_ : W
  pub high : W
  pub low : W
  pub close : W
  pub volume : ℤ

pub record HistoricalSignal (W : Type 0) : Type 0 where
  pub symbol : String
  pub type : String
  pub date : ℕ
  pub value : W
  pub entry_px : W
  pub current_px : W
  pub return_ : W
  pub max_profit : W
  pub max_loss : W

module _ {W : Type 0} ⦃num : Number W⦄ where
  -- A list of bars read by index; past the end, which no index reaches, it gives the default.
  abbrev pub nth : {A : Type 0} → A → (Bar W → A) → List (Bar W) → ℕ → A
  nth d f [] i = d
  nth d f (b ∷ bs) zero = f b
  nth d f (b ∷ bs) (suc i) = nth d f bs i

  abbrev pub bars_of : List (Bar W) → Bars W
  bars_of bs = record {
    open_ = nth num.nan (λ b. b.open_) bs;
    high = nth num.nan (λ b. b.high) bs;
    low = nth num.nan (λ b. b.low) bs;
    close = nth num.nan (λ b. b.close) bs;
    volume = nth (pos 0) (λ b. b.volume) bs;
  }

  -- The extremes of the bars after the first.
  unfoldable pub max_high : W → List (Bar W) → W
  max_high m [] = m
  max_high m (b ∷ bs) = max_high (if num.lt m b.high then b.high else m) bs

  unfoldable pub min_low : W → List (Bar W) → W
  min_low m [] = m
  min_low m (b ∷ bs) = min_low (if num.lt b.low m then b.low else m) bs

  abbrev pub max_profit : W → List (Bar W) → W
  max_profit entry [] = num.of_nat 0
  max_profit entry (b ∷ bs) = (max_high b.high (b ∷ bs) -f entry) /f entry

  abbrev pub max_loss : W → List (Bar W) → W
  max_loss entry [] = num.of_nat 0
  max_loss entry (b ∷ bs) = (min_low b.low (b ∷ bs) -f entry) /f entry

  unfoldable pub historical : W → W → List (Bar W) → Signal W → HistoricalSignal W
  unfolding max_high min_low
  historical entry current future sig = record {
    symbol = sig.symbol;
    type = sig.type;
    date = sig.date;
    value = sig.value;
    entry_px = entry;
    current_px = current;
    return_ = (current -f entry) /f entry;
    max_profit = max_profit entry future;
    max_loss = max_loss entry future;
  }

  -- The loop over a symbol's signals: where there is no current price, all are skipped.
  abbrev pub priced :
      W → List (Bar W) → List (Signal W) → Result SnapError W → List (HistoricalSignal W)
  priced entry future [] current = []
  priced entry future (s ∷ ss) (err e) = []
  priced entry future (s ∷ ss) (ok px) =
      historical entry px future s ∷ priced entry future ss (ok px)

  -- One symbol, with the bars that were loaded, at the date of the scan.
  unfoldable pub replay_symbol :
      ScanConfig W → ℕ → String → List (Bar W) → Result SnapError W → List (HistoricalSignal W)
  unfolding historical
  replay_symbol cfg scan_date symbol bars current =
      let past = select (λ b. leb b.timestamp scan_date) bars in
      let future = select (λ b. ltb scan_date b.timestamp) bars in
      let n = length past in
      if n == 0
      then []
      else priced (nth num.nan (λ b. b.close) past (n - 1)) future
          (scan cfg symbol (nth 0 (λ b. b.timestamp) past) n (bars_of past)) current

  module _ {D : Type 0} (close : D → Option W) where
    abbrev pub loaded :
        (List (Bar W) → List (HistoricalSignal W))
        → Option (List (Bar W))
        → List (HistoricalSignal W)
    loaded f none = []
    loaded f (some bars) = f bars

    -- The loop over the symbols; `reads` says whether the price is read.
    unfoldable pub replay_symbols :
        ScanConfig W
        → (String → Option (List (Bar W)))
        → (String → Bool)
        → ℕ
        → ℕ
        → Db D
        → List String
        → List (HistoricalSignal W)
    unfolding replay_symbol
    replay_symbols cfg load reads scan_date current db [] = []
    replay_symbols cfg load reads scan_date current db (s ∷ ss) =
        loaded
          (λ bars. replay_symbol cfg scan_date s bars (symbol_close close (reads s) s current db))
          (load s)
        ++ replay_symbols cfg load reads scan_date current db ss

pub record ScanSummary (W : Type 0) : Type 0 where
  pub total_signals : ℕ
  pub winners : ℕ
  pub losers : ℕ
  pub win_rate : W
  pub avg_return : W
  pub total_return : W

pub data ReplayError : Type 0 where
  list_failed : SnapError → ReplayError
  no_snapshots : ReplayError

pub record ScanResult (W : Type 0) : Type 0 where
  pub scan_date : ℕ
  pub current_date : ℕ
  pub signals : List (HistoricalSignal W)
  pub summary : ScanSummary W

module _ {W : Type 0} ⦃num : Number W⦄ where
  unfoldable pub tally : List (HistoricalSignal W) → W → ℕ → ℕ → W × ℕ × ℕ
  tally [] total winners losers = (total, winners, losers)
  tally (s ∷ ss) total winners losers =
      let won = tally ss (total +f s.return_) (suc winners) losers in
      let lost = tally ss (total +f s.return_) winners (suc losers) in
      if num.lt (num.of_nat 0) s.return_ then won else lost

  unfoldable pub summarize : List (HistoricalSignal W) → ScanSummary W
  unfolding tally
  summarize ss =
      let n = length ss in
      let sums = tally ss (num.of_nat 0) 0 0 in
      record {
        total_signals = n;
        winners = sums.1;
        losers = sums.2;
        win_rate = if n == 0 then num.of_nat 0 else num.of_nat sums.1 /f num.of_nat n;
        avg_return = if n == 0 then num.of_nat 0 else sums.0 /f num.of_nat n;
        total_return = sums.0;
      }

  module _ {D : Type 0} (close : D → Option W) where
    abbrev pub at_newest :
        (ℕ → List (HistoricalSignal W)) → ℕ → List ℕ → Result ReplayError (ScanResult W)
    at_newest signals scan_date [] = err no_snapshots
    at_newest signals scan_date (current ∷ older) = ok (record {
      scan_date = scan_date;
      current_date = current;
      signals = signals current;
      summary = summarize (signals current);
    })

    abbrev pub on_list :
        (ℕ → List (HistoricalSignal W))
        → ℕ
        → Result SnapError (List ℕ)
        → Result ReplayError (ScanResult W)
    on_list signals scan_date (err e) = err (list_failed e)
    on_list signals scan_date (ok dates) = at_newest signals scan_date dates

    unfoldable pub replay_historical_scan :
        ScanConfig W
        → (String → Option (List (Bar W)))
        → Bool
        → (String → Bool)
        → List String
        → ℕ
        → Db D
        → Result ReplayError (ScanResult W)
    unfolding replay_symbols summarize
    replay_historical_scan cfg load up reads symbols scan_date db =
        on_list (λ current. replay_symbols close cfg load reads scan_date current db symbols)
          scan_date (list_snapshots up db)
