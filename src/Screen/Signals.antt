-- ===== src/Screen/Signals.antt =====
-- `Scan` of internal/scanner/scanner.go: the signals of the last bar.
use json_scanner.Base.{
  ℕ, ◌+◌, ◌-◌, ◌≤◌, ◌<◌, ◌≡◌, refl, ap, arith, String, Bool, true, false, ◌&&◌, List, [], ◌∷◌, ◌++◌,
  ltb, if◌then◌else◌,
}
use json_scanner.Indicators.{Number, Series, Bars, fold_window, sum, ◌-f◌, ◌*f◌, ◌/f◌}
use json_scanner.Indicators.Window.{fold_window-agree, sum-agree, unless}

pub record ScanConfig (W : Type 0) : Type 0 where
  pub lookback : ℕ
  pub volume_mult : W
  pub gap_pct : W

pub record Signal (W : Type 0) : Type 0 where
  pub symbol : String
  pub type : String
  pub date : ℕ
  pub value : W

module _ {W : Type 0} ⦃num : Number W⦄ where
  abbrev pub signal_if : Bool → Signal W → List (Signal W)
  signal_if true s = s ∷ []
  signal_if false s = []

  -- The average volume of the window that begins at `lo`.
  unfoldable pub window_volume : Bars W → ℕ → ℕ → W
  unfolding sum
  window_volume b lo k = sum (λ j. num.of_int (b.volume j)) lo k /f num.of_nat k

  unfoldable pub window_high : Bars W → ℕ → ℕ → W
  window_high b lo k =
      fold_window (λ hi j. if num.lt hi (b.high j) then b.high j else hi) (b.high lo) lo k

  abbrev pub signal : String → ℕ → String → W → Signal W
  signal symbol date t v = record { symbol = symbol; type = t; date = date; value = v }

  abbrev pub gap_signals : W → W → (String → W → Signal W) → List (Signal W)
  gap_signals gap bound make =
      if num.le bound gap
      then make "gap_up" gap ∷ []
      else if num.le gap (num.neg bound)
      then make "gap_down" gap ∷ []
      else []

  -- The signals at bar `i`, over the `k` bars before it.
  unfoldable pub signals_at : ScanConfig W → String → Series ℕ → Bars W → ℕ → List (Signal W)
  unfolding window_volume window_high
  signals_at cfg symbol time b i =
      let avg = window_volume b (i - cfg.lookback) cfg.lookback in
      let volume = num.of_int (b.volume i) in
      let hi = window_high b (i - cfg.lookback) cfg.lookback in
      signal_if (num.lt (num.of_nat 0) avg && num.le (cfg.volume_mult *f avg) volume)
        (signal symbol (time i) "volume_breakout" (volume /f avg))
      ++ (signal_if (num.lt (num.of_nat 0) hi && num.lt hi (b.close i))
            (signal symbol (time i) "price_breakout" (b.close i /f hi -f num.of_nat 1))
          ++ (if num.lt (num.of_nat 0) (b.close (i - 1))
              then gap_signals (b.open_ i /f b.close (i - 1) -f num.of_nat 1) cfg.gap_pct
                  (signal symbol (time i))
              else []))

  -- `n` is the number of bars, and `time` their timestamps.
  unfoldable pub scan : ScanConfig W → String → Series ℕ → ℕ → Bars W → List (Signal W)
  unfolding signals_at
  scan cfg symbol time n b =
      if ltb cfg.lookback 1
      then []
      else if ltb n (cfg.lookback + 1)
      then []
      else signals_at cfg symbol time b (n - 1)

  -- The signals rest on the last `lookback + 1` bars alone: two series of one length that have the
  -- same bars and times there give the same signals, whatever came before.
  pub scan_of_window :
      (cfg : ScanConfig W) (symbol : String) (time time' : Series ℕ) (n : ℕ) (b c : Bars W)
      → ((j : ℕ)
          → n ≤ j + (cfg.lookback + 1)
          → j < n
          → (b.open_ j ≡ c.open_ j)
            × (b.high j ≡ c.high j)
            × (b.close j ≡ c.close j)
            × (b.volume j ≡ c.volume j)
            × (time j ≡ time' j))
      → scan cfg symbol time n b ≡ scan cfg symbol time' n c
  unfolding scan signals_at window_volume window_high
  scan_of_window cfg symbol time time' n b c h = unless (ltb cfg.lookback 1) _ (λ e.
      unless (ltb n (cfg.lookback + 1)) _ (λ q.
        let last = h (n - 1) (ground arith) (ground arith) in
        let prev = h (n - 1 - 1) (ground arith) (ground arith) in
        let lo = n - 1 - cfg.lookback in
        let volumes =
          sum-agree (λ j. num.of_int (b.volume j)) (λ j. num.of_int (c.volume j)) lo cfg.lookback
            (λ j l u. ap num.of_int (h j (ground arith) (ground arith)).3) in
        let first = h lo (ground arith) (ground arith) in
        let highs =
          fold_window-agree (λ hi j. if num.lt hi (b.high j) then b.high j else hi)
            (λ hi j. if num.lt hi (c.high j) then c.high j else hi) (c.high lo) lo cfg.lookback
            (λ a j l u. rw (h j (ground arith) (ground arith)).1 refl) in
        rw (last.0, last.2, last.3, last.4, prev.2, volumes, first.1, highs) refl))
