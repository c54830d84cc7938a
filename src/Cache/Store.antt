-- ===== src/Cache/Store.antt =====
-- `BarCache` of internal/scan/cache.go: its table of bars, the bulk load and the two queries.
use json_scanner.Base.{
  ℕ, suc, String, Bool, true, false, not, ◌&&◌, Option, none, some, List, [], ◌∷◌, ◌++◌, map,
  select, contains, ltb, leb, ◌==◌, ◌=s=◌, if◌then◌else◌,
}
use json_scanner.Base.Result.{Result, ok, err}
use json_scanner.Indicators.{Number, ◌*f◌}
use json_scanner.Backtest.Replay.{Bar}

-- A row of the table `bars`.
pub record CacheRow (W : Type 0) : Type 0 where
  pub symbol : String
  pub bar : Bar W

pub data CacheError : Type 0 where
  begin_transaction : CacheError
  prepare_statement : CacheError
  cancelled : CacheError
  commit_transaction : CacheError
  query : CacheError
  scan_row : CacheError
  iteration : CacheError

-- Whether each statement of the load succeeds: the transaction's begin, its prepare and its
-- commit, the insert of a row, and whether the context has ended before the symbol of a number.
pub record LoadOutcome (W : Type 0) : Type 0 where
  pub begins : Bool
  pub prepares : Bool
  pub commits : Bool
  pub inserts : CacheRow W → Bool
  pub has_ended : ℕ → Bool

-- Whether the steps of a query succeed.
pub record ReadOutcome : Type 0 where
  pub queries : Bool
  pub scans : Bool
  pub iterates : Bool

abbrev pub answer : {A : Type 0} → ReadOutcome → A → Result CacheError A
answer o a =
    if not o.queries
    then err query
    else if not o.scans
    then err scan_row
    else if not o.iterates
    then err iteration
    else ok a

module _ {W : Type 0} where
  -- The primary key (symbol, timestamp).
  abbrev pub has_key_of : CacheRow W → CacheRow W → Bool
  has_key_of r s = r.symbol =s= s.symbol && r.bar.timestamp == s.bar.timestamp

  -- `INSERT OR IGNORE`
  unfoldable pub insert_row : CacheRow W → List (CacheRow W) → List (CacheRow W)
  insert_row r rows = if contains (has_key_of r) rows then rows else rows ++ (r ∷ [])

  -- The loop over a symbol's bars.
  unfoldable pub insert_bars :
      (CacheRow W → Bool) → List (CacheRow W) → List (CacheRow W) → List (CacheRow W)
  unfolding insert_row
  insert_bars inserts [] rows = rows
  insert_bars inserts (r ∷ bars) rows =
      insert_bars inserts bars (if inserts r then insert_row r rows else rows)

  abbrev pub inserted :
      (CacheRow W → Bool) → Option (List (CacheRow W)) → List (CacheRow W) → List (CacheRow W)
  inserted inserts none rows = rows
  inserted inserts (some bars) rows = insert_bars inserts bars rows

  -- The loop over the symbols, from the symbol of a number; nothing when the context ends.
  unfoldable pub load_symbols :
      LoadOutcome W
      → (String → Option (List (CacheRow W)))
      → ℕ
      → List String
      → List (CacheRow W)
      → Option (List (CacheRow W))
  unfolding insert_bars
  load_symbols o load n [] rows = some rows
  load_symbols o load n (s ∷ symbols) rows =
      let rest = load_symbols o load (suc n) symbols (inserted o.inserts (load s) rows) in
      if o.has_ended n then none else rest

  abbrev pub committed :
      Bool
      → Option (List (CacheRow W))
      → List (CacheRow W)
      → List (CacheRow W) × Result CacheError (Unit {0})
  committed commits none rows = (rows, err cancelled)
  committed true (some loaded) rows = (loaded, ok tt)
  committed false (some loaded) rows = (rows, err commit_transaction)

  -- `days_before` is `AddDate` of the standard library, `load_adjusted_bars` the loader.
  unfoldable pub bulk_load :
      (days_before : ℕ → ℕ → ℕ)
      → (load_adjusted_bars : String → ℕ → Option (List (CacheRow W))) → LoadOutcome W
      → (symbols : List String) → (start_date : ℕ) → (lookback_days : ℕ) → List (CacheRow W)
      → List (CacheRow W) × Result CacheError (Unit {0})
  unfolding load_symbols
  bulk_load days_before load_adjusted_bars o symbols start_date lookback_days rows =
      let since = days_before start_date lookback_days in
      let loaded = load_symbols o (λ s. load_adjusted_bars s since) 0 symbols rows in
      if not o.begins
      then (rows, err begin_transaction)
      else if not o.prepares
      then (rows, err prepare_statement)
      else committed o.commits loaded rows

  -- `ORDER BY timestamp ASC`
  unfoldable pub place_bar : Bar W → List (Bar W) → List (Bar W)
  place_bar x [] = x ∷ []
  place_bar x (y ∷ ys) =
      let later = place_bar x ys in if ltb y.timestamp x.timestamp then y ∷ later else x ∷ y ∷ ys

  unfoldable pub sort_bars : List (Bar W) → List (Bar W)
  unfolding place_bar
  sort_bars [] = []
  sort_bars (x ∷ xs) = place_bar x (sort_bars xs)

  abbrev pub is_bar_of : String → ℕ → CacheRow W → Bool
  is_bar_of s up_to r = r.symbol =s= s && leb r.bar.timestamp up_to

  unfoldable pub get_bars_for_symbol :
      ReadOutcome → String → ℕ → List (CacheRow W) → Result CacheError (List (Bar W))
  unfolding sort_bars
  get_bars_for_symbol o s up_to rows =
      answer o (sort_bars (map (λ r. r.bar) (select (is_bar_of s up_to) rows)))

  -- `GROUP BY symbol`: the symbols of the rows, each once.
  unfoldable pub symbols_of : List (CacheRow W) → List String
  symbols_of [] = []
  symbols_of (r ∷ rows) =
      let rest = symbols_of rows in
      if contains (λ s. s =s= r.symbol) rest then rest else r.symbol ∷ rest

-- `ORDER BY symbol ASC`, where `less` is the collation's order of two texts.
unfoldable pub place_symbol : (String → String → Bool) → String → List String → List String
place_symbol less s [] = s ∷ []
place_symbol less s (t ∷ ts) =
    let later = place_symbol less s ts in if less t s then t ∷ later else s ∷ t ∷ ts

unfoldable pub sort_symbols : (String → String → Bool) → List String → List String
unfolding place_symbol
sort_symbols less [] = []
sort_symbols less (s ∷ symbols) = place_symbol less s (sort_symbols less symbols)

module _ {W : Type 0} ⦃num : Number W⦄ where
  abbrev pub traded : CacheRow W → W
  traded r = r.bar.close *f num.of_int r.bar.volume

  abbrev pub larger : W → Option W → Option W
  larger w none = some w
  larger w (some m) = some (if num.lt m w then w else m)

  -- `MAX(close * volume)` over the rows of a group; NaN is stored as NULL, which it skips.
  unfoldable pub max_traded : List (CacheRow W) → Option W
  max_traded [] = none
  max_traded (r ∷ rows) =
      let rest = max_traded rows in if num.is_nan (traded r) then rest else larger (traded r) rest

  abbrev pub is_enough : W → Option W → Bool
  is_enough least none = false
  is_enough least (some m) = num.le least m

  abbrev pub qualifies : W → List (CacheRow W) → String → Bool
  qualifies least rows s = is_enough least (max_traded (select (λ r. r.symbol =s= s) rows))

  unfoldable pub get_qualifying_symbols :
      ReadOutcome
      → (String → String → Bool)
      → ℕ
      → W
      → List (CacheRow W)
      → Result CacheError (List String)
  unfolding sort_symbols symbols_of max_traded
  get_qualifying_symbols o less up_to least rows =
      let seen = select (λ r. leb r.bar.timestamp up_to) rows in
      answer o (sort_symbols less (select (qualifies least seen) (symbols_of seen)))
