-- ===== src/Examples/Caches.antt =====
-- The bar cache (internal/scan/cache.go).
use json_scanner.Base.{
  arith, ℕ, ◌-◌, ◌*◌, String, ◌≡◌, refl, true, false, ◌↔◌, Option, none, some, List, [], ◌∷◌, In,
  ltb, leb,
}
use json_scanner.Base.Int.{pos}
use json_scanner.Base.Result.{ok}
use json_scanner.Examples.Charts.{Count, count_number, test_counts}
use json_scanner.Backtest.Replay.{Bar}
use json_scanner.Cache.Store.{
  CacheRow, LoadOutcome, bulk_load, get_bars_for_symbol, get_qualifying_symbols,
}
use json_scanner.Cache.Qualifying.{IsMonotone, HasLiquid, get_qualifying_symbols_iff}

abbrev bar_at : ℕ → ℕ → Bar Count
bar_at t v = record {
  timestamp = t;
  open_ = some 2;
  high = some 2;
  low = some 2;
  close = some 2;
  volume = pos v;
}

abbrev row_of : String → ℕ → ℕ → CacheRow Count
row_of s t v = record { symbol = s; bar = bar_at t v }

-- The bars of each symbol, one of them twice.
abbrev loader : String → ℕ → Option (List (CacheRow Count))
loader s since = some (row_of s 20 1 ∷ row_of s 10 50 ∷ row_of s 20 7 ∷ [])

abbrev days_before : ℕ → ℕ → ℕ
days_before t days = t - days * 86400

abbrev healthy : LoadOutcome Count
healthy = record {
  begins = true;
  prepares = true;
  commits = true;
  inserts = λ r. true;
  has_ended = λ n. false;
}

abbrev loaded : List (CacheRow Count)
loaded = (bulk_load days_before loader healthy ("AAA" ∷ "BBB" ∷ []) 20 0 []).0

-- The timestamps ascend, and the first bar of a timestamp is kept.
ascending :
    get_bars_for_symbol (record { queries = true; scans = true; iterates = true }) "BBB" 20 loaded
    ≡ ok (bar_at 10 50 ∷ bar_at 20 1 ∷ [])
unfolding bulk_load get_bars_for_symbol
ascending = refl

le_lt :
    (a m w : Count)
    → test_counts leb a m ≡ true
    → test_counts ltb m w ≡ true
    → test_counts leb a w ≡ true
le_lt none m w p q = cc
le_lt (some a) none w p q = cc
le_lt (some a) (some b) none p q = cc
le_lt (some a) (some b) (some c) p q = ground arith

le_not_lt :
    (a w m : Count)
    → count_number.is_nan m ≡ false
    → test_counts leb a w ≡ true
    → test_counts ltb m w ≡ false
    → test_counts leb a m ≡ true
le_not_lt none w m n p q = cc
le_not_lt (some a) none m n p q = cc
le_not_lt (some a) (some b) none n p q = cc
le_not_lt (some a) (some b) (some c) n p q = ground arith

le_not_nan : (a w : Count) → test_counts leb a w ≡ true → count_number.is_nan w ≡ false
le_not_nan none w p = cc
le_not_nan (some a) none p = cc
le_not_nan (some a) (some b) p = refl

Count-IsMonotone : IsMonotone Count
Count-IsMonotone = record { le_lt = le_lt; le_not_lt = le_not_lt; le_not_nan = le_not_nan }

-- The latest bar trades 2, an earlier one 100.
earlier_bar_counts :
    get_qualifying_symbols
      (record { queries = true; scans = true; iterates = true })
      (λ s t. false)
      20
      (some 60)
      (row_of "AAA" 20 1 ∷ row_of "AAA" 10 50 ∷ [])
    ≡ ok ("AAA" ∷ [])
unfolding get_qualifying_symbols
earlier_bar_counts = refl

get_qualifying_symbols_iff_example :
    (symbols : List String) × ((get_qualifying_symbols
          (record { queries = true; scans = true; iterates = true })
          (λ s t. false)
          20
          (some 60)
          (row_of "AAA" 20 1 ∷ row_of "AAA" 10 50 ∷ [])
        ≡ ok symbols)
      × ((s : String)
          → In s symbols ↔ HasLiquid 20 (some 60) (row_of "AAA" 20 1 ∷ row_of "AAA" 10 50 ∷ []) s))
get_qualifying_symbols_iff_example =
    get_qualifying_symbols_iff (λ s t. false) 20 (some 60)
      (row_of "AAA" 20 1 ∷ row_of "AAA" 10 50 ∷ []) Count-IsMonotone
