-- ===== src/Examples/Alerts.antt =====
-- A store of two dates, its changes and its loads (internal/alert, internal/snapshot).
use json_scanner.Base.{
  ℕ, String, ◌≡◌, ◌≢◌, refl, Bool, true, false, not, ◌&&◌, none, List, [], ◌∷◌, map, All, length,
  ◌==◌, if◌then◌else◌,
}
use json_scanner.Base.Result.{ok}
use json_scanner.Snapshot.Store.{SnapRow, Db, Driver, date_rows, load_history}
use json_scanner.Snapshot.Query.{Engine, run}
use json_scanner.Snapshot.Loading.{healthy, rows_for, load_history_replaces, load_history_lost}
use json_scanner.Study.Access.{Study}
use json_scanner.Alert.Detect.{Change, detect_changes}
use json_scanner.Alert.Changes.{listed, symbols}
use json_scanner.Alert.Between.{Finds, IsAbout, at_date, detect_changes_between}

abbrev row : ℕ → String → SnapRow ℕ
row d s = record { date = d; symbol = s; columns = 7 }

abbrev two_days : Db ℕ
two_days = record {
  rows = row 100 "AAA" ∷ row 100 "BBB" ∷ row 200 "BBB" ∷ row 200 "CCC" ∷ [];
  snapshot_date = 200;
  active_date = 200;
  symbol_count = 2;
}

-- An engine for the example: every text is accepted, and each row of the date matches.
abbrev everything : Engine ℕ String
everything = record {
  explain = λ t d rows. true;
  matches = λ t d rows. ok (map (λ r. r.symbol) (date_rows d rows));
}

abbrev momentum : Study
momentum = record {
  owner = "global";
  visibility = "public";
  group = "";
  tier = "free";
  key = "momentum";
  title = "";
  emoji = "";
  where_sql = "1=1";
  order_by = "";
  limit = 0;
}

abbrev always : ℕ → Bool
always d = true

abbrev symbol : String → String
symbol s = s

on_200 : Finds symbol always everything momentum two_days 200 ("BBB" ∷ "CCC" ∷ [])
unfolding run
on_200 = record { is_up = refl; has_date = refl; matches = refl }

on_100 : Finds symbol always everything momentum two_days 100 ("AAA" ∷ "BBB" ∷ [])
unfolding run
on_100 = record { is_up = refl; has_date = refl; matches = refl }

detect_changes_between_example :
    (es : List Change) × (xs : List Change) × (detect_changes symbol always everything momentum 200
        100 two_days
      ≡ (at_date 100 two_days, ok (es, xs)))
    × All (IsAbout momentum 200 100) es
    × All (IsAbout momentum 200 100) xs
    × ((x : String)
        → listed (symbols es) x ≡ (
            listed (map symbol ("BBB" ∷ "CCC" ∷ [])) x
            && not (listed (map symbol ("AAA" ∷ "BBB" ∷ [])) x)))
    × ((x : String)
        → listed (symbols xs) x ≡ (
            listed (map symbol ("AAA" ∷ "BBB" ∷ [])) x
            && not (listed (map symbol ("BBB" ∷ "CCC" ∷ [])) x)))
detect_changes_between_example =
    detect_changes_between symbol always everything momentum 200 100 two_days ("BBB" ∷ "CCC" ∷ [])
      ("AAA" ∷ "BBB" ∷ []) on_200 on_100

abbrev fresh : List (String × ℕ)
fresh = ("CCC", 8) ∷ ("DDD", 9) ∷ []

load_history_replaces_example :
    ((load_history healthy fresh 200 two_days).1 ≡ none)
    × ((load_history healthy fresh 200 two_days).0.active_date ≡ 200)
    × ((load_history healthy fresh 200 two_days).0.snapshot_date ≡ 200)
    × ((load_history healthy fresh 200 two_days).0.symbol_count ≡ length fresh)
    × ((e : ℕ)
        → date_rows e (load_history healthy fresh 200 two_days).0.rows
          ≡ (if e == 200 then rows_for 200 fresh else date_rows e two_days.rows))
load_history_replaces_example = load_history_replaces fresh 200 two_days (refl, (refl, tt))

-- A driver whose commit fails.
abbrev no_commit : Driver
no_commit = record {
  ensure = true;
  remove = true;
  begin = true;
  prepare = true;
  insert = λ s. true;
  commit = false;
}

load_history_lost_example :
    ((load_history no_commit fresh 200 two_days).1 ≢ none)
    × ((load_history no_commit fresh 200 two_days).0.active_date ≡ 200)
    × ((load_history no_commit fresh 200 two_days).0.snapshot_date ≡ 200)
    × ((load_history no_commit fresh 200 two_days).0.symbol_count ≡ two_days.symbol_count)
    × ((f : ℕ)
        → date_rows f (load_history no_commit fresh 200 two_days).0.rows
          ≡ (if f == 200 then [] else date_rows f two_days.rows))
load_history_lost_example = load_history_lost no_commit fresh 200 two_days refl refl refl
