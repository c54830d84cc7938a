-- ===== src/Alert/Detect.antt =====
-- The detector (internal/alert/alert.go). It moves the active date of the snapshot store, so each
-- function returns the store too. `up d` is whether the driver answers when the date `d` is looked
-- up, and `engine` is what SQLite answers to a study's SQL.
use json_scanner.Base.{
  ℕ, String, Bool, true, false, Option, none, some, List, [], ◌∷◌, map, if◌then◌else◌,
}
use json_scanner.Base.Result.{Result, ok, err}
use json_scanner.Base.Dict.{Dict, lookup, insert}
use json_scanner.Snapshot.Store.{Db, SnapError, set_active}
use json_scanner.Snapshot.Query.{Engine, run}
use json_scanner.Study.Access.{Study}

-- `Entry` and `Exit` have the same fields; `prev_date` is 0 where it is not set.
pub record Change : Type 0 where
  pub symbol : String
  pub study_key : String
  pub date : ℕ
  pub prev_date : ℕ

-- `prevSet[m.Symbol] = true` for each match, and the test of a symbol.
unfoldable pub symbols_from : Dict Bool → List String → Dict Bool
symbols_from m [] = m
symbols_from m (s ∷ ss) = symbols_from (insert s true m) ss

abbrev pub symbol_set : List String → Dict Bool
symbol_set ss = symbols_from [] ss

abbrev pub is_set : Option Bool → Bool
is_set none = false
is_set (some b) = b

abbrev pub in_set : Dict Bool → String → Bool
in_set m s = is_set (lookup s m)

abbrev pub change : Study → ℕ → ℕ → String → Change
change s d p sym = record { symbol = sym; study_key = s.key; date = d; prev_date = p }

-- The loop that keeps the matches outside the set.
unfoldable pub changes_outside : Dict Bool → Study → ℕ → ℕ → List String → List Change
changes_outside m s d p [] = []
changes_outside m s d p (sym ∷ syms) =
    let rest = changes_outside m s d p syms in
    if in_set m sym then rest else change s d p sym ∷ rest

module _ {D M : Type 0} (symbol : M → String) (up : ℕ → Bool) (engine : Engine D M) where
  abbrev pub Outcome : Type 0
  Outcome = Db D × Result SnapError (List Change)

  abbrev pub run_selected : Study → Db D × Option SnapError → Db D × Result SnapError (List M)
  run_selected s (db, none) = (db, run engine s db)
  run_selected s (db, some x) = (db, err x)

  -- Select a date and run the study there.
  unfoldable pub matches_on : Study → ℕ → Db D → Db D × Result SnapError (List M)
  matches_on s d db = run_selected s (set_active (up d) d db)

  -- What follows once the study has run on both dates.
  abbrev pub entries_from : Study → ℕ → ℕ → List M → Db D × Result SnapError (List M) → Outcome
  entries_from s d p current (db, err x) = (db, err x)
  entries_from s d p current (db, ok prev) =
      (db, ok (changes_outside (symbol_set (map symbol prev)) s d p (map symbol current)))

  abbrev pub exits_from : Study → ℕ → ℕ → List M → Db D × Result SnapError (List M) → Outcome
  exits_from s d p current (db, err x) = (db, err x)
  exits_from s d p current (db, ok prev) =
      (db, ok (changes_outside (symbol_set (map symbol current)) s d p (map symbol prev)))

  -- Where the previous date cannot be selected every match is an entry, with no previous date ...
  abbrev pub entries_selected : Study → ℕ → ℕ → List M → Db D × Option SnapError → Outcome
  entries_selected s d p current (db, none) = entries_from s d p current (db, run engine s db)
  entries_selected s d p current (db, some x) = (db, ok (map (change s d 0) (map symbol current)))

  -- ... and there are no exits.
  abbrev pub exits_selected : Study → ℕ → ℕ → List M → Db D × Option SnapError → Outcome
  exits_selected s d p current (db, none) = exits_from s d p current (db, run engine s db)
  exits_selected s d p current (db, some x) = (db, ok [])

  abbrev pub entries_after : Study → ℕ → ℕ → Db D × Result SnapError (List M) → Outcome
  entries_after s d p (db, err x) = (db, err x)
  entries_after s d p (db, ok current) = entries_selected s d p current (set_active (up p) p db)

  abbrev pub exits_after : Study → ℕ → ℕ → Db D × Result SnapError (List M) → Outcome
  exits_after s d p (db, err x) = (db, err x)
  exits_after s d p (db, ok current) = exits_selected s d p current (set_active (up p) p db)

  unfoldable pub detect_entries : Study → ℕ → ℕ → Db D → Outcome
  detect_entries s d p db = entries_after s d p (matches_on s d db)

  unfoldable pub detect_exits : Study → ℕ → ℕ → Db D → Outcome
  detect_exits s d p db = exits_after s d p (matches_on s d db)

  abbrev pub pair_with :
      List Change
      → Db D × Result SnapError (List Change)
      → Db D × Result SnapError (List Change × List Change)
  pair_with es (db, ok xs) = (db, ok (es, xs))
  pair_with es (db, err x) = (db, err x)

  abbrev pub then_exits :
      (Db D → Outcome) → Outcome → Db D × Result SnapError (List Change × List Change)
  then_exits next (db, ok es) = pair_with es (next db)
  then_exits next (db, err x) = (db, err x)

  unfoldable pub detect_changes :
      Study → ℕ → ℕ → Db D → Db D × Result SnapError (List Change × List Change)
  detect_changes s d p db = then_exits (detect_exits s d p) (detect_entries s d p db)
