-- ===== src/Throttle/Tables.antt =====
-- The tables that the throttler reads and writes, and its statements on them
-- (internal/throttle/throttle.go). A statement is a function on the rows; times are Unix seconds.
use json_scanner.Base.{
  ℕ, ◌+◌, String, Bool, not, ◌&&◌, Option, none, some, List, [], ◌∷◌, ◌++◌, ◌=s=◌, ltb, count,
  find_first, select, if◌then◌else◌,
}
use json_scanner.Roles.{RoleRow}

pub record RateRow : Type 0 where
  pub user_id : String
  pub timestamp : ℕ

pub record UsageRow : Type 0 where
  pub user_id : String
  pub date : String
  pub api_calls : ℕ
  pub studies_created : ℕ
  pub results_saved : ℕ
  pub replays_run : ℕ

pub record UserRow : Type 0 where
  pub id : String
  pub role_id : String

pub record LimitsRow : Type 0 where
  pub user_id : String
  pub limits_json : String
  pub updated_at : ℕ

pub record Db : Type 0 where
  pub users : List UserRow
  pub roles : List RoleRow
  pub user_limits : List LimitsRow
  pub usage_tracking : List UsageRow
  pub rate_limits : List RateRow
  pub study_owners : List String
  pub result_owners : List String
  pub group_owners : List String

-- COUNT of the user's rows with `timestamp > now - window`, as `now < timestamp + window`.
unfoldable pub recent : String → ℕ → ℕ → List RateRow → ℕ
recent user window now rows = count (λ r. r.user_id =s= user && ltb now (r.timestamp + window)) rows

-- INSERT INTO rate_limits
unfoldable pub record_call : String → ℕ → List RateRow → List RateRow
record_call user now rows = rows ++ (record { user_id = user; timestamp = now } ∷ [])

-- DELETE FROM rate_limits WHERE timestamp < now - 3600
unfoldable pub drop_old : ℕ → List RateRow → List RateRow
drop_old now rows = select (λ r. not (ltb (r.timestamp + 3600) now)) rows

abbrev pub is_usage : String → String → UsageRow → Bool
is_usage user date r = r.user_id =s= user && r.date =s= date

abbrev pub new_usage : String → String → UsageRow
new_usage user date = record {
  user_id = user;
  date = date;
  api_calls = 0;
  studies_created = 0;
  results_saved = 0;
  replays_run = 0;
}

-- INSERT ... VALUES (?, ?, 1) ON CONFLICT DO UPDATE SET column = column + 1
unfoldable pub upsert : (UsageRow → UsageRow) → String → String → List UsageRow → List UsageRow
upsert bump user date [] = bump (new_usage user date) ∷ []
upsert bump user date (r ∷ rows) =
    if is_usage user date r then bump r ∷ rows else r ∷ upsert bump user date rows

abbrev pub add_api_call : UsageRow → UsageRow
add_api_call r = record r { api_calls = r.api_calls + 1 }

abbrev pub add_study : UsageRow → UsageRow
add_study r = record r { studies_created = r.studies_created + 1 }

abbrev pub add_result : UsageRow → UsageRow
add_result r = record r { results_saved = r.results_saved + 1 }

abbrev pub add_replay : UsageRow → UsageRow
add_replay r = record r { replays_run = r.replays_run + 1 }

-- `SELECT ... WHERE user_id = ? AND date = ?`, with no row read as zeros.
abbrev pub or_zero : String → String → Option UsageRow → UsageRow
or_zero user date none = new_usage user date
or_zero user date (some r) = r

unfoldable pub usage_of : String → String → List UsageRow → UsageRow
usage_of user date rows = or_zero user date (find_first (is_usage user date) rows)

-- INSERT INTO user_limits ... ON CONFLICT(user_id) DO UPDATE
unfoldable pub put_limits : LimitsRow → List LimitsRow → List LimitsRow
put_limits new [] = new ∷ []
put_limits new (r ∷ rows) =
    if r.user_id =s= new.user_id then new ∷ rows else r ∷ put_limits new rows
