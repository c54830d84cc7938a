-- ===== src/Throttle/Limiter.antt =====
-- The throttler (internal/throttle/throttle.go). `up` says of each statement whether the driver
-- carries it out; the JSON codec of limits is a parameter; the clock gives `now` and `today`.
use json_scanner.Base.{
  ℕ, String, Bool, not, Option, none, some, List, ◌=s=◌, count, find_first, if◌then◌else◌,
}
use json_scanner.Base.Int.{ℤ, pos, reaches}
use json_scanner.Base.Result.{Result, ok, err, ◌>>=◌}
use json_scanner.Roles
use json_scanner.Roles.{Limits, Role, Decoders}
use json_scanner.Throttle.Tables.{
  UsageRow, UserRow, LimitsRow, Db, recent, record_call, drop_old, upsert, add_api_call, add_study,
  add_result, add_replay, usage_of, put_limits,
}

pub data Statement : Type 0 where
  limits_query role_query roles_query minute_query hour_query day_query : Statement
  count_query rate_insert usage_upsert cleanup_delete limits_upsert usage_query : Statement

pub data ThrottleError : Type 0 where
  failed : Statement → ThrottleError
  no_such_user role_not_found per_minute per_hour per_day : ThrottleError
  quota_used : ℕ → ℤ → ThrottleError
  unknown_resource : ThrottleError

-- The limits of a user whose role is not there.
abbrev pub fallback_limits : Limits
fallback_limits = record {
  api_calls_per_minute = pos 60;
  api_calls_per_hour = pos 1000;
  api_calls_per_day = pos 10000;
  max_studies = pos 3;
  max_saved_results = pos 100;
  max_groups = pos 5;
  max_group_members = pos 20;
  replay_days = pos 7;
  max_symbols_per_scan = pos 1000;
  export_max_results = pos 500;
}

abbrev pub when_up :
    {A : Type 0} → Bool → Statement → Result ThrottleError A → Result ThrottleError A
when_up b s r = if b then r else err (failed s)

module _ (dec : Decoders) (up : Statement → Bool) where
  abbrev pub row_role : Option UserRow → Result ThrottleError String
  row_role none = err no_such_user
  row_role (some u) = ok u.role_id

  -- `SELECT role_id FROM users WHERE id = ?`
  unfoldable pub role_id_of : Db → String → Result ThrottleError String
  role_id_of db user =
      when_up (up role_query) role_query (row_role (find_first (λ u. u.id =s= user) db.users))

  abbrev pub lift_role : Result Roles.RoleError (Option Role) → Result ThrottleError (Option Role)
  lift_role (ok r) = ok r
  lift_role (err e) = err (failed roles_query)

  unfoldable pub role_of_user : Db → String → Result ThrottleError (Option Role)
  unfolding role_id_of
  role_of_user db user = do
    role_id ← role_id_of db user
    lift_role (Roles.get dec (up roles_query) db.roles role_id)

  abbrev pub decoded : Option LimitsRow → Option Limits
  decoded none = none
  decoded (some r) = dec.limits r.limits_json

  -- An override that is there and decodes.
  unfoldable pub override_of : Db → String → Option Limits
  override_of db user =
      if up limits_query
      then decoded (find_first (λ r. r.user_id =s= user) db.user_limits)
      else none

  abbrev pub role_limits : Option Role → Limits
  role_limits none = fallback_limits
  role_limits (some r) = r.limits

  abbrev pub limits_or_role :
      Option Limits → Result ThrottleError (Option Role) → Result ThrottleError Limits
  limits_or_role (some l) role = ok l
  limits_or_role none (ok role) = ok (role_limits role)
  limits_or_role none (err e) = err e

  unfoldable pub get_effective_limits : Db → String → Result ThrottleError Limits
  unfolding override_of role_of_user
  get_effective_limits db user = limits_or_role (override_of db user) (role_of_user db user)

  -- The three windows, in the order of the source; `none` is no error.
  unfoldable pub check_windows : Db → String → ℕ → String → Limits → Option ThrottleError
  check_windows db user now today limits =
      if not (up minute_query)
      then some (failed minute_query)
      else if reaches (recent user 60 now db.rate_limits) limits.api_calls_per_minute
      then some per_minute
      else if not (up hour_query)
      then some (failed hour_query)
      else if reaches (recent user 3600 now db.rate_limits) limits.api_calls_per_hour
      then some per_hour
      else if not (up day_query)
      then some (failed day_query)
      else if reaches (usage_of user today db.usage_tracking).api_calls limits.api_calls_per_day
      then some per_day
      else none

  abbrev pub then_windows :
      (Limits → Option ThrottleError) → Result ThrottleError Limits → Option ThrottleError
  then_windows check (ok l) = check l
  then_windows check (err e) = some e

  unfoldable pub check_role :
      Db → String → ℕ → String → Result ThrottleError (Option Role) → Option ThrottleError
  unfolding get_effective_limits check_windows
  check_role db user now today (err e) = some e
  check_role db user now today (ok none) = some role_not_found
  check_role db user now today (ok (some r)) =
      if r.bypass_throttling
      then none
      else then_windows (check_windows db user now today) (get_effective_limits db user)

  unfoldable pub check_rate_limit : Db → String → ℕ → String → Option ThrottleError
  unfolding check_role role_of_user
  check_rate_limit db user now today = check_role db user now today (role_of_user db user)

  -- How many of the resource the user has; a failed count reads as 0.
  abbrev pub owned : List String → String → ℕ
  owned owners user = if up count_query then count (λ o. o =s= user) owners else 0

  abbrev pub within : ℕ → ℤ → Option ThrottleError
  within current max = if reaches current max then some (quota_used current max) else none

  unfoldable pub check_quota : Db → String → String → Limits → Option ThrottleError
  check_quota db user resource l =
      if resource =s= "study"
      then within (owned db.study_owners user) l.max_studies
      else if resource =s= "result"
      then within (owned db.result_owners user) l.max_saved_results
      else if resource =s= "group"
      then within (owned db.group_owners user) l.max_groups
      else none

  unfoldable pub check_create : Db → String → String → Option ThrottleError
  unfolding check_quota get_effective_limits
  check_create db user resource =
      then_windows (check_quota db user resource) (get_effective_limits db user)

module _ (up : Statement → Bool) where
  -- `TrackAPIUsage`: what an earlier statement wrote stays when a later one fails.
  unfoldable pub track_api_usage : String → ℕ → String → Db → Db × Option ThrottleError
  track_api_usage user now today db =
      if not (up rate_insert)
      then (db, some (failed rate_insert))
      else (let called = record db { rate_limits = record_call user now db.rate_limits } in
          if not (up usage_upsert)
          then (called, some (failed usage_upsert))
          else (let counted = record called {
            usage_tracking = upsert add_api_call user today called.usage_tracking;
          } in
              if up cleanup_delete
              then (record counted { rate_limits = drop_old now counted.rate_limits }, none)
              else (counted, none)))

  abbrev pub column_of : String → Option (UsageRow → UsageRow)
  column_of resource =
      if resource =s= "study"
      then some add_study
      else if resource =s= "result"
      then some add_result
      else if resource =s= "replay"
      then some add_replay
      else none

  abbrev pub bump_column :
      Option (UsageRow → UsageRow) → String → String → Db → Db × Option ThrottleError
  bump_column none user today db = (db, some unknown_resource)
  bump_column (some f) user today db =
      if up usage_upsert
      then (record db { usage_tracking = upsert f user today db.usage_tracking }, none)
      else (db, some (failed usage_upsert))

  unfoldable pub track_resource_usage : String → String → String → Db → Db × Option ThrottleError
  track_resource_usage user resource today db = bump_column (column_of resource) user today db

  -- `TrackCreate` drops the error.
  unfoldable pub track_create : String → String → String → Db → Db
  unfolding track_resource_usage
  track_create user resource today db = (track_resource_usage user resource today db).0

  -- `SetUserLimits`; `encode` is the JSON encoder.
  unfoldable pub set_user_limits :
      (Limits → String) → String → Limits → ℕ → Db → Db × Option ThrottleError
  set_user_limits encode user limits now db =
      if up limits_upsert
      then (
        record db {
          user_limits =
              put_limits (record { user_id = user; limits_json = encode limits; updated_at = now })
                db.user_limits;
        },
        none,
      )
      else (db, some (failed limits_upsert))

  unfoldable pub get_user_usage : String → String → Db → Result ThrottleError UsageRow
  get_user_usage user today db =
      when_up (up usage_query) usage_query (ok (usage_of user today db.usage_tracking))
