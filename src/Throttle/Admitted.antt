-- ===== src/Throttle/Admitted.antt =====
-- Which calls the check lets through (`CheckRateLimit` of internal/throttle/throttle.go).
use json_scanner.Base.{ℕ, ◌<◌, String, ◌≡◌, ◌↔◌, Bool, true, false, none, arith}
use json_scanner.Base.Int.{ℤ, pos, negsuc, reaches, room}
use json_scanner.Roles.{Limits, Decoders}
use json_scanner.Throttle.Tables.{Db, recent, usage_of}
use json_scanner.Throttle.Limiter.{Statement, minute_query, hour_query, day_query, check_rate_limit}
use json_scanner.Throttle.Enforced.{IsLimited, check_rate_limit-room}

not_reached : (c : ℕ) (m : ℤ) → c < room m → reaches c m ≡ false
not_reached c (pos m) h = ground arith
not_reached c (negsuc m) h = absurd (omega arith)

-- There is room in each of the three windows.
pub record HasRoom (db : Db) (user : String) (now : ℕ) (today : String) (l : Limits) : Type 0 where
  pub minute : recent user 60 now db.rate_limits < room l.api_calls_per_minute
  pub hour : recent user 3600 now db.rate_limits < room l.api_calls_per_hour
  pub day : (usage_of user today db.usage_tracking).api_calls < room l.api_calls_per_day

module _ (dec : Decoders) (up : Statement → Bool) where
  admitted :
      (db : Db) (user : String) (now : ℕ) (today : String) (l : Limits)
      → up minute_query ≡ true
      → up hour_query ≡ true
      → up day_query ≡ true
      → IsLimited dec up db user l
      → HasRoom db user now today l
      → check_rate_limit dec up db user now today ≡ none
  unfolding check_rate_limit
  admitted db user now today l um uh ud lim r = ground (
    arith,
    lim.has_role,
    lim.no_bypass,
    lim.limits,
    not_reached (recent user 60 now db.rate_limits) l.api_calls_per_minute r.minute,
    not_reached (recent user 3600 now db.rate_limits) l.api_calls_per_hour r.hour,
    not_reached (usage_of user today db.usage_tracking).api_calls l.api_calls_per_day r.day,
  )

  -- A limited user's call passes the check exactly if there is room in the windows of a minute, an
  -- hour and a day, where the driver answers the three counting queries.
  pub check_rate_limit-none_iff :
      (db : Db) (user : String) (now : ℕ) (today : String) (l : Limits)
      → up minute_query ≡ true
      → up hour_query ≡ true
      → up day_query ≡ true
      → IsLimited dec up db user l
      → (check_rate_limit dec up db user now today ≡ none) ↔ HasRoom db user now today l
  check_rate_limit-none_iff db user now today l um uh ud lim = (
    (λ h.
        let (a, b, c) = check_rate_limit-room dec up db user now today l lim h in
        record { minute = a; hour = b; day = c }),
    admitted db user now today l um uh ud lim,
  )
