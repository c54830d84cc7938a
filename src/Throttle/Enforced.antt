-- ===== src/Throttle/Enforced.antt =====
-- What the limiter enforces over any sequence of calls, for a caller that checks and tracks
-- (internal/throttle/throttle.go).
use json_scanner.Base.{
  ℕ, ◌+◌, ◌≤◌, ◌<◌, String, ◌≡◌, refl, ◌∙◌, inl, inr, Bool, false, none, some, List, [], ◌∷◌, ◌=s=◌,
  eq_iff, arith, if◌then◌else◌, Bool-cases, Option-cases,
}
use json_scanner.Base.Int.{ℤ, pos, negsuc, reaches, room}
use json_scanner.Base.Result.{ok}
use json_scanner.Roles.{Limits, Role, Decoders}
use json_scanner.Throttle.Tables.{RateRow, Db, recent, record_call, usage_of}
use json_scanner.Throttle.Limiter.{
  Statement, role_of_user, get_effective_limits, check_rate_limit, track_api_usage,
}
use json_scanner.Throttle.Windows.{recent-record_call, recent-drop_old, recent_mono}

below_room : (c : ℕ) (m : ℤ) → reaches c m ≡ false → c < room m
below_room c (pos m) h = ground arith
below_room c (negsuc m) h = cc

module _ (dec : Decoders) (up : Statement → Bool) where
  -- The user is limited: its role does not bypass, and these are its limits.
  pub record IsLimited (db : Db) (user : String) (l : Limits) : Type 0 where
    pub role : Role
    pub has_role : role_of_user dec up db user ≡ ok (some role)
    pub no_bypass : role.bypass_throttling ≡ false
    pub limits : get_effective_limits dec up db user ≡ ok l

  -- A call that passes finds room in the three windows.
  pub check_rate_limit-room :
      (db : Db) (user : String) (now : ℕ) (today : String) (l : Limits)
      → IsLimited db user l
      → check_rate_limit dec up db user now today ≡ none
      → (recent user 60 now db.rate_limits < room l.api_calls_per_minute)
        × (recent user 3600 now db.rate_limits < room l.api_calls_per_hour)
        × ((usage_of user today db.usage_tracking).api_calls < room l.api_calls_per_day)
  unfolding check_rate_limit
  check_rate_limit-room db user now today l lim h = ground (
    arith,
    lim.has_role,
    lim.no_bypass,
    lim.limits,
    below_room (recent user 60 now db.rate_limits) l.api_calls_per_minute,
    below_room (recent user 3600 now db.rate_limits) l.api_calls_per_hour,
    below_room (usage_of user today db.usage_tracking).api_calls l.api_calls_per_day,
  )

-- The tables that decide a user's limits.
pub record SameLimits (db db' : Db) : Type 0 where
  pub users : db'.users ≡ db.users
  pub roles : db'.roles ≡ db.roles
  pub user_limits : db'.user_limits ≡ db.user_limits

track_api_usage-SameLimits :
    (up : Statement → Bool) (user : String) (now : ℕ) (today : String) (db : Db)
    → SameLimits db (track_api_usage up user now today db).0
unfolding track_api_usage
track_api_usage-SameLimits up user now today db = ground arith

SameLimits-IsLimited :
    (dec : Decoders) (up : Statement → Bool) (db db' : Db) (user : String) (l : Limits)
    → SameLimits db db'
    → IsLimited dec up db user l
    → IsLimited dec up db' user l
SameLimits-IsLimited dec up db db' user l same lim = record {
  role = lim.role;
  has_role = same_role ∙ lim.has_role;
  no_bypass = lim.no_bypass;
  limits = same_limits ∙ lim.limits;
}
  where
    same_role : role_of_user dec up db' user ≡ role_of_user dec up db user
    same_role = unfold role_of_user in rw (same.users, same.roles) refl

    same_limits : get_effective_limits dec up db' user ≡ get_effective_limits dec up db user
    same_limits = unfold get_effective_limits in rw (same.users, same.roles, same.user_limits) refl

-- What tracking adds to a window of an hour or less, from the time of the call on, at most.
recent-track :
    (up : Statement → Bool) (u v : String) (w t now : ℕ) (today : String) (db : Db)
    → w ≤ 3600
    → now ≤ t
    → recent u w t (track_api_usage up v now today db).0.rate_limits
      ≤ recent u w t db.rate_limits + (if v =s= u then 1 else 0)
unfolding track_api_usage
recent-track up u v w t now today db hw ht =
    let counted = recent-record_call u v w t now db.rate_limits in
    let dropped = recent-drop_old u w t now (record_call v now db.rate_limits) hw ht in ground arith

-- From `now` on, the user's calls in any window of the width stay within `m`.
abbrev pub Within : String → ℕ → ℕ → ℕ → List RateRow → Type 0
Within user w m now rows = (t : ℕ) → now ≤ t → recent user w t rows ≤ m

-- A request: who, when, and what the driver does for its check and for its tracking.
pub record Request : Type 0 where
  pub user : String
  pub now : ℕ
  pub today : String
  pub up_track : Statement → Bool

-- A caller that checks each request and tracks those that pass, as the two operations are meant to
-- be used together; any other request changes nothing.
pub serve : Decoders → (Statement → Bool) → Db → Request → Db
serve dec up db r = elim (check_rate_limit dec up db r.user r.now r.today) [
  | none ↦ (track_api_usage r.up_track r.user r.now r.today db).0
  | some e ↦ db
]

pub serve_all : Decoders → (Statement → Bool) → Db → List Request → Db
serve_all dec up db [] = db
serve_all dec up db (r ∷ rs) = serve_all dec up (serve dec up db r) rs

-- Each request comes no earlier than the one before it.
abbrev pub InOrder : ℕ → List Request → Type 0
InOrder now [] = Unit
InOrder now (r ∷ rs) = (now ≤ r.now) × InOrder r.now rs

-- The time of the last request.
abbrev pub last_time : ℕ → List Request → ℕ
last_time now [] = now
last_time now (r ∷ rs) = last_time r.now rs

-- The user is limited and stays within the windows of a minute and an hour.
pub record IsKept (dec : Decoders) (up : Statement → Bool) (user : String) (l : Limits) (now : ℕ)
    (db : Db) : Type 0 where
  pub limited : IsLimited dec up db user l
  pub minute : Within user 60 (room l.api_calls_per_minute) now db.rate_limits
  pub hour : Within user 3600 (room l.api_calls_per_hour) now db.rate_limits

module _ (dec : Decoders) (up : Statement → Bool) (user : String) (l : Limits) where
  refused-IsKept :
      (now now' : ℕ) (db : Db)
      → now ≤ now'
      → IsKept dec up user l now db
      → IsKept dec up user l now' db
  refused-IsKept now now' db le k = record {
    limited = k.limited;
    minute = λ t h. k.minute t (omega arith);
    hour = λ t h. k.hour t (omega arith);
  }

  window_kept :
      (w : ℕ) (m : ℕ) (now : ℕ) (r : Request) (db : Db)
      → w ≤ 3600
      → now ≤ r.now
      → Within user w m now db.rate_limits
      → (r.user ≡ user → recent user w r.now db.rate_limits < m)
      → Within user w m r.now (track_api_usage r.up_track r.user r.now r.today db).0.rate_limits
  window_kept w m now r db hw le k fits t ht = elim (Bool-cases (r.user =s= user)) [
    | inl e ↦
        let grown = recent-track r.up_track user r.user w t r.now r.today db hw ht in
        let fewer = recent_mono user w r.now t db.rate_limits ht in
        let room_left = fits ((eq_iff r.user user).0 e) in ground arith
    | inr e ↦
        let grown = recent-track r.up_track user r.user w t r.now r.today db hw ht in
        let kept = k t (omega arith) in ground arith
  ]

  serve-IsKept :
      (now : ℕ) (db : Db) (r : Request)
      → now ≤ r.now
      → IsKept dec up user l now db
      → IsKept dec up user l r.now (serve dec up db r)
  unfolding serve
  serve-IsKept now db r le k =
      elim (Option-cases (check_rate_limit dec up db r.user r.now r.today)) [
        | inl e ↦ rw (e, serve) (passed e)
        | inr (x, e) ↦ rw (e, serve) (refused-IsKept now r.now db le k)
      ]
    where
      passed :
          check_rate_limit dec up db r.user r.now r.today ≡ none
          → IsKept dec up user l r.now (track_api_usage r.up_track r.user r.now r.today db).0
      passed e = record {
        limited =
            SameLimits-IsLimited dec up db _ user l
              (track_api_usage-SameLimits r.up_track r.user r.now r.today db) k.limited;
        minute =
            window_kept 60 (room l.api_calls_per_minute) now r db (omega arith) le k.minute
              (λ q. (fits q).0);
        hour =
            window_kept 3600 (room l.api_calls_per_hour) now r db (omega arith) le k.hour
              (λ q. (fits q).1);
      }
        where
          fits :
              r.user ≡ user
              → (recent user 60 r.now db.rate_limits < room l.api_calls_per_minute)
                × (recent user 3600 r.now db.rate_limits < room l.api_calls_per_hour)
          fits q =
              let (a, b, c) =
                check_rate_limit-room dec up db user r.now r.today l k.limited (rw q at e) in
              (a, b)

  -- For a caller that checks every request and tracks those that pass: however many requests come,
  -- in the order of their times, from whichever users, and whatever statements of the tracking
  -- fail, a limited user who was within the windows of a minute and an hour stays so, counted at
  -- the last request or at any later time.
  pub serve_all-IsKept :
      (now : ℕ) (db : Db) (rs : List Request)
      → InOrder now rs
      → IsKept dec up user l now db
      → IsKept dec up user l (last_time now rs) (serve_all dec up db rs)
  unfolding serve_all
  serve_all-IsKept now db [] h k = k
  serve_all-IsKept now db (r ∷ rs) h k =
      serve_all-IsKept r.now (serve dec up db r) rs h.1 (serve-IsKept now db r h.0 k)
