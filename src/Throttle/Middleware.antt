-- ===== src/Throttle/Middleware.antt =====
-- The middleware of the API that tracks requests (`trackUsage` of internal/api/router.go). Whom the
-- session cookie and the bearer token stand for is given with the request.
use json_scanner.Base.{
  ℕ, ◌+◌, String, ◌≡◌, Bool, true, false, Option, none, some, List, [], ◌∷◌, ◌=s=◌, length, All,
  arith, eq_refl, if◌then◌else◌, not, ◌&&◌, refl, sym, ap, ◌∙◌, inl, inr, Bool-cases,
}
use json_scanner.Throttle.Tables.{Db, recent, record_call}
use json_scanner.Throttle.Limiter.{Statement, rate_insert, track_api_usage}
use json_scanner.Throttle.Windows.{recent-record_call, recent-drop_old}

pub record HttpRequest : Type 0 where
  pub path : String
  pub session_user : Option String
  pub bearer_user : Option String
  pub now : ℕ
  pub today : String

abbrev pub or_empty : Option String → String
or_empty none = ""
or_empty (some u) = u

-- The session's user, or the token's where the session gives none; "" if nobody is known.
unfoldable pub identify : HttpRequest → String
identify r = let u = or_empty r.session_user in if u =s= "" then or_empty r.bearer_user else u

-- What the throttler, where there is one, records of a request: its error is dropped.
abbrev pub record_usage : Bool → (Statement → Bool) → String → HttpRequest → Db → Db
record_usage has_throttler up user r db =
    if not (user =s= "") && has_throttler then (track_api_usage up user r.now r.today db).0 else db

-- The handler that the middleware wraps answers a request and changes the throttler's tables and the
-- rest of the program's state.
abbrev pub HttpHandler : Type 0 → Type 0 → Type 0
HttpHandler S R = HttpRequest → S × Db → (S × Db) × R

module _ {S R : Type 0} where
  unfoldable pub track_usage :
      (has_throttler : Bool)
      → (up : Statement → Bool) → (next : HttpHandler S R) → HttpRequest
      → S × Db
      → (S × Db) × R
  unfolding identify
  track_usage has_throttler up next r st =
      let served = next r st in
      if r.path =s= "/api/v1/health"
      then served
      else ((served.0.0, record_usage has_throttler up (identify r) r served.0.1), served.1)

  -- The requests one after the other, with their responses.
  pub track_all :
      Bool → (Statement → Bool) → HttpHandler S R → List HttpRequest → S × Db → (S × Db) × List R
  unfolding track_usage
  track_all has_throttler up next [] st = (st, [])
  track_all has_throttler up next (r ∷ rs) st =
      let served = track_usage has_throttler up next r st in
      let rest = track_all has_throttler up next rs served.0 in (rest.0, served.1 ∷ rest.1)

-- A request of the user at the time, to a path that is tracked.
pub record IsCall (user : String) (now : ℕ) (r : HttpRequest) : Type 0 where
  pub tracked : (r.path =s= "/api/v1/health") ≡ false
  pub known : identify r ≡ user
  pub time : r.now ≡ now

recent-track_api_usage :
    (up : Statement → Bool) (user : String) (now : ℕ) (today : String) (db : Db)
    → up rate_insert ≡ true
    → recent user 60 now (track_api_usage up user now today db).0.rate_limits
      ≡ recent user 60 now db.rate_limits + 1
unfolding track_api_usage
recent-track_api_usage up user now today db h =
    let counted = recent-record_call user user 60 now now db.rate_limits in
    let dropped =
      recent-drop_old user 60 now now (record_call user now db.rate_limits) (omega arith)
        (omega arith) in
    ground (arith, eq_refl user)

-- The wrapped handler leaves the table of calls as it is.
abbrev pub KeepsCalls : {S R : Type 0} → HttpHandler S R → Type 0
KeepsCalls {S = S} next =
    (r : HttpRequest) (st : S × Db) → (next r st).0.1.rate_limits ≡ st.1.rate_limits

module _ {S R : Type 0} where
  recent-track_usage :
      (up : Statement → Bool) (next : HttpHandler S R) (user : String) (now : ℕ) (r : HttpRequest)
      (st : S × Db)
      → up rate_insert ≡ true
      → (user =s= "") ≡ false
      → KeepsCalls next
      → IsCall user now r
      → recent user 60 now (track_usage true up next r st).0.1.rate_limits
        ≡ recent user 60 now st.1.rate_limits + 1
  unfolding track_usage
  recent-track_usage up next user now r st h ne keeps c =
      rw (c.tracked, c.known, ne)
        (at_time r.now c.time (next r st).0.1
          ∙ ap (λ calls. recent user 60 now calls + 1) (keeps r st))
    where
      at_time :
          (n : ℕ)
          → n ≡ now
          → (db : Db)
          → recent user 60 now (track_api_usage up user n r.today db).0.rate_limits
            ≡ recent user 60 now db.rate_limits + 1
      at_time n e db = rw e (recent-track_api_usage up user now r.today db h)

  recent-track_all_calls :
      (up : Statement → Bool) (next : HttpHandler S R) (user : String) (now : ℕ)
      (rs : List HttpRequest) (st : S × Db)
      → up rate_insert ≡ true
      → (user =s= "") ≡ false
      → KeepsCalls next
      → All (IsCall user now) rs
      → recent user 60 now (track_all true up next rs st).0.1.rate_limits
        ≡ recent user 60 now st.1.rate_limits + length rs
  unfolding track_all
  recent-track_all_calls up next user now [] st h ne keeps c = omega arith
  recent-track_all_calls up next user now (r ∷ rs) st h ne keeps c =
      let served = (track_usage true up next r st).0 in
      let rest = recent-track_all_calls up next user now rs served h ne keeps c.1 in
      let one = recent-track_usage up next user now r st h ne keeps c.0 in omega arith

  -- The handler ran on each request, in order, and its answers are the responses; from a request to
  -- the next one nothing but the throttler's tables has changed.
  pub data IsServed (next : HttpHandler S R) : S → List HttpRequest → List R → S → Type 0 where
    served_none : {s : S} → IsServed next s [] [] s
    served_next :
        {s t : S} {r : HttpRequest} {rs : List HttpRequest} {answers : List R} (db : Db)
        → IsServed next (next r (s, db)).0.0 rs answers t
        → IsServed next s (r ∷ rs) ((next r (s, db)).1 ∷ answers) t

  track_usage-response :
      (has_throttler : Bool) (up : Statement → Bool) (next : HttpHandler S R) (r : HttpRequest)
      (st : S × Db)
      → ((track_usage has_throttler up next r st).1 ≡ (next r st).1)
        × ((track_usage has_throttler up next r st).0.0 ≡ (next r st).0.0)
  unfolding track_usage
  track_usage-response has_throttler up next r st =
      elim (Bool-cases (r.path =s= "/api/v1/health")) [
        | inl e ↦ rw e (refl, refl)
        | inr e ↦ rw e (refl, refl)
      ]

  IsServed-next :
      (next : HttpHandler S R) (r : HttpRequest) (rs : List HttpRequest) (answers : List R)
      (st : S × Db) (a : R) (s t : S)
      → a ≡ (next r st).1
      → s ≡ (next r st).0.0
      → IsServed next s rs answers t
      → IsServed next st.0 (r ∷ rs) (a ∷ answers) t
  IsServed-next next r rs answers st a s t e f h = rw e (served_next st.1 (rw (sym f) h))

  track_all-IsServed :
      (has_throttler : Bool) (up : Statement → Bool) (next : HttpHandler S R)
      (rs : List HttpRequest) (st : S × Db)
      → let done = track_all has_throttler up next rs st in IsServed next st.0 rs done.1 done.0.0
  unfolding track_all
  track_all-IsServed has_throttler up next [] st = served_none
  track_all-IsServed has_throttler up next (r ∷ rs) st =
      let served = track_usage has_throttler up next r st in
      let same = track_usage-response has_throttler up next r st in
      let rest = track_all-IsServed has_throttler up next rs served.0 in
      IsServed-next next r rs (track_all has_throttler up next rs served.0).1 st served.1 served.0.0
        (track_all has_throttler up next rs served.0).0.0 same.0 same.1 rest

  -- Over a handler that leaves the table of calls as it is, and with a throttler whose insert of a call
  -- is carried out, the middleware refuses no request and tracks every call of a known user to a path
  -- other than that of the health check: whatever the user's limits are, the responses to any number
  -- of such calls in one second are the handler's own answers to each, and afterwards all the calls
  -- stand in the user's window of a minute.
  pub recent-track_all :
      (up : Statement → Bool) (next : HttpHandler S R) (user : String) (now : ℕ)
      (rs : List HttpRequest) (st : S × Db)
      → up rate_insert ≡ true
      → (user =s= "") ≡ false
      → KeepsCalls next
      → All (IsCall user now) rs
      → let done = track_all true up next rs st in
        IsServed next st.0 rs done.1 done.0.0
        × (recent user 60 now done.0.1.rate_limits
            ≡ recent user 60 now st.1.rate_limits + length rs)
  recent-track_all up next user now rs st h ne keeps c = (
    track_all-IsServed true up next rs st,
    recent-track_all_calls up next user now rs st h ne keeps c,
  )
