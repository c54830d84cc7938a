-- ===== src/Examples/Quotas.antt =====
-- One limited user with two calls a minute (internal/throttle, internal/roles).
use json_scanner.Base.{
  ℕ, ◌+◌, All, length, ◌↔◌, String, ◌≡◌, refl, Bool, true, false, none, some, List, [], ◌∷◌, ◌=s=◌,
  arith, if◌then◌else◌,
}
use json_scanner.Base.Int.{pos}
use json_scanner.Roles
use json_scanner.Roles.{Limits, RoleRow, Decoders}
use json_scanner.Throttle.Tables.{Db, recent}
use json_scanner.Throttle.Limiter.{
  Statement, role_of_user, role_id_of, override_of, get_effective_limits, check_rate_limit,
}
use json_scanner.Throttle.Enforced.{
  IsLimited, IsKept, Request, serve_all, last_time, serve_all-IsKept,
}
use json_scanner.Throttle.Admitted.{HasRoom, check_rate_limit-none_iff}
use json_scanner.Throttle.Middleware.{
  HttpRequest, HttpHandler, IsServed, IsCall, identify, track_all, recent-track_all,
}

abbrev few : Limits
few = record {
  api_calls_per_minute = pos 2;
  api_calls_per_hour = pos 20;
  api_calls_per_day = pos 100;
  max_studies = pos 3;
  max_saved_results = pos 100;
  max_groups = pos 5;
  max_group_members = pos 20;
  replay_days = pos 7;
  max_symbols_per_scan = pos 1000;
  export_max_results = pos 500;
}

-- Decoders for the example: every text holds no capabilities and the few limits.
abbrev decoders : Decoders
decoders = record { capabilities = λ s. some []; limits = λ s. some few }

abbrev running : Statement → Bool
running s = true

abbrev user_role : RoleRow
user_role = record {
  id = "user";
  capabilities_json = "[]";
  limits_json = "{}";
  bypass_throttling = false;
}

abbrev empty_db : Db
empty_db = record {
  users = record { id = "ann"; role_id = "user" } ∷ [];
  roles = user_role ∷ [];
  user_limits = [];
  usage_tracking = [];
  rate_limits = [];
  study_owners = [];
  result_owners = [];
  group_owners = [];
}

ann-IsLimited : IsLimited decoders running empty_db "ann" few
unfolding role_of_user role_id_of override_of get_effective_limits Roles.get Roles.role_of
ann-IsLimited = record {
  role = record { id = "user"; capabilities = []; limits = few; bypass_throttling = false };
  has_role = refl;
  no_bypass = refl;
  limits = refl;
}

ann-IsKept : IsKept decoders running "ann" few 1000 empty_db
unfolding recent
ann-IsKept = record {
  limited = ann-IsLimited;
  minute = λ t h. omega arith;
  hour = λ t h. omega arith;
}

abbrev at_time : ℕ → Request
at_time t = record { user = "ann"; now = t; today = "2026-01-05"; up_track = running }

abbrev requests : List Request
requests = at_time 1000 ∷ at_time 1010 ∷ at_time 1020 ∷ at_time 1090 ∷ []

serve_all-IsKept_example :
    IsKept decoders running "ann" few
      (last_time 1000 requests)
      (serve_all decoders running empty_db requests)
serve_all-IsKept_example =
    serve_all-IsKept decoders running "ann" few 1000 empty_db requests
      (omega arith, (omega arith, (omega arith, (omega arith, tt)))) ann-IsKept

check_rate_limit-none_iff_example :
    (check_rate_limit decoders running empty_db "ann" 1000 "2026-01-05" ≡ none)
    ↔ HasRoom empty_db "ann" 1000 "2026-01-05" few
check_rate_limit-none_iff_example =
    check_rate_limit-none_iff decoders running empty_db "ann" 1000 "2026-01-05" few refl refl refl
      ann-IsLimited

abbrev more : Limits
more = record few { api_calls_per_minute = pos 600 }

-- A codec for the example: "{}" holds the few limits, and any other text the larger ones.
abbrev codec : Decoders
codec = record {
  capabilities = λ s. some [];
  limits = λ s. if s =s= "{}" then some few else some more;
}

abbrev encode : Limits → String
encode l = "more"

abbrev http : HttpRequest
http = record {
  path = "/api/v1/scan";
  session_user = none;
  bearer_user = some "ann";
  now = 1000;
  today = "2026-01-05";
}

ann_calls : All (IsCall "ann" 1000) (http ∷ http ∷ http ∷ [])
unfolding identify
ann_calls = (call, (call, (call, tt)))
  where
    call : IsCall "ann" 1000 http
    call = record { tracked = refl; known = refl; time = refl }

-- A handler that counts the requests it answers.
abbrev hello : HttpHandler ℕ String
hello r (n, db) = ((n + 1, db), "hello")

recent-track_all_example :
    let done = track_all true running hello (http ∷ http ∷ http ∷ []) (0, empty_db) in
    IsServed hello 0 (http ∷ http ∷ http ∷ []) done.1 done.0.0
    × (recent "ann" 60 1000 done.0.1.rate_limits
        ≡ recent "ann" 60 1000 empty_db.rate_limits + length (http ∷ http ∷ http ∷ []))
recent-track_all_example =
    recent-track_all running hello "ann" 1000 (http ∷ http ∷ http ∷ []) (0, empty_db) refl refl
      (λ r st. refl) ann_calls
