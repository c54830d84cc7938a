-- ===== src/Examples/Logins.antt =====
-- A session and a guard that locks at the third failure (internal/auth).
use json_scanner.Base.{
  ◌+◌, ◌-◌, ◌≡◌, true, ◌&&◌, none, some, [], ◌∷◌, ltb, leb, arith, if◌then◌else◌,
}
use json_scanner.Auth.Session.{SessionStore, get, holder, get-holder}
use json_scanner.Auth.Guard.{LoginGuard, check, fail_at, last_of, length, audit_of, check-fail_at}

abbrev sessions : SessionStore
sessions = record { entries = ("t1", record { user_id = "ann"; expiry = 500 }) ∷ [] }

get-holder_example :
    ((get "t1" 600 sessions).1 ≡ holder "t1" 600 sessions)
    × (holder "t2" 700 (get "t1" 600 sessions).0 ≡ holder "t2" 700 sessions)
get-holder_example = get-holder "t1" "t2" 600 700 sessions (omega arith)

abbrev guard : LoginGuard
guard = record { audits = []; max_failures = 3; lockout_secs = 900 }

check-fail_at_example : check true "ann" 130 (fail_at "ann" (100 ∷ 110 ∷ 120 ∷ []) guard) ≡ (
    if leb guard.max_failures ((audit_of "ann" guard).failures + length (110 ∷ 120 ∷ []) + 1)
      && ltb 130 (last_of 100 (110 ∷ 120 ∷ []) + guard.lockout_secs)
    then some (last_of 100 (110 ∷ 120 ∷ []) + guard.lockout_secs - 130)
    else none)
check-fail_at_example = check-fail_at "ann" 100 (110 ∷ 120 ∷ []) 130 guard
