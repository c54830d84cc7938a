-- ===== src/Auth/Guard.antt =====
-- The login guard (internal/auth/guard.go): the table `login_audit`, one row to a user. `up` says
-- of the two statements of an operation whether the driver carries them out.
use json_scanner.Base.{
  ℕ, suc, ◌+◌, ◌-◌, ◌<◌, String, ◌≡◌, refl, ap, ◌∙◌, Bool, true, false, ◌&&◌, Option, none, some,
  List, [], ◌∷◌, ◌=s=◌, eq_iff, arith, ltb, leb, if◌then◌else◌,
}
use json_scanner.Base.Dict.{Dict, lookup, insert, lookup-insert}

pub record Audit : Type 0 where
  pub failures : ℕ
  pub locked_until : ℕ

pub record LoginGuard : Type 0 where
  pub audits : Dict Audit
  pub max_failures : ℕ
  pub lockout_secs : ℕ

-- A missing row, or a failed query, leaves the variables at zero.
abbrev pub or_zero : Option Audit → Audit
or_zero none = record { failures = 0; locked_until = 0 }
or_zero (some a) = a

abbrev pub read : Bool → String → LoginGuard → Audit
read up user g = if up then or_zero (lookup user g.audits) else or_zero none

-- `Check`: the seconds that are left of a lockout, or none where the login may go on.
unfoldable pub check : Bool → String → ℕ → LoginGuard → Option ℕ
check up user now g =
    let a = read up user g in if ltb now a.locked_until then some (a.locked_until - now) else none

abbrev pub put : Bool → String → Audit → LoginGuard → LoginGuard
put up user a g = if up then record g { audits = insert user a g.audits } else g

-- The row that a failure writes.
unfoldable pub failed_audit : ℕ → ℕ → ℕ → ℕ → Audit
failed_audit max_failures lockout_secs failures now = record {
  failures = failures + 1;
  locked_until = if leb max_failures (failures + 1) then now + lockout_secs else 0;
}

unfoldable pub record_failure : Bool → Bool → String → ℕ → LoginGuard → LoginGuard
unfolding failed_audit
record_failure up_read up_write user now g =
    put up_write user
      (failed_audit g.max_failures g.lockout_secs (read up_read user g).failures now) g

unfoldable pub record_success : Bool → String → LoginGuard → LoginGuard
record_success up user g = put up user (record { failures = 0; locked_until = 0 }) g

-- The failures of a list of times, one after the other.
pub fail_at : String → List ℕ → LoginGuard → LoginGuard
fail_at user [] g = g
fail_at user (t ∷ ts) g = fail_at user ts (record_failure true true user t g)

-- The time of the last failure, or the given one.
abbrev pub last_of : ℕ → List ℕ → ℕ
last_of t [] = t
last_of t (u ∷ us) = last_of u us

abbrev pub length : List ℕ → ℕ
length [] = 0
length (t ∷ ts) = suc (length ts)

abbrev pub audit_of : String → LoginGuard → Audit
audit_of user g = or_zero (lookup user g.audits)

audit_of-record_failure :
    (user u : String) (now : ℕ) (g : LoginGuard)
    → audit_of u (record_failure true true user now g) ≡ (
        if user =s= u
        then failed_audit g.max_failures g.lockout_secs (audit_of user g).failures now
        else audit_of u g)
unfolding record_failure
audit_of-record_failure user u now g = rw (lookup-insert user u _ g.audits) (ground arith)

audit_of_self :
    (user : String) (now : ℕ) (g : LoginGuard)
    → audit_of user (record_failure true true user now g)
      ≡ failed_audit g.max_failures g.lockout_secs (audit_of user g).failures now
audit_of_self user now g =
    audit_of-record_failure user user now g ∙ (rw ((eq_iff user user).1 refl) refl)

config_max :
    (user : String) (t : ℕ) (g : LoginGuard)
    → (record_failure true true user t g).max_failures ≡ g.max_failures
unfolding record_failure
config_max user t g = refl

config_secs :
    (user : String) (t : ℕ) (g : LoginGuard)
    → (record_failure true true user t g).lockout_secs ≡ g.lockout_secs
unfolding record_failure
config_secs user t g = refl

cleared :
    (user : String) (g : LoginGuard)
    → audit_of user (record_success true user g) ≡ record { failures = 0; locked_until = 0 }
unfolding record_success
cleared user g = rw (lookup-insert user user _ g.audits) (rw ((eq_iff user user).1 refl) refl)

-- What failures at the times `t ∷ ts` leave in the user's row: their number is added, and the lock
-- is set from the last of them if the number has reached the maximum.
pub audit_of-fail_at :
    (user : String) (t : ℕ) (ts : List ℕ) (g : LoginGuard)
    → audit_of user (fail_at user (t ∷ ts) g)
      ≡ failed_audit g.max_failures g.lockout_secs
          ((audit_of user g).failures + length ts)
          (last_of t ts)
unfolding fail_at
audit_of-fail_at user t [] g =
    audit_of_self user t g ∙ ap (λ n. failed_audit g.max_failures g.lockout_secs n t) (omega arith)
audit_of-fail_at user t (u ∷ us) g =
    audit_of-fail_at user u us (record_failure true true user t g)
    ∙ (rw (config_max user t g, config_secs user t g)
        (ap (λ n. failed_audit g.max_failures g.lockout_secs n (last_of u us))
          (rw (audit_of_self user t g) (unfold failed_audit in omega arith))))

-- After failures at the times `t ∷ ts` the login is held back exactly until the lockout time has
-- passed since the last of them, if they have brought the count to the maximum; else not at all.
pub check-fail_at :
    (user : String) (t : ℕ) (ts : List ℕ) (now : ℕ) (g : LoginGuard)
    → check true user now (fail_at user (t ∷ ts) g) ≡ (
        if leb g.max_failures ((audit_of user g).failures + length ts + 1)
          && ltb now (last_of t ts + g.lockout_secs)
        then some (last_of t ts + g.lockout_secs - now)
        else none)
unfolding check
check-fail_at user t ts now g =
    rw (audit_of-fail_at user t ts g) (unfold failed_audit in ground arith)

-- Failures of one user do not hold back another.
pub check-fail_at_ne :
    (user u : String) (ts : List ℕ) (now : ℕ) (g : LoginGuard)
    → (user =s= u) ≡ false
    → check true u now (fail_at user ts g) ≡ check true u now g
unfolding check fail_at
check-fail_at_ne user u [] now g h = refl
check-fail_at_ne user u (t ∷ ts) now g h =
    check-fail_at_ne user u ts now (record_failure true true user t g) h
    ∙ (rw (audit_of-record_failure user u t g) (rw h refl))

-- A success lets its user in at once and clears the count; then fewer failures than the maximum
-- do not lock.
pub success_clears :
    (user : String) (t : ℕ) (ts : List ℕ) (now : ℕ) (g : LoginGuard)
    → length ts + 1 < g.max_failures
    → (check true user now (record_success true user g) ≡ none)
      × (check true user now (fail_at user (t ∷ ts) (record_success true user g)) ≡ none)
success_clears user t ts now g h = (
  unfold check in rw (cleared user g) (ground arith),
  check-fail_at user t ts now (record_success true user g)
      ∙ (rw (cleared user g) (unfold record_success in ground arith)),
)
