-- ===== src/Throttle/Overrides.antt =====
-- Overrides of a user's limits, quotas on resources, and the daily counters.
use json_scanner.Base.{
  ℕ, String, ◌≡◌, refl, ap, inl, inr, Bool, true, false, ◌&&◌, some, List, [], ◌∷◌, ◌=s=◌, eq_iff,
  arith, find_first, if◌then◌else◌, Bool-cases,
}
use json_scanner.Base.Result.{ok}
use json_scanner.Roles.{Limits, Decoders}
use json_scanner.Throttle.Tables.{LimitsRow, Db, put_limits, usage_of, upsert, add_api_call}
use json_scanner.Throttle.Limiter.{
  Statement, limits_query, limits_upsert, rate_insert, usage_upsert, role_of_user, override_of,
  get_effective_limits, set_user_limits, track_api_usage,
}
use json_scanner.Throttle.Windows.{KeepsKey, usage_of-upsert}

find-put_limits :
    (new : LimitsRow) (u : String) (rows : List LimitsRow)
    → find_first (λ r. r.user_id =s= u) (put_limits new rows)
      ≡ (if new.user_id =s= u then some new else find_first (λ r. r.user_id =s= u) rows)
unfolding put_limits
find-put_limits new u [] = refl
find-put_limits new u (r ∷ rows) = elim (Bool-cases (r.user_id =s= new.user_id)) [
  | inl e ↦ rw (e, same_test ((eq_iff _ _).0 e)) (same (new.user_id =s= u))
  | inr e ↦ rw e (rw (find-put_limits new u rows) (other e))
]
  where
    same_test : r.user_id ≡ new.user_id → (r.user_id =s= u) ≡ (new.user_id =s= u)
    same_test p = ap (λ x. x =s= u) p

    same :
        (b : Bool)
        → (if b then some new else find_first (λ r. r.user_id =s= u) rows)
          ≡ (if b then some new else if b then some r else find_first (λ r. r.user_id =s= u) rows)
    same true = refl
    same false = refl

    other :
        (r.user_id =s= new.user_id) ≡ false
        → (if r.user_id =s= u
            then some r
            else if new.user_id =s= u
            then some new
            else find_first (λ q. q.user_id =s= u) rows)
          ≡ (if new.user_id =s= u
              then some new
              else if r.user_id =s= u
              then some r
              else find_first (λ q. q.user_id =s= u) rows)
    other e = ground (arith, eq_iff r.user_id u, eq_iff new.user_id u, eq_iff r.user_id new.user_id)

override_of-put_limits :
    (dec : Decoders) (up : Statement → Bool) (new : LimitsRow) (u : String) (db : Db)
    → up limits_query ≡ true
    → override_of dec up (record db { user_limits = put_limits new db.user_limits }) u
      ≡ (if new.user_id =s= u then dec.limits new.limits_json else override_of dec up db u)
unfolding override_of
override_of-put_limits dec up new u db h =
    rw (h, find-put_limits new u db.user_limits)
      (elim (Bool-cases (new.user_id =s= u)) [ inl e ↦ rw e refl | inr e ↦ rw e refl ])

set_user_limits_lem :
    (up : Statement → Bool) (encode : Limits → String) (user : String) (l : Limits) (now : ℕ)
    (db : Db)
    → up limits_upsert ≡ true
    → (set_user_limits up encode user l now db).0 ≡ record db {
      user_limits =
          put_limits
            (record { user_id = user; limits_json = encode l; updated_at = now })
            db.user_limits;
    }
unfolding set_user_limits
set_user_limits_lem up encode user l now db h = rw h refl

-- Limits that were set for a user are the user's effective limits, whatever the role says, and no
-- other user's limits change, given that the JSON decoder reads these limits
-- back from what the encoder wrote of them.
pub get_effective_limits-set_user_limits :
    (dec : Decoders) (encode : Limits → String) (up up' : Statement → Bool) (user u : String)
    (l : Limits) (now : ℕ) (db : Db)
    → dec.limits (encode l) ≡ some l
    → up limits_upsert ≡ true
    → up' limits_query ≡ true
    → get_effective_limits dec up' (set_user_limits up encode user l now db).0 u
      ≡ (if user =s= u then ok l else get_effective_limits dec up' db u)
unfolding get_effective_limits role_of_user
get_effective_limits-set_user_limits dec encode up up' user u l now db codec h h' =
    let new : LimitsRow = record { user_id = user; limits_json = encode l; updated_at = now } in
    rw (set_user_limits_lem up encode user l now db h) (
      rw (override_of-put_limits dec up' new u db h')
        (elim (Bool-cases (user =s= u)) [ inl e ↦ rw (e, codec) refl | inr e ↦ rw e refl ]))

add_api_call-KeepsKey : KeepsKey add_api_call
add_api_call-KeepsKey = record { user = λ r. refl; date = λ r. refl }

-- A tracked call adds one to its user's calls of its day, and leaves every other counter.
pub usage_of-track :
    (up : Statement → Bool) (u v d d' : String) (now : ℕ) (db : Db)
    → up rate_insert ≡ true
    → up usage_upsert ≡ true
    → usage_of v d' (track_api_usage up u now d db).0.usage_tracking ≡ (
        if u =s= v && d =s= d'
        then add_api_call (usage_of v d' db.usage_tracking)
        else usage_of v d' db.usage_tracking)
unfolding track_api_usage
usage_of-track up u v d d' now db a b =
    rw (table_after a b)
      (usage_of-upsert add_api_call u d v d' db.usage_tracking add_api_call-KeepsKey)
  where
    table_after :
        up rate_insert ≡ true
        → up usage_upsert ≡ true
        → (track_api_usage up u now d db).0.usage_tracking
          ≡ upsert add_api_call u d db.usage_tracking
    table_after a' b' = ground arith
