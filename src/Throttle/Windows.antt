-- ===== src/Throttle/Windows.antt =====
-- The counting windows over the rate table, and the daily counter.
use json_scanner.Base.{
  ℕ, ◌+◌, ◌≤◌, String, ◌≡◌, refl, sym, inl, inr, Bool, true, false, ◌&&◌, List, [], ◌∷◌, ◌++◌,
  ◌=s=◌, ltb, eq_iff, arith, count, if◌then◌else◌, Bool-cases,
}
use json_scanner.Throttle.Tables.{
  RateRow, UsageRow, recent, record_call, drop_old, upsert, usage_of, is_usage, new_usage,
}

count-snoc :
    {A : Type 0} (p : A → Bool) (xs : List A) (x : A)
    → count p (xs ++ (x ∷ [])) ≡ count p xs + (if p x then 1 else 0)
count-snoc p [] x = ground arith
count-snoc p (y ∷ xs) x = ground (arith, count-snoc p xs x)

-- A call counts in each window of its user that reaches back to it.
pub recent-record_call :
    (u v : String) (w t now : ℕ) (rows : List RateRow)
    → recent u w t (record_call v now rows)
      ≡ recent u w t rows + (if v =s= u && ltb t (now + w) then 1 else 0)
unfolding recent record_call
recent-record_call u v w t now rows =
    count-snoc (λ r. r.user_id =s= u && ltb t (r.timestamp + w)) rows
      (record { user_id = v; timestamp = now })

-- The clean-up deletes no call that a window of an hour or less would count, now or later.
pub recent-drop_old :
    (u : String) (w t now : ℕ) (rows : List RateRow)
    → w ≤ 3600
    → now ≤ t
    → recent u w t (drop_old now rows) ≡ recent u w t rows
unfolding recent drop_old
recent-drop_old u w t now [] hw ht = refl
recent-drop_old u w t now (r ∷ rows) hw ht = ground (arith, recent-drop_old u w t now rows hw ht)

-- A window that has moved on counts no more.
pub recent_mono :
    (u : String) (w t t' : ℕ) (rows : List RateRow)
    → t ≤ t'
    → recent u w t' rows ≤ recent u w t rows
unfolding recent
recent_mono u w t t' [] h = omega arith
recent_mono u w t t' (r ∷ rows) h = ground (arith, recent_mono u w t t' rows h)

-- A change of counters keeps the row's key.
pub record KeepsKey (bump : UsageRow → UsageRow) : Type 0 where
  pub user : (r : UsageRow) → (bump r).user_id ≡ r.user_id
  pub date : (r : UsageRow) → (bump r).date ≡ r.date

usage_of-cons :
    (u d : String) (r : UsageRow) (rows : List UsageRow)
    → usage_of u d (r ∷ rows) ≡ (if is_usage u d r then r else usage_of u d rows)
unfolding usage_of
usage_of-cons u d r rows = elim (Bool-cases (is_usage u d r)) [
  | inl e ↦ rw e refl
  | inr e ↦ rw e refl
]

-- A row of one key has another exactly when the keys are the same.
key_of_row :
    (u d u' d' : String) (r : UsageRow)
    → is_usage u d r ≡ true
    → is_usage u' d' r ≡ (u =s= u' && d =s= d')
key_of_row u d u' d' r e =
    let p : r.user_id ≡ u = ground (arith, eq_iff r.user_id u) in
    let q : r.date ≡ d = ground (arith, eq_iff r.date d) in rw (p, q) refl

other_row :
    (u d u' d' : String) (r : UsageRow)
    → is_usage u d r ≡ false
    → (u =s= u' && d =s= d') ≡ true
    → is_usage u' d' r ≡ false
other_row u d u' d' r e h =
    let p : u ≡ u' = ground (arith, eq_iff u u') in
    let q : d ≡ d' = ground (arith, eq_iff d d') in rw (sym p, sym q) e

bumped_key :
    (bump : UsageRow → UsageRow) (u d : String) (r : UsageRow)
    → KeepsKey bump
    → is_usage u d (bump r) ≡ is_usage u d r
bumped_key bump u d r k = rw (k.user r, k.date r) refl

-- An upsert bumps the counters of its user on its day, from zeros where there is no row, and no
-- others.
pub usage_of-upsert :
    (bump : UsageRow → UsageRow) (u d u' d' : String) (rows : List UsageRow)
    → KeepsKey bump
    → usage_of u' d' (upsert bump u d rows)
      ≡ (if u =s= u' && d =s= d' then bump (usage_of u' d' rows) else usage_of u' d' rows)
unfolding upsert
usage_of-upsert bump u d u' d' [] k =
    rw (usage_of-cons u' d' (bump (new_usage u d)) [], bumped_key bump u' d' (new_usage u d) k)
      (elim (Bool-cases (u =s= u' && d =s= d')) [
        | inl e ↦ rw e (
            let p : u ≡ u' = ground (arith, eq_iff u u') in
            let q : d ≡ d' = ground (arith, eq_iff d d') in unfold usage_of in rw (p, q) refl)
        | inr e ↦ rw e refl
      ])
usage_of-upsert bump u d u' d' (r ∷ rows) k = elim (Bool-cases (is_usage u d r)) [
  | inl e ↦ rw e (
      rw
        (
          usage_of-cons u' d' (bump r) rows,
          usage_of-cons u' d' r rows,
          bumped_key bump u' d' r k,
          key_of_row u d u' d' r e,
        )
        (same (u =s= u' && d =s= d')))
  | inr e ↦ rw e (
      rw
        (
          usage_of-cons u' d' r (upsert bump u d rows),
          usage_of-cons u' d' r rows,
          usage_of-upsert bump u d u' d' rows k,
        )
        (elim (Bool-cases (u =s= u' && d =s= d')) [
          | inl h ↦ rw (h, other_row u d u' d' r e h) refl
          | inr h ↦ rw h refl
        ]))
]
  where
    same :
        (b : Bool)
        → (if b then bump r else usage_of u' d' rows) ≡ (
            if b
            then bump (if b then r else usage_of u' d' rows)
            else if b
            then r
            else usage_of u' d' rows)
    same true = refl
    same false = refl
