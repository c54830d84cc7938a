-- ===== src/Subscription/Synced.antt =====
-- The cache against the table: the two agree as long as statements succeed, and a failed
-- statement leaves the table behind.
use json_scanner.Base.{
  String, ◌≡◌, ◌≢◌, refl, sym, ◌∙◌, inl, inr, Bool, true, false, not, ◌&&◌, some, List, [], ◌∷◌,
  ◌++◌, ◌=s=◌, eq_iff, arith, select, contains, if◌then◌else◌, Bool-cases,
}
use json_scanner.Base.Dict.{IsMap}
use json_scanner.Subscription.Store.{
  Row, Store, is_row, has_row, insert_row, exec, subscribe, unsubscribe, delete_user_subscriptions,
  delete_study_subscriptions, is_subscribed,
}
use json_scanner.Subscription.Memory.{
  is_subscribed-subscribe, is_subscribed-unsubscribe, is_subscribed-delete_user,
  is_subscribed-delete_study,
}
use json_scanner.Subscription.Shape.{
  Op, subscribing, unsubscribing, deleting_user, deleting_study, run_op, IsShaped,
}

-- The cache answers yes for exactly the rows of the table.
abbrev pub Agrees : List Row → Store → Type 0
Agrees rows s = (u k : String) → has_row u k rows ≡ is_subscribed s u k

-- What the statement of each operation does to the rows.
abbrev pub rows_after : Op → List Row → List Row
rows_after (subscribing u k) rows = insert_row u k rows
rows_after (unsubscribing u k) rows = select (λ r. not (is_row u k r)) rows
rows_after (deleting_user u) rows = select (λ r. not (r.user_id =s= u)) rows
rows_after (deleting_study k) rows = select (λ r. not (r.study_key =s= k)) rows

exec-up :
    (f : List Row → List Row) (s : Store) (rows : List Row)
    → s.rows ≡ some rows
    → (exec true f s).0.rows ≡ some (f rows)
unfolding exec
exec-up f s rows h = rw (h, exec) refl

contains-snoc :
    {A : Type 0} (p : A → Bool) (x : A) (xs : List A)
    → contains p (xs ++ (x ∷ [])) ≡ (if contains p xs then true else p x)
contains-snoc p x [] = ground arith
contains-snoc p x (y ∷ xs) = ground (arith, contains-snoc p x xs)

has_row-insert_row :
    (u k u' k' : String) (rows : List Row)
    → has_row u' k' (insert_row u k rows)
      ≡ (if u =s= u' && k =s= k' then true else has_row u' k' rows)
unfolding insert_row
has_row-insert_row u k u' k' rows = elim (Bool-cases (has_row u k rows)) [
  | inl e ↦
      rw e
        (elim (Bool-cases (u =s= u' && k =s= k')) [ inl q ↦ rw q (same q e) | inr q ↦ rw q refl ])
  | inr e ↦ rw e (
      rw (contains-snoc (is_row u' k') (record { user_id = u; study_key = k }) rows) (ground arith))
]
  where
    same : (u =s= u' && k =s= k') ≡ true → has_row u k rows ≡ true → has_row u' k' rows ≡ true
    same q e =
        let p : u ≡ u' = ground (arith, eq_iff u u') in
        let r : k ≡ k' = ground (arith, eq_iff k k') in rw (sym p, sym r) e

has_row-delete_pair :
    (u k u' k' : String) (rows : List Row)
    → has_row u' k' (select (λ r. not (is_row u k r)) rows)
      ≡ (if u =s= u' && k =s= k' then false else has_row u' k' rows)
has_row-delete_pair u k u' k' [] = ground arith
has_row-delete_pair u k u' k' (r ∷ rows) = ground (
  arith,
  eq_iff u u',
  eq_iff k k',
  eq_iff r.user_id u,
  eq_iff r.study_key k,
  eq_iff r.user_id u',
  eq_iff r.study_key k',
  has_row-delete_pair u k u' k' rows,
)

has_row-delete_user :
    (u u' k' : String) (rows : List Row)
    → has_row u' k' (select (λ r. not (r.user_id =s= u)) rows)
      ≡ (if u =s= u' then false else has_row u' k' rows)
has_row-delete_user u u' k' [] = ground arith
has_row-delete_user u u' k' (r ∷ rows) =
    ground (
      arith,
      eq_iff u u',
      eq_iff r.user_id u,
      eq_iff r.user_id u',
      has_row-delete_user u u' k' rows,
    )

has_row-delete_study :
    (k u' k' : String) (rows : List Row)
    → has_row u' k' (select (λ r. not (r.study_key =s= k)) rows)
      ≡ (if k =s= k' then false else has_row u' k' rows)
has_row-delete_study k u' k' [] = ground arith
has_row-delete_study k u' k' (r ∷ rows) = ground (
  arith,
  eq_iff k k',
  eq_iff r.study_key k,
  eq_iff r.study_key k',
  has_row-delete_study k u' k' rows,
)

run_op-rows :
    (op : Op) (s : Store) (rows : List Row)
    → s.rows ≡ some rows
    → (run_op true op s).0.rows ≡ some (rows_after op rows)
unfolding run_op subscribe unsubscribe delete_user_subscriptions delete_study_subscriptions
run_op-rows (subscribing u k) s rows h = exec-up _ _ rows h
run_op-rows (unsubscribing u k) s rows h = exec-up _ _ rows h
run_op-rows (deleting_user u) s rows h = exec-up _ _ rows h
run_op-rows (deleting_study k) s rows h = exec-up _ _ rows h

run_op-Agrees :
    (op : Op) (s : Store) (rows : List Row)
    → IsMap s.subs
    → Agrees rows s
    → Agrees (rows_after op rows) (run_op true op s).0
unfolding run_op
run_op-Agrees (subscribing u k) s rows m h u' k' =
    has_row-insert_row u k u' k' rows
    ∙ (rw (h u' k') (sym (is_subscribed-subscribe true u k u' k' s)))
run_op-Agrees (unsubscribing u k) s rows m h u' k' =
    has_row-delete_pair u k u' k' rows
    ∙ (rw (h u' k') (sym (is_subscribed-unsubscribe true u k u' k' s)))
run_op-Agrees (deleting_user u) s rows m h u' k' =
    has_row-delete_user u u' k' rows
    ∙ (rw (h u' k') (sym (is_subscribed-delete_user true u u' k' s)))
run_op-Agrees (deleting_study k) s rows m h u' k' =
    has_row-delete_study k u' k' rows
    ∙ (rw (h u' k') (sym (is_subscribed-delete_study true k u' k' s m)))

-- From a shaped store whose cache agrees with its table, every operation whose statement succeeds
-- gives a table that is `rows_after` of the old one, and a cache that agrees with it.
pub run_op-synced :
    (op : Op) (s : Store) (rows : List Row)
    → IsShaped s.subs
    → s.rows ≡ some rows
    → Agrees rows s
    → ((run_op true op s).0.rows ≡ some (rows_after op rows))
      × Agrees (rows_after op rows) (run_op true op s).0
run_op-synced op s rows v h a = (run_op-rows op s rows h, run_op-Agrees op s rows v.one_entry a)

-- Where the statement of a new subscription fails, the caller gets an error and the table keeps
-- its rows, and the cache answers yes all the same: cache and table no longer agree.
pub subscribe_failed_disagrees :
    (u k : String) (s : Store) (rows : List Row)
    → s.rows ≡ some rows
    → Agrees rows s
    → is_subscribed s u k ≡ false
    → ((subscribe false u k s).1 ≡ false)
      × ((subscribe false u k s).0.rows ≡ some rows)
      × (is_subscribed (subscribe false u k s).0 u k ≢ has_row u k rows)
unfolding subscribe exec
subscribe_failed_disagrees u k s rows h a n =
    (rw (h, exec) refl, rw (h, exec) h, (λ e. yes_is_no (sym (says_yes) ∙ (e ∙ (a u k ∙ n)))))
  where
    says_yes : is_subscribed (subscribe false u k s).0 u k ≡ true
    says_yes = is_subscribed-subscribe false u k u k s ∙ (ground (arith, eq_iff u u, eq_iff k k))

    yes_is_no : true ≡ false → ⊥
    yes_is_no q = cc
