-- ===== src/Subscription/Opened.antt =====
-- A store that was opened on a table, and what any run of operations makes of it
-- (`OpenSubscriptionStoreWithDB` and `loadFromSQL` of internal/study/subscription.go).
use json_scanner.Base.{
  String, ◌≡◌, refl, sym, ◌∙◌, Bool, true, false, ◌&&◌, ◌||◌, none, some, List, [], ◌∷◌, ◌=s=◌,
  ◌==◌, arith, length, if◌then◌else◌,
}
use json_scanner.Base.Dict.{Dict, lookup}
use json_scanner.Subscription.Store.{
  Row, Store, has_row, exec, remember, listed, is_subscribed, subscribe, load_rows, open_store,
}
use json_scanner.Subscription.Memory.{is_subscribed-subscribe}
use json_scanner.Subscription.Shape.{
  IsShaped, Op, run_op, run_op-IsShaped, load_rows-IsShaped, insert-nonempty,
}
use json_scanner.Subscription.Synced.{Agrees, rows_after, run_op-synced}

listed-remember :
    (u k u' k' : String) (subs : Dict (Dict Bool))
    → listed k' (lookup u' (remember u k subs))
      ≡ (if u =s= u' && k =s= k' then true else listed k' (lookup u' subs))
listed-remember u k u' k' subs =
    unfold is_subscribed subscribe exec in
    is_subscribed-subscribe true u k u' k' (record { rows = none; subs = subs })

-- The cache after the rows were read: what they say, or what it said before.
listed-load_rows :
    (u k : String) (rows : List Row) (subs : Dict (Dict Bool))
    → listed k (lookup u (load_rows rows subs)) ≡ (has_row u k rows || listed k (lookup u subs))
unfolding load_rows
listed-load_rows u k [] subs = refl
listed-load_rows u k (r ∷ rows) subs = ground (
  arith,
  listed-load_rows u k rows (remember r.user_id r.study_key subs),
  listed-remember r.user_id r.study_key u k subs,
)

nonempty-load_rows :
    (rows : List Row) (subs : Dict (Dict Bool))
    → (length subs == 0) ≡ false
    → (length (load_rows rows subs) == 0) ≡ false
unfolding load_rows remember
nonempty-load_rows [] subs h = h
nonempty-load_rows (r ∷ rows) subs h = nonempty-load_rows rows _ (insert-nonempty r.user_id _ subs)

open_store_lem :
    (up : Row → Bool) (r : Row) (rows file : List Row)
    → open_store up (some (r ∷ rows)) file
      ≡ record { rows = some (r ∷ rows); subs = load_rows (r ∷ rows) [] }
unfolding open_store
open_store_lem up r rows file = rw (some_entry) refl
  where
    some_entry : (length (load_rows (r ∷ rows) []) == 0) ≡ false
    some_entry =
        unfold load_rows remember in nonempty-load_rows rows _ (insert-nonempty r.user_id _ [])

-- Operations whose statements succeed, one after the other, on the store and on the rows.
pub run_ops : List Op → Store → Store
run_ops [] s = s
run_ops (op ∷ ops) s = run_ops ops (run_op true op s).0

pub rows_after_all : List Op → List Row → List Row
rows_after_all [] rows = rows
rows_after_all (op ∷ ops) rows = rows_after_all ops (rows_after op rows)

run_ops-synced :
    (ops : List Op) (s : Store) (rows : List Row)
    → IsShaped s.subs
    → s.rows ≡ some rows
    → Agrees rows s
    → ((run_ops ops s).rows ≡ some (rows_after_all ops rows))
      × Agrees (rows_after_all ops rows) (run_ops ops s)
unfolding run_ops rows_after_all
run_ops-synced [] s rows v h a = (h, a)
run_ops-synced (op ∷ ops) s rows v h a =
    let (e, b) = run_op-synced op s rows v h a in
    run_ops-synced ops (run_op true op s).0 (rows_after op rows) (run_op-IsShaped true op s v) e b

opened-Agrees :
    (r : Row) (rows : List Row)
    → Agrees (r ∷ rows) (record { rows = some (r ∷ rows); subs = load_rows (r ∷ rows) [] })
unfolding is_subscribed lookup
opened-Agrees r rows u k =
    sym (listed-load_rows u k (r ∷ rows) [] ∙ no_more (has_row u k (r ∷ rows)))
  where
    no_more : (b : Bool) → (b || false) ≡ b
    no_more true = refl
    no_more false = refl

-- A store is opened on a table that has rows, whatever the file says, and operations follow whose
-- statements succeed: the table has the rows that the operations make of the old ones, and the
-- cache answers yes for exactly those rows.
pub open_store-synced :
    (up : Row → Bool) (r : Row) (rows file : List Row) (ops : List Op)
    → ((run_ops ops (open_store up (some (r ∷ rows)) file)).rows
        ≡ some (rows_after_all ops (r ∷ rows)))
      × Agrees (rows_after_all ops (r ∷ rows)) (run_ops ops (open_store up (some (r ∷ rows)) file))
open_store-synced up r rows file ops = rw (open_store_lem up r rows file) (
    run_ops-synced ops _ (r ∷ rows)
      (load_rows-IsShaped (r ∷ rows) [] (record { one_entry = tt; has_studies = tt })) refl
      (opened-Agrees r rows))
