-- ===== src/Subscription/Store.antt =====
-- The store's state and its operations (internal/study/subscription.go).
use json_scanner.Base.{
  ℕ, ◌+◌, String, Bool, true, false, not, ◌&&◌, Option, none, some, List, [], ◌∷◌, ◌++◌, ◌=s=◌,
  ◌==◌, length, select, contains, if◌then◌else◌,
}
use json_scanner.Base.Dict.{Dict, lookup, insert, delete}

-- A row of the table, and an item of an export.
pub record Row : Type 0 where
  pub user_id : String
  pub study_key : String

pub record Store : Type 0 where
  pub rows : Option (List Row)  -- none where there is no database
  pub subs : Dict (Dict Bool)

abbrev pub is_row : String → String → Row → Bool
is_row u k r = r.user_id =s= u && r.study_key =s= k

abbrev pub has_row : String → String → List Row → Bool
has_row u k rows = contains (is_row u k) rows

-- INSERT OR IGNORE
unfoldable pub insert_row : String → String → List Row → List Row
insert_row u k rows =
    if has_row u k rows then rows else rows ++ (record { user_id = u; study_key = k } ∷ [])

-- A statement on the table, if there is one; the flag is false where the source sees an error.
unfoldable pub exec : Bool → (List Row → List Row) → Store → Store × Bool
exec up f s = elim s.rows [
  | none ↦ (s, true)
  | some rows ↦ if up then (record s { rows = some (f rows) }, true) else (s, false)
]

-- `subs[u]`, or the fresh map that is stored where it is nil.
abbrev pub inner : Option (Dict Bool) → Dict Bool
inner none = []
inner (some m) = m

unfoldable pub remember : String → String → Dict (Dict Bool) → Dict (Dict Bool)
remember u k subs = insert u (insert k true (inner (lookup u subs))) subs

-- `delete(subs[u], k)`, and `delete(subs, u)` where nothing is left.
unfoldable pub forget_in : String → Dict Bool → Dict (Dict Bool) → Dict (Dict Bool)
forget_in u m subs = if length m == 0 then delete u subs else insert u m subs

unfoldable pub forget : String → String → Dict (Dict Bool) → Dict (Dict Bool)
unfolding forget_in
forget u k subs = elim (lookup u subs) [ none ↦ subs | some m ↦ forget_in u (delete k m) subs ]

-- The loop of `DeleteStudySubscriptions`.
unfoldable pub forget_study : String → Dict (Dict Bool) → Dict (Dict Bool)
forget_study k [] = []
forget_study k ((u, m) ∷ rest) =
    let kept = forget_study k rest in
    let m' = delete k m in if length m' == 0 then kept else (u, m') ∷ kept

unfoldable pub subscribe : Bool → String → String → Store → Store × Bool
unfolding remember
subscribe up u k s = exec up (insert_row u k) (record s { subs = remember u k s.subs })

unfoldable pub unsubscribe : Bool → String → String → Store → Store × Bool
unsubscribe up u k s =
    exec up (select (λ r. not (is_row u k r))) (record s { subs = forget u k s.subs })

unfoldable pub delete_user_subscriptions : Bool → String → Store → Store × Bool
delete_user_subscriptions up u s =
    exec up (select (λ r. not (r.user_id =s= u))) (record s { subs = delete u s.subs })

unfoldable pub delete_study_subscriptions : Bool → String → Store → Store × Bool
delete_study_subscriptions up k s =
    exec up (select (λ r. not (r.study_key =s= k))) (record s { subs = forget_study k s.subs })

-- `m[k]` of a Go map of booleans.
abbrev pub or_false : Option Bool → Bool
or_false none = false
or_false (some b) = b

abbrev pub listed : String → Option (Dict Bool) → Bool
listed k none = false
listed k (some m) = or_false (lookup k m)

unfoldable pub is_subscribed : Store → String → String → Bool
is_subscribed s u k = listed k (lookup u s.subs)

abbrev pub keys {ℓ} : {V : Type ℓ} → Dict V → List String
keys [] = []
keys ((k, v) ∷ m) = k ∷ keys m

unfoldable pub get_user_subscriptions : Store → String → List String
get_user_subscriptions s u = keys (inner (lookup u s.subs))

subscribers_in : String → Dict (Dict Bool) → List String
subscribers_in k [] = []
subscribers_in k ((u, m) ∷ rest) =
    let users = subscribers_in k rest in if or_false (lookup k m) then u ∷ users else users

unfoldable pub get_study_subscribers : Store → String → List String
unfolding subscribers_in
get_study_subscribers s k = subscribers_in k s.subs

count_in : Dict (Dict Bool) → ℕ
count_in [] = 0
count_in ((u, m) ∷ rest) = length m + count_in rest

unfoldable pub count_all : Store → ℕ
unfolding count_in
count_all s = count_in s.subs

-- The rows of an export: every key of every user.
rows_of : String → List String → List Row
rows_of u [] = []
rows_of u (k ∷ ks) = record { user_id = u; study_key = k } ∷ rows_of u ks

unfoldable pub export_rows : Dict (Dict Bool) → List Row
unfolding rows_of
export_rows [] = []
export_rows ((u, m) ∷ rest) = rows_of u (keys m) ++ export_rows rest

-- The loop of `loadFromSQL` and of the JSONL import, over the rows that were read.
unfoldable pub load_rows : List Row → Dict (Dict Bool) → Dict (Dict Bool)
unfolding remember
load_rows [] subs = subs
load_rows (r ∷ rs) subs = load_rows rs (remember r.user_id r.study_key subs)

-- `seedSQL`; `up` says of each statement whether the driver carries it out, and an error is
-- ignored.
unfoldable pub seed_rows : (Row → Bool) → List Row → List Row → List Row
unfolding insert_row
seed_rows up [] rows = rows
seed_rows up (r ∷ rs) rows =
    seed_rows up rs (if up r then insert_row r.user_id r.study_key rows else rows)

-- `OpenSubscriptionStoreWithDB` once the table and the file have been read: the table wins, and an
-- empty table is seeded from the file.
unfoldable pub open_store : (Row → Bool) → Option (List Row) → List Row → Store
unfolding load_rows seed_rows export_rows
open_store up none file = record { rows = none; subs = load_rows file [] }
open_store up (some rows) file =
    let loaded = load_rows rows [] in
    let seeded = load_rows file [] in
    if length loaded == 0
    then record { rows = some (seed_rows up (export_rows seeded) rows); subs = seeded }
    else record { rows = some rows; subs = loaded }

-- The loop of `ImportJSON`: an item whose statement fails is not counted.
unfoldable pub import_from : (Row → Bool) → List Row → Store → ℕ → Store × ℕ
unfolding subscribe
import_from up [] s imported = (s, imported)
import_from up (r ∷ rs) s imported =
    let (s', done) = subscribe (up r) r.user_id r.study_key s in
    import_from up rs s' (if done then imported + 1 else imported)
