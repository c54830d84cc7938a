-- ===== src/User/Store.antt =====
-- The user store (internal/user/user.go): the list, the map by id and the SQL table. `up` says
-- whether the driver carries a statement out.
use json_scanner.Base.{
  ℕ, suc, String, Bool, true, false, not, ◌||◌, Option, none, some, List, [], ◌∷◌, ◌++◌, ◌=s=◌,
  find_first, contains, if◌then◌else◌,
}
use json_scanner.Base.Dict.{Dict, lookup, insert, delete, is_some}
use json_scanner.Base.Keyed.{has_key, replace_first, drop_key}
use json_scanner.Base.Result.{Result, ok, err}
use json_scanner.Base.Text.{trim_text}
use json_scanner.User.{User}
use json_scanner.User.Registry.{Registry, LoadError, load_jsonl, with_defaults}

pub record UserRow : Type 0 where
  pub id : String
  pub name : String
  pub role_id : String
  pub pass_hash : String
  pub disabled : Bool
  pub nlp_enabled : Bool
  pub nlp_daily_limit : ℕ

-- `db` is none where the store was opened without a database. The rows are under their ids.
pub record UserStore : Type 0 where
  pub db : Option (Dict UserRow)
  pub all : List User
  pub by_id : Dict User

pub data UserError : Type 0 where
  id_required statement_failed unreadable_file bad_items : UserError
  user_exists user_not_found : String → UserError
  bad_file : LoadError → UserError

abbrev pub id_of : User → String
id_of u = u.id

unfoldable pub has_password : User → Bool
has_password u = not (u.pass_hash =s= "") || not (u.pass_sha256 =s= "")

-- The row that `saveToSQL` writes.
unfoldable pub row_of : User → UserRow
row_of u = record {
  id = u.id;
  name = u.name;
  role_id = if u.role_id =s= "" then (if u.role =s= "" then "user" else u.role) else u.role_id;
  pass_hash = u.pass_hash;
  disabled = u.disabled;
  nlp_enabled = u.nlp_enabled;
  nlp_daily_limit = u.nlp_daily_limit;
}

-- The user that `loadFromSQL` makes of a row.
unfoldable pub user_of : UserRow → User
user_of r = record {
  id = r.id;
  name = r.name;
  tier = "";
  role = r.role_id;
  role_id = r.role_id;
  groups = [];
  pass_hash = r.pass_hash;
  pass_sha256 = "";
  disabled = r.disabled;
  nlp_enabled = r.nlp_enabled;
  nlp_daily_limit = r.nlp_daily_limit;
}

unfoldable pub save_to_sql : Bool → User → UserStore → UserStore × Option UserError
unfolding row_of
save_to_sql up u s = elim s.db [
  | none ↦ (s, none)
  | some rows ↦
      if up
      then (record s { db = some (insert u.id (row_of u) rows) }, none)
      else (s, some statement_failed)
]

unfoldable pub append_all : List User → UserStore → UserStore
append_all [] s = s
append_all (u ∷ rest) s =
    append_all rest (record s { all = s.all ++ (u ∷ []); by_id = insert u.id u s.by_id })

abbrev pub users_of : List UserRow → List User
users_of [] = []
users_of (r ∷ rest) = user_of r ∷ users_of rest

-- `loadFromSQL`: the rows that the query gave before it ended.
unfoldable pub load_from_sql : List UserRow → UserStore → UserStore
unfolding append_all user_of
load_from_sql rows s = append_all (users_of rows) s

pub data File : Type 0 where
  missing unreadable : File
  lines : List (List ℕ) → File

abbrev pub append_loaded : UserStore → Result LoadError Registry → UserStore × Option UserError
append_loaded s (err e) = (s, some (bad_file e))
append_loaded s (ok reg) = (append_all reg.all s, none)

unfoldable pub import_jsonl_file :
    (List ℕ → Option User) → File → UserStore → UserStore × Option UserError
unfolding append_all
import_jsonl_file decode missing s = (s, none)
import_jsonl_file decode unreadable s = (s, some unreadable_file)
import_jsonl_file decode (lines ls) s = append_loaded s (load_jsonl decode ls)

abbrev pub opened : UserStore × Option UserError → Result UserError UserStore
opened (s, none) = ok s
opened (s, some e) = err e

abbrev pub empty_store : Option (Dict UserRow) → UserStore
empty_store db = record { db = db; all = []; by_id = [] }

-- `OpenStore`
unfoldable pub open_store : (List ℕ → Option User) → File → Result UserError UserStore
unfolding import_jsonl_file
open_store decode file = opened (import_jsonl_file decode file (empty_store none))

-- The loop of `OpenStoreWithDB` that writes what was imported and drops the errors.
unfoldable pub save_all : (ℕ → Bool) → List User → UserStore → UserStore
unfolding save_to_sql
save_all up [] s = s
save_all up (u ∷ rest) s = save_all (λ n. up (suc n)) rest (save_to_sql (up 0) u s).0

abbrev pub seeded : (ℕ → Bool) → UserStore × Option UserError → Result UserError UserStore
seeded up (s, none) = ok (save_all up s.all s)
seeded up (s, some e) = err e

abbrev pub is_nil : List User → Bool
is_nil [] = true
is_nil (u ∷ rest) = false

-- Does `OpenStoreWithDB` drop what the table gave and take the file?
unfoldable pub needs_file : Bool → List User → Bool
unfolding has_password
needs_file answered users =
    not answered || is_nil users || contains (λ u. not (has_password u)) users

-- `OpenStoreWithDB`: `answer` are the rows that the query gave before it ended, `answered` whether
-- it ended without an error, and the file is none where no path was given.
unfoldable pub open_store_with_db :
    (decode : List ℕ → Option User)
    → (table : Dict UserRow) → (answer : List UserRow) → (answered : Bool) → (file : Option File)
    → (up : ℕ → Bool) → Result UserError UserStore
unfolding load_from_sql import_jsonl_file save_all needs_file
open_store_with_db decode table answer answered file up =
    let s = load_from_sql answer (empty_store (some table)) in
    if needs_file answered s.all
    then elim file [
      | none ↦ ok s
      | some f ↦ seeded up (import_jsonl_file decode f (empty_store (some table)))
    ]
    else ok s

unfoldable pub find : String → UserStore → Option User
find id s = lookup id s.by_id

unfoldable pub create : Bool → User → UserStore → UserStore × Option UserError
unfolding with_defaults save_to_sql
create up u s =
    let v = with_defaults u in
    if trim_text u.id =s= ""
    then (s, some id_required)
    else if is_some (lookup u.id s.by_id)
    then (s, some (user_exists u.id))
    else save_to_sql up v (record s { all = s.all ++ (v ∷ []); by_id = insert v.id v s.by_id })

-- What the setters hand to `mutate`.
pub data Change : Type 0 where
  set_disabled set_nlp_enabled : Bool → Change
  set_name set_tier set_role set_password : String → Change
  set_groups : List String → Change
  set_nlp_daily_limit : ℕ → Change

-- A password comes as its digest, as `SetPassword` stores it.
unfoldable pub changed : Change → User → User
changed (set_disabled b) u = record u { disabled = b }
changed (set_nlp_enabled b) u = record u { nlp_enabled = b }
changed (set_name t) u = record u { name = t }
changed (set_tier t) u = record u { tier = t }
changed (set_role t) u = record u { role = t }
changed (set_password t) u = record u { pass_hash = t; pass_sha256 = "" }
changed (set_groups gs) u = record u { groups = gs }
changed (set_nlp_daily_limit n) u = record u { nlp_daily_limit = n }

abbrev pub put_changed : Bool → String → User → UserStore → UserStore × Option UserError
put_changed up id u s =
    save_to_sql up u (record s { all = replace_first id_of u s.all; by_id = insert id u s.by_id })

abbrev pub change_found :
    Bool → String → Change → UserStore → Option User → UserStore × Option UserError
change_found up id c s none = (s, some (user_not_found id))
change_found up id c s (some u) = put_changed up id (changed c u) s

unfoldable pub mutate : Bool → String → Change → UserStore → UserStore × Option UserError
unfolding changed save_to_sql
mutate up id c s = change_found up id c s (find_first (has_key id_of id) s.all)

abbrev pub delete_row : Bool → String → Option (Dict UserRow) → Option (Dict UserRow) × Bool
delete_row up id none = (none, true)
delete_row true id (some rows) = (some (delete id rows), true)
delete_row false id (some rows) = (some rows, false)

abbrev pub then_drop :
    String → UserStore → Option (Dict UserRow) × Bool → UserStore × Option UserError
then_drop id s (db, true) = (record s { db = db; all = drop_key id_of id s.all }, none)
then_drop id s (db, false) = (record s { db = db }, some statement_failed)

unfoldable pub delete_user : Bool → String → UserStore → UserStore × Option UserError
delete_user up id s =
    if is_some (lookup id s.by_id)
    then then_drop id (record s { by_id = delete id s.by_id }) (delete_row up id s.db)
    else (s, some (user_not_found id))

-- The loop of `ImportJSON`, with the number of users that were created.
abbrev pub counted : (UserStore → UserStore × ℕ) → UserStore × Option UserError → UserStore × ℕ
counted next (s, none) = let r = next s in (r.0, suc r.1)
counted next (s, some e) = next s

unfoldable pub import_all : (ℕ → Bool) → List User → UserStore → UserStore × ℕ
unfolding create
import_all up [] s = (s, 0)
import_all up (u ∷ rest) s = counted (import_all (λ n. up (suc n)) rest) (create (up 0) u s)

unfoldable pub import_json :
    (ℕ → Bool) → Option (List User) → UserStore → UserStore × Result UserError ℕ
unfolding import_all
import_json up none s = (s, err bad_items)
import_json up (some us) s = let r = import_all up us s in (r.0, ok r.1)
