-- ===== src/Results/Store.antt =====
-- The table of saved results and the operations on it. `M` is a match of a scan, whose numbers are
-- floats; `marshal` and `unmarshal` are the JSON encoder and decoder of a list of them. `up` says
-- whether the driver carries a statement out, and `order` is what the database's ORDER BY makes of
-- the rows.
use json_scanner.Base.{
  ℕ, suc, String, Bool, true, false, not, ◌&&◌, Option, none, some, List, [], ◌∷◌, ◌++◌, map, ◌==◌,
  ◌=s=◌, find_first, contains, select, if◌then◌else◌,
}
use json_scanner.Base.Result.{Result, ok, err}

pub record SavedResult (M : Type 0) : Type 0 where
  pub id : ℕ
  pub user_id : String
  pub study_id : String
  pub snapshot_date : ℕ
  pub results : List M
  pub created_at : ℕ
  pub name : String
  pub notes : String
  pub perm_owner : ℕ
  pub perm_group : ℕ
  pub perm_all : ℕ
  pub group_id : String

pub record ResultRow : Type 0 where
  pub id : ℕ
  pub user_id : String
  pub study_id : String
  pub snapshot_date : ℕ
  pub results_json : String
  pub created_at : ℕ
  pub name : String
  pub notes : String
  pub perm_owner : ℕ
  pub perm_group : ℕ
  pub perm_all : ℕ
  pub group_id : String

pub record Acl : Type 0 where
  pub result_id : ℕ
  pub user_id : String
  pub permission : ℕ
  pub granted_at : ℕ
  pub granted_by : String

-- `next_id` is the number that AUTOINCREMENT gives next.
pub record ResultDb : Type 0 where
  pub rows : List ResultRow
  pub next_id : ℕ
  pub acls : List Acl

pub data ResultError : Type 0 where
  marshal_failed unmarshal_failed statement_failed acl_not_found : ResultError
  result_not_found : ℕ → ResultError

abbrev pub has_id : ℕ → ResultRow → Bool
has_id id r = r.id == id

abbrev pub is_of : String → String → ℕ → ResultRow → Bool
is_of user study date r = r.user_id =s= user && r.study_id =s= study && r.snapshot_date == date

-- `rows == 0` after an UPDATE or a DELETE.
abbrev pub affecting :
    Bool → Bool → ResultError → ResultDb → ResultDb → ResultDb × Option ResultError
affecting false found e s t = (s, some statement_failed)
affecting true false e s t = (s, some e)
affecting true true e s t = (t, none)

-- `UpdatePermissions`
abbrev pub with_permissions : ℕ → ℕ → ℕ → ℕ → String → ResultRow → ResultRow
with_permissions id owner group all group_id r =
    if r.id == id
    then record r { perm_owner = owner; perm_group = group; perm_all = all; group_id = group_id }
    else r

unfoldable pub update_permissions :
    Bool → ℕ → ℕ → ℕ → ℕ → String → ResultDb → ResultDb × Option ResultError
update_permissions up id owner group all group_id s =
    affecting up (contains (has_id id) s.rows) (result_not_found id) s
      (record s { rows = map (with_permissions id owner group all group_id) s.rows })

-- `ChangeOwner`
abbrev pub with_owner : ℕ → String → String → ResultRow → ResultRow
with_owner id user group_id r =
    if r.id == id then record r { user_id = user; group_id = group_id } else r

unfoldable pub change_owner : Bool → ℕ → String → String → ResultDb → ResultDb × Option ResultError
change_owner up id user group_id s =
    affecting up (contains (has_id id) s.rows) (result_not_found id) s
      (record s { rows = map (with_owner id user group_id) s.rows })

-- `Delete`. A connection that enforces foreign keys takes the access list along.
unfoldable pub delete_result : Bool → Bool → ℕ → ResultDb → ResultDb × Option ResultError
delete_result enforced up id s =
    affecting up (contains (has_id id) s.rows) (result_not_found id) s (record s {
      rows = select (λ r. not (r.id == id)) s.rows;
      acls = if enforced then select (λ a. not (a.result_id == id)) s.acls else s.acls;
    })

module _ {M : Type 0} (marshal : List M → Option String)
    (unmarshal : String → Option (List M)) where
  abbrev pub new_row : ℕ → SavedResult M → String → ResultRow
  new_row id r json = record {
    id = id;
    user_id = r.user_id;
    study_id = r.study_id;
    snapshot_date = r.snapshot_date;
    results_json = json;
    created_at = r.created_at;
    name = r.name;
    notes = r.notes;
    perm_owner = r.perm_owner;
    perm_group = r.perm_group;
    perm_all = r.perm_all;
    group_id = r.group_id;
  }

  abbrev pub insert_row :
      Bool → SavedResult M → ResultDb → Option String → ResultDb × Result ResultError ℕ
  insert_row up r s none = (s, err marshal_failed)
  insert_row false r s (some json) = (s, err statement_failed)
  insert_row true r s (some json) = (
    record s { rows = s.rows ++ (new_row s.next_id r json ∷ []); next_id = suc s.next_id },
    ok s.next_id,
  )

  unfoldable pub save : Bool → SavedResult M → ResultDb → ResultDb × Result ResultError ℕ
  save up r s = insert_row up r s (marshal r.results)

  abbrev pub result_of : ResultRow → List M → SavedResult M
  result_of r ms = record {
    id = r.id;
    user_id = r.user_id;
    study_id = r.study_id;
    snapshot_date = r.snapshot_date;
    results = ms;
    created_at = r.created_at;
    name = r.name;
    notes = r.notes;
    perm_owner = r.perm_owner;
    perm_group = r.perm_group;
    perm_all = r.perm_all;
    group_id = r.group_id;
  }

  abbrev pub decoded : ResultRow → Option (List M) → Result ResultError (Option (SavedResult M))
  decoded r none = err unmarshal_failed
  decoded r (some ms) = ok (some (result_of r ms))

  abbrev pub read_row : Option ResultRow → Result ResultError (Option (SavedResult M))
  read_row none = ok none
  read_row (some r) = decoded r (unmarshal r.results_json)

  unfoldable pub get : Bool → ℕ → ResultDb → Result ResultError (Option (SavedResult M))
  get false id s = err statement_failed
  get true id s = read_row (find_first (has_id id) s.rows)

  unfoldable pub get_by_study_and_date :
      Bool → String → String → ℕ → ResultDb → Result ResultError (Option (SavedResult M))
  get_by_study_and_date false user study date s = err statement_failed
  get_by_study_and_date true user study date s =
      read_row (find_first (is_of user study date) s.rows)

  -- `Update`, which leaves the owner and the time of creation.
  abbrev pub updated : SavedResult M → String → ResultRow → ResultRow
  updated n json r =
      if r.id == n.id
      then record r {
        study_id = n.study_id;
        snapshot_date = n.snapshot_date;
        results_json = json;
        name = n.name;
        notes = n.notes;
        perm_owner = n.perm_owner;
        perm_group = n.perm_group;
        perm_all = n.perm_all;
        group_id = n.group_id;
      }
      else r

  abbrev pub update_rows :
      Bool → SavedResult M → ResultDb → Option String → ResultDb × Option ResultError
  update_rows up n s none = (s, some marshal_failed)
  update_rows up n s (some json) =
      affecting up (contains (has_id n.id) s.rows) (result_not_found n.id) s
        (record s { rows = map (updated n json) s.rows })

  unfoldable pub update : Bool → SavedResult M → ResultDb → ResultDb × Option ResultError
  update up n s = update_rows up n s (marshal n.results)
