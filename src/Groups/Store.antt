-- ===== src/Groups/Store.antt =====
-- The two tables and the store's operations (internal/groups/groups.go). A statement is a function
-- on the rows, and `up` says whether the driver carries it out. Whether the connection enforces
-- foreign keys, so that deleting a group deletes its members and a member needs its group, is the
-- argument `enforced`.
use json_scanner.Base.{
  ℕ, String, Bool, not, ◌&&◌, Option, none, some, List, [], ◌∷◌, ◌++◌, map, ◌=s=◌, ltb, count,
  contains, select, find_first, if◌then◌else◌,
}
use json_scanner.Base.Result.{Result, ok, err}

pub record Group : Type 0 where
  pub id : String
  pub name : String
  pub description : String
  pub owner_id : String
  pub created_at : ℕ

pub record Member : Type 0 where
  pub group_id : String
  pub user_id : String
  pub role : String
  pub joined_at : ℕ

pub record GroupStore : Type 0 where
  pub groups : List Group
  pub members : List Member

pub data GroupError : Type 0 where
  statement_failed group_not_found member_not_found : GroupError

abbrev pub is_group : String → Group → Bool
is_group id g = g.id =s= id

abbrev pub is_row_of : String → String → Member → Bool
is_row_of group user m = m.group_id =s= group && m.user_id =s= user

-- The primary key refuses a second group of an id.
unfoldable pub create : Bool → Group → GroupStore → GroupStore × Option GroupError
create up g s =
    if not up
    then (s, some statement_failed)
    else if contains (is_group g.id) s.groups
    then (s, some statement_failed)
    else (record s { groups = s.groups ++ (g ∷ []) }, none)

unfoldable pub get_group : Bool → String → GroupStore → Result GroupError (Option Group)
get_group up id s = if up then ok (find_first (is_group id) s.groups) else err statement_failed

abbrev pub renamed : Group → Group → Group
renamed g old =
    if old.id =s= g.id then record old { name = g.name; description = g.description } else old

unfoldable pub update : Bool → Group → GroupStore → GroupStore × Option GroupError
update up g s =
    if not up
    then (s, some statement_failed)
    else if contains (is_group g.id) s.groups
    then (record s { groups = map (renamed g) s.groups }, none)
    else (s, some group_not_found)

unfoldable pub delete_group : Bool → Bool → String → GroupStore → GroupStore × Option GroupError
delete_group enforced up id s =
    if not up
    then (s, some statement_failed)
    else if contains (is_group id) s.groups
    then (
      record {
        groups = select (λ g. not (is_group id g)) s.groups;
        members = if enforced then select (λ m. not (m.group_id =s= id)) s.members else s.members;
      },
      none,
    )
    else (s, some group_not_found)

-- The primary key refuses a second row of the pair; an empty role is "member".
unfoldable pub add_member :
    Bool → Bool → String → String → String → ℕ → GroupStore → GroupStore × Option GroupError
add_member enforced up group user role now s =
    if not up
    then (s, some statement_failed)
    else if contains (is_row_of group user) s.members
    then (s, some statement_failed)
    else if enforced && not (contains (is_group group) s.groups)
    then (s, some statement_failed)
    else (
      record s {
        members =
            s.members
            ++ (record {
              group_id = group;
              user_id = user;
              role = if role =s= "" then "member" else role;
              joined_at = now;
            }
                ∷ []);
      },
      none,
    )

unfoldable pub remove_member : Bool → String → String → GroupStore → GroupStore × Option GroupError
remove_member up group user s =
    if not up
    then (s, some statement_failed)
    else if contains (is_row_of group user) s.members
    then (record s { members = select (λ m. not (is_row_of group user m)) s.members }, none)
    else (s, some member_not_found)

unfoldable pub get_member : Bool → String → String → GroupStore → Result GroupError (Option Member)
get_member up group user s =
    if up then ok (find_first (is_row_of group user) s.members) else err statement_failed

unfoldable pub is_member : Bool → String → String → GroupStore → Result GroupError Bool
is_member up group user s =
    if up then ok (ltb 0 (count (is_row_of group user) s.members)) else err statement_failed

abbrev pub with_role : String → String → String → Member → Member
with_role group user role m = if is_row_of group user m then record m { role = role } else m

unfoldable pub update_member_role :
    Bool → String → String → String → GroupStore → GroupStore × Option GroupError
update_member_role up group user role s =
    if not up
    then (s, some statement_failed)
    else if contains (is_row_of group user) s.members
    then (record s { members = map (with_role group user role) s.members }, none)
    else (s, some member_not_found)
