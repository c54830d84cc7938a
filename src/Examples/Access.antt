-- ===== src/Examples/Access.antt =====
-- A saved result of one user (internal/permissions).
use json_scanner.Base.{
  ◌≡◌, ◌↔◌, ◌⊎◌, refl, Bool, true, false, none, some, [], ◌∷◌, ◌=s=◌, find_first,
}
use json_scanner.Base.Result.{ok}
use json_scanner.Permissions.Bits.{default_permissions, has_permission}
use json_scanner.Permissions.Checker.{
  can_access, admin_or_rest, acl_or_rest, owner_or_rest, group_or_all,
}
use json_scanner.Permissions.Grants.{MayAccess, Answers, can_access_sound, can_access_iff}
use json_scanner.Permissions.Tables.{
  UserRow, ResultRow, AccessDb, Query, db_access_checker, private_by_default,
}

abbrev result_7 : ResultRow
result_7 = record {
  id = 7;
  user_id = "ann";
  perm_owner = 7;
  perm_group = 0;
  perm_all = 0;
  group_id = some "";
}

abbrev tables : AccessDb
tables = record {
  users = record { id = "ann"; role_id = "user" } ∷ [];
  saved_results = result_7 ∷ [];
  result_acls = [];
  group_members = [];
}

abbrev answering : Query → Bool
answering q = true

ann_reads : can_access (db_access_checker answering tables) "ann" 7 4 ≡ ok true
unfolding can_access admin_or_rest acl_or_rest owner_or_rest group_or_all db_access_checker
    has_permission
ann_reads = refl

ann_answers : Answers (db_access_checker answering tables) "ann" 7 4
unfolding db_access_checker
ann_answers = record {
  admin = false;
  acl = none;
  own = true;
  res = record { owner = 7; group = 0; all = 0; group_id = "" };
  member = false;
  admin_known = refl;
  acl_known = refl;
  own_known = refl;
  res_known = refl;
  member_known = refl;
}

can_access_sound_example : MayAccess (db_access_checker answering tables) "ann" 7 4
can_access_sound_example = can_access_sound (db_access_checker answering tables) "ann" 7 4 ann_reads

can_access_iff_example :
    ((can_access (db_access_checker answering tables) "ann" 7 4 ≡ ok true)
      ↔ MayAccess (db_access_checker answering tables) "ann" 7 4)
    × ((b : Bool) × (can_access (db_access_checker answering tables) "ann" 7 4 ≡ ok b))
can_access_iff_example = can_access_iff (db_access_checker answering tables) "ann" 7 4 ann_answers

private_by_default_example :
    (result_7.user_id ≡ "ann")
    ⊎ ((u : UserRow) × (find_first (λ u. u.id =s= "ann") tables.users ≡ some u)
        × (u.role_id ≡ "admin"))
unfolding default_permissions
private_by_default_example =
    private_by_default answering tables "ann" 7 4 result_7 refl refl refl refl refl ann_reads
