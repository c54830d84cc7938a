-- ===== src/Permissions/Checker.antt =====
-- The access decision over any source of facts (internal/permissions/access.go).
use json_scanner.Base.{
  ℕ, String, Bool, true, false, not, ◌&&◌, Option, none, some, ◌=s=◌, if◌then◌else◌,
}
use json_scanner.Base.Result.{Result, ok, ◌>>=◌}
use json_scanner.Permissions.Bits.{has_permission, perm_read, perm_write, perm_delete}

pub record Resource : Type 0 where
  pub owner : ℕ
  pub group : ℕ
  pub all : ℕ
  pub group_id : String

-- The interface `AccessChecker`, less `CanAccess`, for errors of a type `E`.
pub record AccessChecker (E : Type 0) : Type 0 where
  pub is_admin : String → Result E Bool
  pub is_owner : String → ℕ → Result E Bool
  pub is_group_member : String → String → Result E Bool
  pub get_resource_permissions : ℕ → Result E Resource
  pub get_acl_permission : String → ℕ → Result E (Option ℕ)

abbrev pub acl_grants : Option ℕ → ℕ → Bool
acl_grants none action = false
acl_grants (some p) action = has_permission p action

module _ {E : Type 0} (access : AccessChecker E) (user : String) (resource : ℕ) (action : ℕ) where
  -- The group's permission, and the public one where the group gives none.
  unfoldable pub group_or_all : Resource → Result E Bool
  group_or_all r =
      if not (r.group_id =s= "")
      then (do
        member ← access.is_group_member user r.group_id
        if member && has_permission r.group action
            then ok true
            else ok (has_permission r.all action))
      else ok (has_permission r.all action)

  unfoldable pub owner_or_rest : Bool → Result E Bool
  unfolding group_or_all
  owner_or_rest true = do
    r ← access.get_resource_permissions resource
    ok (has_permission r.owner action)
  owner_or_rest false = do r ← access.get_resource_permissions resource; group_or_all r

  unfoldable pub acl_or_rest : Option ℕ → Result E Bool
  unfolding owner_or_rest
  acl_or_rest acl =
      if acl_grants acl action
      then ok true
      else (do own ← access.is_owner user resource; owner_or_rest own)

  unfoldable pub admin_or_rest : Bool → Result E Bool
  unfolding acl_or_rest
  admin_or_rest true = ok true
  admin_or_rest false = do acl ← access.get_acl_permission user resource; acl_or_rest acl

  unfoldable pub can_access : Result E Bool
  unfolding admin_or_rest
  can_access = do admin ← access.is_admin user; admin_or_rest admin

unfoldable pub can_read : {E : Type 0} → AccessChecker E → String → ℕ → Result E Bool
can_read access user resource = can_access access user resource perm_read

unfoldable pub can_write : {E : Type 0} → AccessChecker E → String → ℕ → Result E Bool
can_write access user resource = can_access access user resource perm_write

unfoldable pub can_delete : {E : Type 0} → AccessChecker E → String → ℕ → Result E Bool
can_delete access user resource = can_access access user resource perm_delete
