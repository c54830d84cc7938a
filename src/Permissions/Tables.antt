-- ===== src/Permissions/Tables.antt =====
-- The facts as the database has them (internal/permissions/db_access.go): a query of the source is
-- a function on the rows of its table, and `up` says of each query whether the driver answers it.
-- A `group_id` that is NULL cannot be scanned into a string, which is an error.
use json_scanner.Base.{
  ℕ, String, ◌≡◌, ◌⊎◌, inl, inr, refl, ◌∙◌, Bool, true, false, ◌&&◌, Option, none, some, List,
  ◌=s=◌, ◌==◌, eq_iff, arith, ltb, count, find_first, if◌then◌else◌, Bool-cases, Option-cases,
}
use json_scanner.Base.Result.{Result, ok, err}
use json_scanner.Permissions.Bits.{has_permission, default_permissions}
use json_scanner.Permissions.Checker.{Resource, AccessChecker, can_access}
use json_scanner.Permissions.Triples.{is_action}
use json_scanner.Permissions.Grants.{
  MayAccess, as_admin, by_acl, as_owner, as_member, as_anyone, can_access_sound,
}

pub record UserRow : Type 0 where
  pub id : String
  pub role_id : String

pub record ResultRow : Type 0 where
  pub id : ℕ
  pub user_id : String
  pub perm_owner : ℕ
  pub perm_group : ℕ
  pub perm_all : ℕ
  pub group_id : Option String

pub record AclRow : Type 0 where
  pub result_id : ℕ
  pub user_id : String
  pub permission : ℕ

pub record MemberRow : Type 0 where
  pub group_id : String
  pub user_id : String

pub record AccessDb : Type 0 where
  pub users : List UserRow
  pub saved_results : List ResultRow
  pub result_acls : List AclRow
  pub group_members : List MemberRow

pub data Query : Type 0 where
  role_query owner_query member_query permissions_query acl_query : Query

pub data AccessError : Type 0 where
  query_failed : Query → AccessError
  resource_not_found null_group : AccessError

-- A query that the driver does not answer is an error of its own.
abbrev pub ask : {A : Type 0} → (Query → Bool) → Query → Result AccessError A → Result AccessError A
ask up q r = if up q then r else err (query_failed q)

-- The empty mask grants none of the three permissions.
grants_nothing : (action : ℕ) → is_action action ≡ true → has_permission 0 action ≡ true → ⊥
unfolding has_permission
grants_nothing action act h = elim (three action act) [
  | inl e ↦ cc (rw e at h)
  | inr (inl e) ↦ cc (rw e at h)
  | inr (inr e) ↦ cc (rw e at h)
]
  where
    three : (a : ℕ) → is_action a ≡ true → (a ≡ 4) ⊎ (a ≡ 2) ⊎ (a ≡ 1)
    three a q = ground arith

module _ (up : Query → Bool) (db : AccessDb) where
  role_is_admin : Option UserRow → Bool
  role_is_admin none = false
  role_is_admin (some u) = u.role_id =s= "admin"

  owner_is : String → Option ResultRow → Bool
  owner_is user none = false
  owner_is user (some r) = r.user_id =s= user

  resource_of : ResultRow → Option String → Result AccessError Resource
  resource_of r none = err null_group
  resource_of r (some g) =
      ok (record { owner = r.perm_owner; group = r.perm_group; all = r.perm_all; group_id = g })

  permissions_of : Option ResultRow → Result AccessError Resource
  unfolding resource_of
  permissions_of none = err resource_not_found
  permissions_of (some r) = resource_of r r.group_id

  acl_of : Option AclRow → Option ℕ
  acl_of none = none
  acl_of (some a) = some a.permission

  unfoldable pub db_access_checker : AccessChecker AccessError
  unfolding role_is_admin owner_is permissions_of acl_of
  db_access_checker = record {
    is_admin =
        λ user. ask up role_query (ok (role_is_admin (find_first (λ u. u.id =s= user) db.users)));
    is_owner = λ user resource.
        ask up owner_query
          (ok (owner_is user (find_first (λ r. r.id == resource) db.saved_results)));
    is_group_member = λ user group.
        ask up member_query
          (ok (ltb 0 (count (λ m. m.group_id =s= group && m.user_id =s= user) db.group_members)));
    get_resource_permissions = λ resource.
        ask up permissions_query
          (permissions_of (find_first (λ r. r.id == resource) db.saved_results));
    get_acl_permission = λ user resource. ask up acl_query (
        ok (
          acl_of (find_first (λ a. a.result_id == resource && a.user_id =s= user) db.result_acls)));
  }

  ask-eq-ok :
      {A : Type 0} (q : Query) (m : Result AccessError A) {y : A} → ask up q m ≡ ok y → m ≡ ok y
  ask-eq-ok q m h = elim (Bool-cases (up q)) [ inl e ↦ (rw e at h) | inr e ↦ absurd (ground arith) ]

  ok_inj : {A : Type 0} {x y : A} → ◌≡◌ {A = Result AccessError A} (ok x) (ok y) → x ≡ y
  ok_inj h = cc

  admin_row :
      (o : Option UserRow)
      → role_is_admin o ≡ true
      → (u : UserRow) × (o ≡ some u) × (u.role_id ≡ "admin")
  unfolding role_is_admin
  admin_row none h = cc
  admin_row (some u) h = (u, refl, (eq_iff _ _).0 h)

  permissions_of-some :
      (row : ResultRow) (r : Resource)
      → permissions_of (some row) ≡ ok r
      → (r.group ≡ row.perm_group) × (r.all ≡ row.perm_all)
  unfolding permissions_of
  permissions_of-some row r h = elim (Option-cases row.group_id) [
    | inl e ↦ absurd (ground arith)
    | inr (g, e) ↦ ground arith
  ]

  -- A saved result with the default group and public bits can be read, written or deleted by
  -- nobody but its owner and the admins, unless the user has an access-list entry for it.
  pub private_by_default :
      (user : String) (resource action : ℕ) (row : ResultRow)
      → is_action action ≡ true
      → find_first (λ r. r.id == resource) db.saved_results ≡ some row
      → row.perm_group ≡ default_permissions.1
      → row.perm_all ≡ default_permissions.2
      → find_first (λ a. a.result_id == resource && a.user_id =s= user) db.result_acls ≡ none
      → can_access db_access_checker user resource action ≡ ok true
      → (row.user_id ≡ user)
        ⊎ ((u : UserRow) × (find_first (λ u. u.id =s= user) db.users ≡ some u)
            × (u.role_id ≡ "admin"))
  unfolding default_permissions db_access_checker
  private_by_default user resource action row act found pg pa no_acl h =
      by_reason (can_access_sound db_access_checker user resource action h)
    where
      bits_of :
          (r : Resource)
          → db_access_checker.get_resource_permissions resource ≡ ok r
          → (r.group ≡ 0) × (r.all ≡ 0)
      bits_of r g =
          let (gg, ga) =
            permissions_of-some row r (rw found at (ask-eq-ok permissions_query _ g)) in
          (gg ∙ pg, ga ∙ pa)

      none_granted : (p : ℕ) → p ≡ 0 → has_permission p action ≡ true → ⊥
      none_granted p e q = grants_nothing action act (rw e at q)

      by_reason :
          MayAccess db_access_checker user resource action
          → (row.user_id ≡ user)
            ⊎ ((u : UserRow) × (find_first (λ u. u.id =s= user) db.users ≡ some u)
                × (u.role_id ≡ "admin"))
      by_reason (as_admin a) = inr (admin_row _ (ok_inj (ask-eq-ok role_query _ a)))
      by_reason (by_acl p a q) =
          let no = ok_inj (rw no_acl at (ask-eq-ok acl_query _ a)) in absurd (cc)
      by_reason (as_owner r o g q) =
          let own = ok_inj (rw found at (ask-eq-ok owner_query _ o)) in inl ((eq_iff _ _).0 own)
      by_reason (as_member r o g n m q) = absurd (none_granted r.group (bits_of r g).0 q)
      by_reason (as_anyone r o g q) = absurd (none_granted r.all (bits_of r g).1 q)
