-- ===== src/Permissions/Grants.antt =====
-- The reasons for which access is granted.
use json_scanner.Base.{
  ℕ, String, ◌≡◌, ◌↔◌, inl, inr, refl, ap, ◌∙◌, Bool, true, false, not, ◌&&◌, Option, none, some,
  ◌=s=◌, arith, if◌then◌else◌, Bool-cases,
}
use json_scanner.Base.Result.{Result, ok, >>=-eq-ok}
use json_scanner.Permissions.Bits.{has_permission}
use json_scanner.Permissions.Checker.{
  Resource, AccessChecker, acl_grants, group_or_all, owner_or_rest, acl_or_rest, admin_or_rest,
  can_access,
}

module _ {E : Type 0} (access : AccessChecker E) (user : String) (resource : ℕ) (action : ℕ) where
  -- A reason rests on answers that the source of facts gave, never on an error.
  pub data MayAccess : Type 0 where
    as_admin : access.is_admin user ≡ ok true → MayAccess
    by_acl :
        (p : ℕ)
        → access.get_acl_permission user resource ≡ ok (some p)
        → has_permission p action ≡ true
        → MayAccess
    as_owner :
        (r : Resource)
        → access.is_owner user resource ≡ ok true
        → access.get_resource_permissions resource ≡ ok r
        → has_permission r.owner action ≡ true
        → MayAccess
    as_member :
        (r : Resource)
        → access.is_owner user resource ≡ ok false
        → access.get_resource_permissions resource ≡ ok r
        → (r.group_id =s= "") ≡ false
        → access.is_group_member user r.group_id ≡ ok true
        → has_permission r.group action ≡ true
        → MayAccess
    as_anyone :
        (r : Resource)
        → access.is_owner user resource ≡ ok false
        → access.get_resource_permissions resource ≡ ok r
        → has_permission r.all action ≡ true
        → MayAccess

  ok_inj : {a b : Bool} → ◌≡◌ {A = Result E Bool} (ok a) (ok b) → a ≡ b
  ok_inj h = cc

  group_or_all_sound :
      (r : Resource)
      → access.is_owner user resource ≡ ok false
      → access.get_resource_permissions resource ≡ ok r
      → group_or_all access user resource action r ≡ ok true
      → MayAccess
  unfolding group_or_all
  group_or_all_sound r o g h = elim (Bool-cases (r.group_id =s= "")) [
    | inl e ↦ as_anyone r o g (ok_inj (rw e at h))
    | inr e ↦
        (let (m, hm, h1) = >>=-eq-ok (access.is_group_member user r.group_id) _ (rw e at h) in
          by_member e m hm h1)
  ]
    where
      by_member :
          (r.group_id =s= "") ≡ false
          → (m : Bool) → access.is_group_member user r.group_id ≡ ok m
          → ◌≡◌ {A = Result E Bool}
              (if m && has_permission r.group action
                then ok true
                else ok (has_permission r.all action))
              (ok true)
          → MayAccess
      by_member e false hm q = as_anyone r o g (ok_inj q)
      by_member e true hm q = elim (Bool-cases (has_permission r.group action)) [
        | inl p ↦ as_member r o g e hm p
        | inr p ↦ as_anyone r o g (ok_inj (rw p at q))
      ]

  -- Access is granted only for one of the five reasons: as an admin, by an access-list entry, by
  -- the owner's, the group's or the public bits; an answer that is an error grants nothing.
  pub can_access_sound : can_access access user resource action ≡ ok true → MayAccess
  unfolding can_access
  can_access_sound h =
      let (adm, hadm, h1) = >>=-eq-ok (access.is_admin user) _ h in by_admin adm hadm h1
    where
      by_owner :
          (own : Bool)
          → access.is_owner user resource ≡ ok own
          → owner_or_rest access user resource action own ≡ ok true
          → MayAccess
      by_owner true ho q =
          let (r, hr, q1) = >>=-eq-ok (access.get_resource_permissions resource) _ q in
          as_owner r ho hr (ok_inj q1)
      by_owner false ho q =
          let (r, hr, q1) = >>=-eq-ok (access.get_resource_permissions resource) _ q in
          group_or_all_sound r ho hr q1

      by_rest :
          (acl : Option ℕ)
          → (acl_grants acl action ≡ false)
          → acl_or_rest access user resource action acl ≡ ok true
          → MayAccess
      by_rest acl e q =
          let (own, ho, q1) = >>=-eq-ok (access.is_owner user resource) _ (rw e at q) in
          by_owner own ho q1

      by_list :
          (acl : Option ℕ)
          → access.get_acl_permission user resource ≡ ok acl
          → acl_or_rest access user resource action acl ≡ ok true
          → MayAccess
      by_list none ha q = by_rest none refl q
      by_list (some p) ha q = elim (Bool-cases (has_permission p action)) [
        | inl e ↦ by_acl p ha e
        | inr e ↦ by_rest (some p) e q
      ]

      by_admin :
          (adm : Bool)
          → access.is_admin user ≡ ok adm
          → admin_or_rest access user resource action adm ≡ ok true
          → MayAccess
      by_admin true ha q = as_admin ha
      by_admin false ha q =
          let (acl, hacl, q1) = >>=-eq-ok (access.get_acl_permission user resource) _ q in
          by_list acl hacl q1

  -- Every question that the decision may ask has an answer.
  pub record Answers : Type 0 where
    pub admin : Bool
    pub acl : Option ℕ
    pub own : Bool
    pub res : Resource
    pub member : Bool
    pub admin_known : access.is_admin user ≡ ok admin
    pub acl_known : access.get_acl_permission user resource ≡ ok acl
    pub own_known : access.is_owner user resource ≡ ok own
    pub res_known : access.get_resource_permissions resource ≡ ok res
    pub member_known : access.is_group_member user res.group_id ≡ ok member

  -- The decision as one expression over the answers.
  abbrev pub decide : Answers → Bool
  decide w =
      if w.admin
      then true
      else if acl_grants w.acl action
      then true
      else if w.own
      then has_permission w.res.owner action
      else if not (w.res.group_id =s= "") && w.member && has_permission w.res.group action
      then true
      else has_permission w.res.all action

  can_access_lem : (w : Answers) → can_access access user resource action ≡ ok (decide w)
  unfolding can_access
  can_access_lem w = ground arith

  MayAccess-decide : (w : Answers) → MayAccess → decide w ≡ true
  MayAccess-decide w (as_admin a) = ground arith
  MayAccess-decide w (by_acl p a h) = ground arith
  MayAccess-decide w (as_owner r o g h) = ground arith
  MayAccess-decide w (as_member r o g n m h) = ground arith
  MayAccess-decide w (as_anyone r o g h) = ground arith

  -- Where every question has an answer, access is granted exactly for one of the five reasons, and
  -- refused without an error otherwise.
  pub can_access_iff :
      (w : Answers)
      → ((can_access access user resource action ≡ ok true) ↔ MayAccess)
        × ((b : Bool) × (can_access access user resource action ≡ ok b))
  can_access_iff w = (
    (can_access_sound, (λ m. can_access_lem w ∙ ap ok (MayAccess-decide w m))),
    (decide w, can_access_lem w),
  )
