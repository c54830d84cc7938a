-- ===== src/Groups/Modelled.antt =====
-- The operations of the store, against what they do to the groups and the roles
-- (internal/groups/groups.go).
use json_scanner.Base.{
  false, String, ◌≡◌, refl, sym, ◌∙◌, inl, inr, true, Option, none, some, ◌=s=◌, contains,
  find_first, if◌then◌else◌, Bool-cases,
}
use json_scanner.Base.Dict.{is_some}
use json_scanner.Groups.Store.{
  Group, Member, GroupStore, GroupError, statement_failed, group_not_found, member_not_found,
  is_group, is_row_of, create, update, delete_group, add_member, remove_member, update_member_role,
}
use json_scanner.Groups.Members.{
  GroupOp, creating, updating, deleting, adding, removing, setting_role, run_group_op,
}
use json_scanner.Groups.Teams.{
  Teams, role_of, contains-find_first, contains-role, find-created, retitled, find-renamed,
  find-deleted, is_pair, role-added, role-removed, role-deleted, given, role-set,
}

-- The groups and roles of a store.
abbrev pub teams_of : GroupStore → Teams
teams_of s = record {
  group = λ id. find_first (is_group id) s.groups;
  role = λ g u. role_of (find_first (is_row_of g u) s.members);
}

-- What an operation that is carried out must do: its error, and the group and the role of each key.
abbrev pub error_of : GroupOp → Teams → Option GroupError
error_of (creating g) t = if is_some (t.group g.id) then some statement_failed else none
error_of (updating g) t = if is_some (t.group g.id) then none else some group_not_found
error_of (deleting id) t = if is_some (t.group id) then none else some group_not_found
error_of (adding g u r now) t =
    if is_some (t.role g u)
    then some statement_failed
    else if is_some (t.group g)
    then none
    else some statement_failed
error_of (removing g u) t = if is_some (t.role g u) then none else some member_not_found
error_of (setting_role g u r) t = if is_some (t.role g u) then none else some member_not_found

abbrev pub group_after : GroupOp → Teams → String → Option Group
group_after (creating g) t id = if g.id =s= id then some g else t.group id
group_after (updating g) t id = if g.id =s= id then retitled g (t.group id) else t.group id
group_after (deleting d) t id = if d =s= id then none else t.group id
group_after (adding g u r now) t id = t.group id
group_after (removing g u) t id = t.group id
group_after (setting_role g u r) t id = t.group id

abbrev pub role_after : GroupOp → Teams → String → String → Option String
role_after (creating g) t h v = t.role h v
role_after (updating g) t h v = t.role h v
role_after (deleting d) t h v = if d =s= h then none else t.role h v
role_after (adding g u r now) t h v =
    if is_pair g u h v then some (if r =s= "" then "member" else r) else t.role h v
role_after (removing g u) t h v = if is_pair g u h v then none else t.role h v
role_after (setting_role g u r) t h v = if is_pair g u h v then given r (t.role h v) else t.role h v

-- The outcome of an operation, against the error that it must have.
abbrev pub IsDone :
    GroupOp → GroupStore → Option GroupError → GroupStore × Option GroupError → Type 0
IsDone op s (some e) r = r ≡ (s, some e)
IsDone op s none r =
    (r.1 ≡ none)
    × ((id : String) → (teams_of r.0).group id ≡ group_after op (teams_of s) id)
    × ((h v : String) → (teams_of r.0).role h v ≡ role_after op (teams_of s) h v)

run_group_op-IsDone_up :
    (op : GroupOp) (s : GroupStore)
    → IsDone op s (error_of op (teams_of s)) (run_group_op true op s)
unfolding run_group_op create update delete_group add_member remove_member update_member_role
run_group_op-IsDone_up (creating g) s =
    let known = contains-find_first (is_group g.id) s.groups in
    elim (Bool-cases (contains (is_group g.id) s.groups)) [
      | inl e ↦ rw (e, sym known ∙ e) refl
      | inr e ↦ rw (e, sym known ∙ e) (refl, (λ id. find-created id g s.groups e), (λ h v. refl))
    ]
run_group_op-IsDone_up (updating g) s =
    let known = contains-find_first (is_group g.id) s.groups in
    elim (Bool-cases (contains (is_group g.id) s.groups)) [
      | inl e ↦ rw (e, sym known ∙ e) (refl, (λ id. find-renamed id g s.groups), (λ h v. refl))
      | inr e ↦ rw (e, sym known ∙ e) refl
    ]
run_group_op-IsDone_up (deleting d) s =
    let known = contains-find_first (is_group d) s.groups in
    elim (Bool-cases (contains (is_group d) s.groups)) [
      | inl e ↦
          rw (e, sym known ∙ e)
            (refl, (λ id. find-deleted d id s.groups), (λ h v. role-deleted d h v s.members))
      | inr e ↦ rw (e, sym known ∙ e) refl
    ]
run_group_op-IsDone_up (adding g u r now) s =
    let known = contains-find_first (is_group g) s.groups in
    let held = contains-role (is_row_of g u) s.members in
    elim (Bool-cases (contains (is_row_of g u) s.members)) [
      | inl e ↦ rw (e, sym held ∙ e) refl
      | inr e ↦ elim (Bool-cases (contains (is_group g) s.groups)) [
        | inl f ↦
            let new : Member = record {
              group_id = g;
              user_id = u;
              role = if r =s= "" then "member" else r;
              joined_at = now;
            } in
            rw (e, sym held ∙ e, f, sym known ∙ f)
              (refl, (λ id. refl), (λ h v. role-added h v new s.members e))
        | inr f ↦ rw (e, sym held ∙ e, f, sym known ∙ f) refl
      ]
    ]
run_group_op-IsDone_up (removing g u) s =
    let held = contains-role (is_row_of g u) s.members in
    elim (Bool-cases (contains (is_row_of g u) s.members)) [
      | inl e ↦ rw (e, sym held ∙ e) (refl, (λ id. refl), (λ h v. role-removed g u h v s.members))
      | inr e ↦ rw (e, sym held ∙ e) refl
    ]
run_group_op-IsDone_up (setting_role g u r) s =
    let held = contains-role (is_row_of g u) s.members in
    elim (Bool-cases (contains (is_row_of g u) s.members)) [
      | inl e ↦ rw (e, sym held ∙ e) (refl, (λ id. refl), (λ h v. role-set g u r h v s.members))
      | inr e ↦ rw (e, sym held ∙ e) refl
    ]

run_group_op-failed :
    (op : GroupOp) (s : GroupStore) → run_group_op false op s ≡ (s, some statement_failed)
unfolding run_group_op create update delete_group add_member remove_member update_member_role
run_group_op-failed (creating g) s = refl
run_group_op-failed (updating g) s = refl
run_group_op-failed (deleting d) s = refl
run_group_op-failed (adding g u r now) s = refl
run_group_op-failed (removing g u) s = refl
run_group_op-failed (setting_role g u r) s = refl

-- An operation whose statement is carried out, on a connection that enforces foreign keys, fails and
-- changes nothing exactly where it must: a group is created whose id is taken, or changed or deleted
-- and is not there, a member is added who is one or to no group, or removed or given a role and is
-- none. Else it reports no error, and the store has the created group, the new name and
-- description, no deleted group and none of its members, the added member with the given role or
-- "member", no removed member, the new role; and every other group and role as before. An
-- operation whose statement the driver does not carry out fails and changes nothing.
pub run_group_op-IsDone :
    (op : GroupOp) (s : GroupStore)
    → IsDone op s (error_of op (teams_of s)) (run_group_op true op s)
      × (run_group_op false op s ≡ (s, some statement_failed))
run_group_op-IsDone op s = (run_group_op-IsDone_up op s, run_group_op-failed op s)
