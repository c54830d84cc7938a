-- ===== src/Groups/Referenced.antt =====
-- Referential integrity of the two tables, and membership after a deletion
-- (internal/groups/groups.go).
use json_scanner.Base.{
  String, ◌≡◌, refl, ◌∙◌, Bool, true, false, not, ◌&&◌, Option, none, some, List, [], ◌∷◌, ◌++◌,
  ◌=s=◌, eq_iff, arith, ltb, count, contains, select, if◌then◌else◌,
}
use json_scanner.Base.Result.{Result, ok}
use json_scanner.Groups.Store.{
  Member, GroupStore, GroupError, statement_failed, member_not_found, is_group, is_row_of, create,
  update, delete_group, add_member, remove_member, update_member_role, is_member,
}
use json_scanner.Groups.Members.{
  IsReferenced, GroupOp, creating, updating, deleting, adding, removing, setting_role, run_group_op,
  All-map, All-snoc, All-select, contains-snoc_group, contains-renamed, kept_members, with_role-All,
}

-- A statement that the driver may fail, and one that also looks whether its row is there.
guarded :
    {X : Type 0} (P : X → Type 0) (up c : Bool) (a b d : X)
    → P a
    → (c ≡ true → P b)
    → (c ≡ false → P d)
    → P (if not up then a else if c then b else d)
guarded P false c a b d pa pb pd = pa
guarded P true true a b d pa pb pd = pb refl
guarded P true false a b d pa pb pd = pd refl

needs_group :
    {X : Type 0} (P : X → Type 0) (c : Bool) (a b : X)
    → P a
    → (c ≡ true → P b)
    → P (if true && not c then a else b)
needs_group P true a b pa pb = pb refl
needs_group P false a b pa pb = pa

abbrev StaysReferenced : GroupStore × Option GroupError → Type 0
StaysReferenced r = IsReferenced r.0

-- On a connection that enforces foreign keys, every operation, failed or not, leaves each member's
-- group in the table of groups.
pub run_group_op-IsReferenced :
    (up : Bool) (op : GroupOp) (s : GroupStore)
    → IsReferenced s
    → IsReferenced (run_group_op up op s).0
unfolding run_group_op create update delete_group add_member remove_member update_member_role
run_group_op-IsReferenced up (creating g) s h =
    guarded StaysReferenced up _ _ _ _ h (λ e. h)
      (λ e. All-map _ _ s.members (λ m. contains-snoc_group m.group_id s.groups g) h)
run_group_op-IsReferenced up (updating g) s h =
    guarded StaysReferenced up _ _ _ _ h
      (λ e. All-map _ _ s.members (λ m q. contains-renamed m.group_id g s.groups ∙ q) h) (λ e. h)
run_group_op-IsReferenced up (deleting id) s h =
    guarded StaysReferenced up _ _ _ _ h (λ e. kept_members id s.groups s.members h) (λ e. h)
run_group_op-IsReferenced up (adding g u r now) s h =
    let new : Member = record {
      group_id = g;
      user_id = u;
      role = if r =s= "" then "member" else r;
      joined_at = now;
    } in
    let failed : GroupStore × Option GroupError = (s, some statement_failed) in
    let added : GroupStore × Option GroupError =
      (record s { members = s.members ++ (new ∷ []) }, none) in
    guarded StaysReferenced up (contains (is_row_of g u) s.members) failed failed
      (if true && not (contains (is_group g) s.groups) then failed else added) h (λ e. h)
      (λ e.
        needs_group StaysReferenced (contains (is_group g) s.groups) failed added h
          (λ q. All-snoc (λ m. contains (is_group m.group_id) s.groups ≡ true) s.members new h q))
run_group_op-IsReferenced up (removing g u) s h =
    guarded StaysReferenced up (contains (is_row_of g u) s.members) (s, some statement_failed)
      (record s { members = select (λ m. not (is_row_of g u m)) s.members }, none)
      (s, some member_not_found) h
      (λ e.
        All-select (λ m. contains (is_group m.group_id) s.groups ≡ true)
          (λ m. not (is_row_of g u m)) s.members h)
      (λ e. h)
run_group_op-IsReferenced up (setting_role g u r) s h =
    guarded StaysReferenced up _ _ _ _ h (λ e. with_role-All s.groups g u r s.members h) (λ e. h)

count-deleted :
    (id g u : String) (ms : List Member)
    → count (is_row_of g u) (select (λ m. not (m.group_id =s= id)) ms)
      ≡ (if id =s= g then 0 else count (is_row_of g u) ms)
count-deleted id g u [] = ground arith
count-deleted id g u (m ∷ ms) =
    ground (arith, count-deleted id g u ms, eq_iff m.group_id id, eq_iff m.group_id g, eq_iff id g)

-- Once a group is deleted on a connection that enforces foreign keys, nobody is a member of it, and
-- membership of the other groups is as before; on a connection that does not, deleting changes
-- nobody's membership, of the deleted group either.
pub is_member-delete_group :
    (enforced : Bool) (id g u : String) (s : GroupStore)
    → contains (is_group id) s.groups ≡ true
    → is_member true g u (delete_group enforced true id s).0
      ≡ (if enforced && id =s= g then ok false else is_member true g u s)
unfolding is_member delete_group
is_member-delete_group true id g u s h =
    rw h (rw (count-deleted id g u s.members) (by_test (id =s= g)))
  where
    by_test :
        (b : Bool)
        → ◌≡◌ {A = Result GroupError Bool}
            (ok (ltb 0 (if b then 0 else count (is_row_of g u) s.members)))
            (if b then ok false else ok (ltb 0 (count (is_row_of g u) s.members)))
    by_test true = refl
    by_test false = refl
is_member-delete_group false id g u s h = rw h refl
