-- ===== src/Groups/Members.antt =====
-- Members refer to groups that exist, and membership after each operation
-- (internal/groups/groups.go).
use json_scanner.Base.{
  ℕ, String, ◌≡◌, refl, inl, inr, Bool, true, false, not, Option, List, [], ◌∷◌, ◌++◌, map, All,
  ◌=s=◌, eq_iff, arith, contains, select, Bool-cases,
}
use json_scanner.Groups.Store.{
  Group, Member, GroupStore, GroupError, is_group, is_row_of, renamed, with_role, create, update,
  delete_group, add_member, remove_member, update_member_role,
}

-- Each member's group is there.
abbrev pub IsReferenced : GroupStore → Type 0
IsReferenced s = All (λ m. contains (is_group m.group_id) s.groups ≡ true) s.members

-- The operations that change the store, on a connection that enforces foreign keys.
pub data GroupOp : Type 0 where
  creating updating : Group → GroupOp
  deleting : String → GroupOp
  adding : String → String → String → ℕ → GroupOp
  removing : String → String → GroupOp
  setting_role : String → String → String → GroupOp

unfoldable pub run_group_op : Bool → GroupOp → GroupStore → GroupStore × Option GroupError
run_group_op up (creating g) s = create up g s
run_group_op up (updating g) s = update up g s
run_group_op up (deleting id) s = delete_group true up id s
run_group_op up (adding g u r now) s = add_member true up g u r now s
run_group_op up (removing g u) s = remove_member up g u s
run_group_op up (setting_role g u r) s = update_member_role up g u r s

module _ (P : Member → Type 0) where
  pub All-map :
      (Q : Member → Type 0) (ms : List Member) → ((m : Member) → P m → Q m) → All P ms → All Q ms
  All-map Q [] f h = tt
  All-map Q (m ∷ ms) f h = (f m h.0, All-map Q ms f h.1)

  pub All-snoc : (ms : List Member) (m : Member) → All P ms → P m → All P (ms ++ (m ∷ []))
  All-snoc [] m h p = (p, tt)
  All-snoc (x ∷ ms) m h p = (h.0, All-snoc ms m h.1 p)

  pub All-select : (p : Member → Bool) (ms : List Member) → All P ms → All P (select p ms)
  All-select p [] h = tt
  All-select p (m ∷ ms) h = elim (Bool-cases (p m)) [
    | inl e ↦ rw e (h.0, All-select p ms h.1)
    | inr e ↦ rw e (All-select p ms h.1)
  ]

pub contains-snoc_group :
    (id : String) (gs : List Group) (g : Group)
    → contains (is_group id) gs ≡ true
    → contains (is_group id) (gs ++ (g ∷ [])) ≡ true
contains-snoc_group id [] g h = cc
contains-snoc_group id (x ∷ gs) g h = ground (arith, contains-snoc_group id gs g)

pub contains-renamed :
    (id : String) (g : Group) (gs : List Group)
    → contains (is_group id) (map (renamed g) gs) ≡ contains (is_group id) gs
contains-renamed id g [] = refl
contains-renamed id g (x ∷ gs) = ground (arith, contains-renamed id g gs)

contains-deleted :
    (id j : String) (gs : List Group)
    → (j =s= id) ≡ false
    → contains (is_group j) (select (λ g. not (is_group id g)) gs) ≡ contains (is_group j) gs
contains-deleted id j [] h = refl
contains-deleted id j (g ∷ gs) h =
    ground (arith, contains-deleted id j gs h, eq_iff g.id id, eq_iff g.id j, eq_iff j id)

-- The members of the other groups still refer to theirs.
pub kept_members :
    (id : String) (gs : List Group) (ms : List Member)
    → All (λ m. contains (is_group m.group_id) gs ≡ true) ms
    → All
        (λ m. contains (is_group m.group_id) (select (λ g. not (is_group id g)) gs) ≡ true)
        (select (λ m. not (m.group_id =s= id)) ms)
kept_members id gs [] h = tt
kept_members id gs (m ∷ ms) h = elim (Bool-cases (m.group_id =s= id)) [
  | inl e ↦ rw e (kept_members id gs ms h.1)
  | inr e ↦ rw e (rw (contains-deleted id m.group_id gs e) h.0, kept_members id gs ms h.1)
]

pub with_role-All :
    (gs : List Group) (g u r : String) (ms : List Member)
    → All (λ m. contains (is_group m.group_id) gs ≡ true) ms
    → All (λ m. contains (is_group m.group_id) gs ≡ true) (map (with_role g u r) ms)
with_role-All gs g u r [] h = tt
with_role-All gs g u r (m ∷ ms) h = elim (Bool-cases (is_row_of g u m)) [
  | inl e ↦ rw e (h.0, with_role-All gs g u r ms h.1)
  | inr e ↦ rw e (h.0, with_role-All gs g u r ms h.1)
]
