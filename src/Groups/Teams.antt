-- ===== src/Groups/Teams.antt =====
-- The groups and roles that the store's operations stand for (internal/groups/groups.go).
use json_scanner.Base.{
  String, ◌≡◌, refl, sym, ap, ◌∙◌, inl, inr, Bool, true, false, not, ◌&&◌, Option, none, some, List,
  [], ◌∷◌, ◌++◌, map, ◌=s=◌, eq_iff, arith, contains, select, find_first, if◌then◌else◌, Bool-cases,
}
use json_scanner.Base.Dict.{is_some}
use json_scanner.Groups.Store.{Group, Member, is_group, is_row_of, renamed, with_role}

-- The group of an id, and the role of a user in a group.
pub record Teams : Type 0 where
  pub group : String → Option Group
  pub role : String → String → Option String

abbrev pub role_of : Option Member → Option String
role_of none = none
role_of (some m) = some m.role

pub contains-find_first :
    {A : Type 0} (p : A → Bool) (xs : List A) → contains p xs ≡ is_some (find_first p xs)
contains-find_first p [] = refl
contains-find_first p (x ∷ xs) = elim (Bool-cases (p x)) [
  | inl e ↦ rw e refl
  | inr e ↦ rw e (contains-find_first p xs)
]

pub contains-role :
    (p : Member → Bool) (ms : List Member) → contains p ms ≡ is_some (role_of (find_first p ms))
contains-role p [] = refl
contains-role p (m ∷ ms) = elim (Bool-cases (p m)) [
  | inl e ↦ rw e refl
  | inr e ↦ rw e (contains-role p ms)
]

pub find-created :
    (id : String) (g : Group) (gs : List Group)
    → contains (is_group g.id) gs ≡ false
    → find_first (is_group id) (gs ++ (g ∷ []))
      ≡ (if g.id =s= id then some g else find_first (is_group id) gs)
find-created id g [] h = refl
find-created id g (x ∷ gs) h =
    ground (arith, find-created id g gs, eq_iff x.id id, eq_iff g.id id, eq_iff x.id g.id)

abbrev pub retitled : Group → Option Group → Option Group
retitled g none = none
retitled g (some old) = some (record old { name = g.name; description = g.description })

pub find-renamed :
    (id : String) (g : Group) (gs : List Group)
    → find_first (is_group id) (map (renamed g) gs) ≡ (
        if g.id =s= id
        then retitled g (find_first (is_group id) gs)
        else find_first (is_group id) gs)
find-renamed id g [] = elim (Bool-cases (g.id =s= id)) [ inl e ↦ rw e refl | inr e ↦ rw e refl ]
find-renamed id g (x ∷ gs) =
    ground (arith, find-renamed id g gs, eq_iff x.id id, eq_iff g.id id, eq_iff x.id g.id)

pub find-deleted :
    (id j : String) (gs : List Group)
    → find_first (is_group j) (select (λ g. not (is_group id g)) gs)
      ≡ (if id =s= j then none else find_first (is_group j) gs)
find-deleted id j [] = ground arith
find-deleted id j (x ∷ gs) =
    ground (arith, find-deleted id j gs, eq_iff x.id id, eq_iff x.id j, eq_iff id j)

-- Is this the pair of a group and a user?
abbrev pub is_pair : String → String → String → String → Bool
is_pair g u h v = g =s= h && u =s= v

pub role-added :
    (h v : String) (m : Member) (ms : List Member)
    → contains (is_row_of m.group_id m.user_id) ms ≡ false
    → role_of (find_first (is_row_of h v) (ms ++ (m ∷ []))) ≡ (
        if is_pair m.group_id m.user_id h v
        then some m.role
        else role_of (find_first (is_row_of h v) ms))
role-added h v m [] n = ground arith
role-added h v m (x ∷ ms) n = ground (
  arith,
  role-added h v m ms,
  eq_iff x.group_id h,
  eq_iff x.user_id v,
  eq_iff m.group_id h,
  eq_iff m.user_id v,
  eq_iff x.group_id m.group_id,
  eq_iff x.user_id m.user_id,
)

pub role-removed :
    (g u h v : String) (ms : List Member)
    → role_of (find_first (is_row_of h v) (select (λ m. not (is_row_of g u m)) ms))
      ≡ (if is_pair g u h v then none else role_of (find_first (is_row_of h v) ms))
role-removed g u h v [] = ground arith
role-removed g u h v (x ∷ ms) = ground (
  arith,
  role-removed g u h v ms,
  eq_iff x.group_id h,
  eq_iff x.user_id v,
  eq_iff g h,
  eq_iff u v,
  eq_iff x.group_id g,
  eq_iff x.user_id u,
)

pub role-deleted :
    (id h v : String) (ms : List Member)
    → role_of (find_first (is_row_of h v) (select (λ m. not (m.group_id =s= id)) ms))
      ≡ (if id =s= h then none else role_of (find_first (is_row_of h v) ms))
role-deleted id h v [] = ground arith
role-deleted id h v (x ∷ ms) =
    ground (arith, role-deleted id h v ms, eq_iff x.group_id h, eq_iff id h, eq_iff x.group_id id)

abbrev pub given : String → Option String → Option String
given r none = none
given r (some old) = some r

same_pair :
    (g u : String) (x : Member)
    → is_row_of g u x ≡ true
    → (h v : String) → is_pair g u h v ≡ is_row_of h v x
same_pair g u x e h v =
    let group : x.group_id ≡ g = (eq_iff x.group_id g).0 (ground arith) in
    let user : x.user_id ≡ u = (eq_iff x.user_id u).0 (ground arith) in
    rw (sym group, sym user) refl

other_pair :
    (g u h v : String) (x : Member)
    → is_row_of g u x ≡ false
    → is_row_of h v x ≡ true
    → is_pair g u h v ≡ false
other_pair g u h v x n e = elim (Bool-cases (is_pair g u h v)) [
  | inr q ↦ q
  | inl q ↦
      let group : g ≡ h = (eq_iff g h).0 (ground arith) in
      let user : u ≡ v = (eq_iff u v).0 (ground arith) in
      absurd (cc (n, e, ap (λ k. is_row_of k u x) group, ap (λ k. is_row_of h k x) user))
]

pub role-set :
    (g u r h v : String) (ms : List Member)
    → role_of (find_first (is_row_of h v) (map (with_role g u r) ms)) ≡ (
        if is_pair g u h v
        then given r (role_of (find_first (is_row_of h v) ms))
        else role_of (find_first (is_row_of h v) ms))
role-set g u r h v [] = elim (Bool-cases (is_pair g u h v)) [
  | inl e ↦ rw e refl
  | inr e ↦ rw e refl
]
role-set g u r h v (x ∷ ms) =
    let ih = role-set g u r h v ms in
    elim (Bool-cases (is_row_of g u x)) [
      | inl e ↦
          let pair = same_pair g u x e h v in
          elim (Bool-cases (is_row_of h v x)) [
            | inl f ↦ rw (e, f, pair ∙ f) refl
            | inr f ↦ rw (e, f, pair ∙ f) (ih ∙ rw (pair ∙ f) refl)
          ]
      | inr e ↦ elim (Bool-cases (is_row_of h v x)) [
        | inl f ↦ rw (e, f, other_pair g u h v x e f) refl
        | inr f ↦ rw (e, f) ih
      ]
    ]
