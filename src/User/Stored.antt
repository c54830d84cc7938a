-- ===== src/User/Stored.antt =====
-- The three views that the user store keeps agree (internal/user/user.go).
use json_scanner.Base.{
  String, ◌≡◌, refl, sym, ap, ◌∙◌, inl, inr, eq_iff, true, false, Option, none, some, List, [], ◌∷◌,
  ◌++◌, ◌=s=◌, find_first, if◌then◌else◌, Bool-cases, Option-cases,
}
use mathlib.Core.Path.{subst}
use json_scanner.Base.Dict.{lookup, insert, is_some}
use json_scanner.Base.Keyed.{has_key, replace_first}
use json_scanner.Base.Mirror.{
  Contents, TableHolds, Mirrors, with_put, without, without-absent, put-Mirrors, drop-Mirrors,
  insert-TableHolds, delete-TableHolds,
}
use json_scanner.Base.Text.{trim_text}
use json_scanner.User.{User}
use json_scanner.User.Registry.{with_defaults}
use json_scanner.User.Store.{
  UserStore, Change, set_disabled, set_nlp_enabled, set_name, set_tier, set_role, set_password,
  set_groups, set_nlp_daily_limit, id_of, row_of, save_to_sql, create, changed, mutate, delete_user,
}

-- The map and the list hold the same users, each id once, and the table has the row of each.
pub record IsSynced (s : UserStore) (m : Contents User) : Type 0 where
  pub mirrors : Mirrors id_of s.all s.by_id m
  pub table : TableHolds row_of s.db m

pub data UserOp : Type 0 where
  creating : User → UserOp
  changing : String → Change → UserOp
  deleting : String → UserOp

abbrev pub run_user_op : UserOp → UserStore → UserStore
run_user_op (creating u) s = (create true u s).0
run_user_op (changing id c) s = (mutate true id c s).0
run_user_op (deleting id) s = (delete_user true id s).0

abbrev pub or_changed : Change → Contents User → Option User → Contents User
or_changed c m none = m
or_changed c m (some u) = with_put id_of (changed c u) m

-- What the operation does to the users.
unfoldable pub after : UserOp → Contents User → Contents User
after (creating u) m =
    if trim_text u.id =s= ""
    then m
    else if is_some (m u.id)
    then m
    else with_put id_of (with_defaults u) m
after (changing id c) m = or_changed c m (m id)
after (deleting id) m = without id m

put-IsSynced :
    (u : User) (all : List User) (s : UserStore) (m : Contents User)
    → Mirrors id_of all (insert u.id u s.by_id) (with_put id_of u m)
    → TableHolds row_of s.db m
    → IsSynced
        (save_to_sql true u (record s { all = all; by_id = insert u.id u s.by_id })).0
        (with_put id_of u m)
unfolding save_to_sql
put-IsSynced u all s m h t = elim (Option-cases s.db) [
  | inl e ↦ rw e (record { mirrors = h; table = tt })
  | inr (rows, e) ↦
      rw e (record { mirrors = h; table = insert-TableHolds id_of row_of u rows m (rw e at t) })
]

create-IsSynced :
    (u : User) (s : UserStore) (m : Contents User)
    → IsSynced s m
    → IsSynced (create true u s).0 (after (creating u) m)
unfolding create after
create-IsSynced u s m h = elim (Bool-cases (trim_text u.id =s= "")) [
  | inl e ↦ rw e h
  | inr e ↦ elim (Bool-cases (is_some (lookup u.id s.by_id))) [
    | inl q ↦
        let there : is_some (m u.id) ≡ true = ap is_some (sym (h.mirrors.by_key u.id)) ∙ q in
        rw (e, q, there) h
    | inr q ↦
        let there : is_some (m u.id) ≡ false = ap is_some (sym (h.mirrors.by_key u.id)) ∙ q in
        rw (e, q, there)
          (put-IsSynced (with_defaults u) (s.all ++ (with_defaults u ∷ [])) s m
            (unfold with_defaults in
              put-Mirrors id_of (with_defaults u) s.all s.by_id m false there h.mirrors)
            h.table)
  ]
]

changed-id : (c : Change) (u : User) → (changed c u).id ≡ u.id
unfolding changed
changed-id (set_disabled b) u = refl
changed-id (set_nlp_enabled b) u = refl
changed-id (set_name t) u = refl
changed-id (set_tier t) u = refl
changed-id (set_role t) u = refl
changed-id (set_password t) u = refl
changed-id (set_groups gs) u = refl
changed-id (set_nlp_daily_limit n) u = refl

found_id :
    (id : String) (us : List User) (u : User)
    → find_first (has_key id_of id) us ≡ some u
    → u.id ≡ id
found_id id [] u h = cc
found_id id (x ∷ us) u h = elim (Bool-cases (x.id =s= id)) [
  | inl e ↦ let q : x ≡ u = cc (rw e at h) in rw (sym q) ((eq_iff x.id id).0 e)
  | inr e ↦ found_id id us u (rw e at h)
]

mutate-IsSynced :
    (id : String) (c : Change) (s : UserStore) (m : Contents User)
    → IsSynced s m
    → IsSynced (mutate true id c s).0 (after (changing id c) m)
unfolding mutate after
mutate-IsSynced id c s m h = elim (Option-cases (find_first (has_key id_of id) s.all)) [
  | inl e ↦ let q : m id ≡ none = sym (h.mirrors.listed id) ∙ e in rw (e, q) h
  | inr (u, e) ↦
      let q : m id ≡ some u = sym (h.mirrors.listed id) ∙ e in
      let same : (changed c u).id ≡ id = changed-id c u ∙ found_id id s.all u e in
      let there : is_some (m (changed c u).id) ≡ true = rw (same, q) refl in
      rw (e, q)
        (subst
          (λ (k : String).
            IsSynced
              (save_to_sql true (changed c u) (record s {
                all = replace_first id_of (changed c u) s.all;
                by_id = insert k (changed c u) s.by_id;
              })).0
              (with_put id_of (changed c u) m))
          same
          (put-IsSynced (changed c u) (replace_first id_of (changed c u) s.all) s m
            (put-Mirrors id_of (changed c u) s.all s.by_id m true there h.mirrors) h.table))
]

delete-IsSynced :
    (d : String) (s : UserStore) (m : Contents User)
    → IsSynced s m
    → IsSynced (delete_user true d s).0 (after (deleting d) m)
unfolding delete_user after
delete-IsSynced d s m h = elim (Bool-cases (is_some (lookup d s.by_id))) [
  | inr e ↦
      let absent : is_some (m d) ≡ false = ap is_some (sym (h.mirrors.by_key d)) ∙ e in
      rw (e, without-absent d m absent) h
  | inl e ↦
      let mirrored = drop-Mirrors id_of d s.all s.by_id m h.mirrors in
      elim (Option-cases s.db) [
        | inl q ↦ rw (e, q) (record { mirrors = mirrored; table = tt })
        | inr (rows, q) ↦
            rw (e, q)
              (record {
                mirrors = mirrored;
                table = delete-TableHolds id_of row_of d rows m (rw q at h.table);
              })
      ]
]

abbrev pub run_user_ops : List UserOp → UserStore → UserStore
run_user_ops [] s = s
run_user_ops (op ∷ ops) s = run_user_ops ops (run_user_op op s)

abbrev pub after_all : List UserOp → Contents User → Contents User
after_all [] m = m
after_all (op ∷ ops) m = after_all ops (after op m)

-- From a store whose map and list hold the same users, each id once, and whose table has the row of
-- each, any run of creations, changes and deletions whose statements succeed keeps them so, with the
-- users that the operations make: a refused creation and a change of an unknown id change nothing.
pub run_user_ops-IsSynced :
    (ops : List UserOp) (s : UserStore) (m : Contents User)
    → IsSynced s m
    → IsSynced (run_user_ops ops s) (after_all ops m)
run_user_ops-IsSynced [] s m h = h
run_user_ops-IsSynced (creating u ∷ ops) s m h =
    run_user_ops-IsSynced ops _ _ (create-IsSynced u s m h)
run_user_ops-IsSynced (changing id c ∷ ops) s m h =
    run_user_ops-IsSynced ops _ _ (mutate-IsSynced id c s m h)
run_user_ops-IsSynced (deleting d ∷ ops) s m h =
    run_user_ops-IsSynced ops _ _ (delete-IsSynced d s m h)
