-- ===== src/User/Reopened.antt =====
-- What a user store keeps over a restart (internal/user/user.go).
use json_scanner.Base.{
  ℕ, String, ◌≡◌, refl, ◌∙◌, Bool, true, false, Option, some, List, [], ◌∷◌, ◌++◌, ◌=s=◌,
  if◌then◌else◌, ◌≢◌, ap, not, In, All, contains, map,
}
use mathlib.Core.List.{append-nil, append_assoc}
use json_scanner.Base.Dict.{Dict, insert}
use json_scanner.Base.Result.{ok}
use json_scanner.User.{User}
use json_scanner.User.Registry.{Registry}
use json_scanner.User.Store.{
  UserRow, UserStore, File, has_password, row_of, user_of, append_all, users_of, load_from_sql,
  empty_store, needs_file, open_store_with_db,
}

append_all-all : (us : List User) (s : UserStore) → (append_all us s).all ≡ s.all ++ us
unfolding append_all
append_all-all [] s = rw append-nil refl
append_all-all (u ∷ us) s =
    append_all-all us (record { all = s.all ++ (u ∷ []); by_id = insert u.id u s.by_id; db = s.db })
    ∙ append_assoc s.all (u ∷ []) us

-- Some row has no password hash.
abbrev pub HasKeyless : List UserRow → Type 0
HasKeyless answer = (r : UserRow) × In r answer × (r.pass_hash ≡ "")

-- Every row has one.
abbrev pub AllKeyed : List UserRow → Type 0
AllKeyed answer = All (λ r. (r.pass_hash =s= "") ≡ false) answer

keyed-contains :
    (answer : List UserRow)
    → AllKeyed answer
    → contains (λ u. not (has_password u)) (users_of answer) ≡ false
unfolding has_password user_of
keyed-contains [] h = refl
keyed-contains (x ∷ rest) h = rw h.0 (keyed-contains rest h.1)

needs_file-keyed :
    (answer : List UserRow)
    → answer ≢ []
    → AllKeyed answer
    → needs_file true (users_of answer) ≡ false
unfolding needs_file
needs_file-keyed [] n k = absurd (n refl)
needs_file-keyed (r ∷ rest) n k = keyed-contains (r ∷ rest) k

-- What is left of a user after a restart.
abbrev pub stored_role : User → String
stored_role u = if u.role_id =s= "" then (if u.role =s= "" then "user" else u.role) else u.role_id

abbrev pub remembered : User → User
remembered u = record u {
  tier = "";
  role = stored_role u;
  role_id = stored_role u;
  groups = [];
  pass_sha256 = "";
}

users_of-row_of : (us : List User) → users_of (map row_of us) ≡ map remembered us
unfolding user_of row_of
users_of-row_of [] = refl
users_of-row_of (u ∷ us) = ap (λ rest. remembered u ∷ rest) (users_of-row_of us)

row_of-AllKeyed :
    (us : List User) → All (λ u. (u.pass_hash =s= "") ≡ false) us → AllKeyed (map row_of us)
unfolding row_of
row_of-AllKeyed [] k = tt
row_of-AllKeyed (u ∷ us) k = (k.0, row_of-AllKeyed us k.1)

row_of-not_nil : (us : List User) → us ≢ [] → map row_of us ≢ []
row_of-not_nil [] n e = n refl
row_of-not_nil (u ∷ us) n e = cc

-- A store opened on the rows that were written for some users, each with a password hash, does not
-- read the file and has those users in order with their id, name, hash, disabled mark and the two
-- language-model settings; each is of the tier "" and in no group, has no legacy hash, and has
-- as its role and role id the role id where that was set, else the role, else "user".
pub open_store_with_db-row_of :
    (decode : List ℕ → Option User) (table : Dict UserRow) (us : List User) (file : Option File)
    (up : ℕ → Bool)
    → us ≢ []
    → All (λ u. (u.pass_hash =s= "") ≡ false) us
    → (s : UserStore) × (open_store_with_db decode table (map row_of us) true file up ≡ ok s)
      × (s.all ≡ map remembered us)
unfolding open_store_with_db load_from_sql
open_store_with_db-row_of decode table us file up n k =
    let start = empty_store (some table) in
    let answer = map row_of us in
    let listed = append_all-all (users_of answer) start in
    let from_table = needs_file-keyed answer (row_of-not_nil us n) (row_of-AllKeyed us k) in
    (append_all (users_of answer) start, rw (listed, from_table) refl, listed ∙ users_of-row_of us)
