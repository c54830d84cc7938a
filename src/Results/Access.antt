-- ===== src/Results/Access.antt =====
-- The access lists of saved results: `AddACL`, `RemoveACL`, `GetACL` and `ListACLs`.
use json_scanner.Base.{
  ℕ, String, Bool, true, false, not, ◌&&◌, Option, none, some, List, [], ◌∷◌, ◌++◌, ◌==◌, ◌=s=◌,
  find_first, contains, select,
}
use json_scanner.Base.Result.{Result, ok, err}
use json_scanner.Results.Store.{
  Acl, ResultDb, ResultError, statement_failed, acl_not_found, affecting,
}

-- The primary key of the table.
abbrev pub is_acl : ℕ → String → Acl → Bool
is_acl result user a = a.result_id == result && a.user_id =s= user

unfoldable pub add_acl : Bool → Acl → ResultDb → ResultDb × Option ResultError
add_acl false a s = (s, some statement_failed)
add_acl true a s = (
  record s { acls = select (λ b. not (is_acl a.result_id a.user_id b)) s.acls ++ (a ∷ []) },
  none,
)

unfoldable pub remove_acl : Bool → ℕ → String → ResultDb → ResultDb × Option ResultError
remove_acl up result user s =
    affecting up (contains (is_acl result user) s.acls) acl_not_found s
      (record s { acls = select (λ b. not (is_acl result user b)) s.acls })

unfoldable pub get_acl : Bool → ℕ → String → ResultDb → Result ResultError (Option Acl)
get_acl false result user s = err statement_failed
get_acl true result user s = ok (find_first (is_acl result user) s.acls)

-- `order` is what ORDER BY granted_at makes of the rows.
unfoldable pub list_acls :
    (List Acl → List Acl) → Bool → ℕ → ResultDb → Result ResultError (List Acl)
list_acls order false result s = err statement_failed
list_acls order true result s = ok (order (select (λ a. a.result_id == result) s.acls))
