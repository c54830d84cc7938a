-- ===== src/Results/Transfer.antt =====
-- Lists, export and import of saved results.
use json_scanner.Base.{
  ℕ, zero, suc, String, Bool, true, false, ◌&&◌, ◌||◌, Option, none, some, List, [], ◌∷◌, ◌=s=◌,
  ltb, select,
}
use json_scanner.Base.Int.{ℤ, pos, negsuc}
use json_scanner.Base.Result.{Result, ok, err, ◌>>=◌}
use Prim.Native.Nat.{bit_and}
use json_scanner.Results.Store.{
  SavedResult, ResultRow, Acl, ResultDb, ResultError, statement_failed, unmarshal_failed, result_of,
  save, get_by_study_and_date,
}
use json_scanner.Results.Access.{list_acls}

abbrev pub take {ℓ} : {A : Type ℓ} → ℕ → List A → List A
take zero xs = []
take (suc n) [] = []
take (suc n) (x ∷ xs) = x ∷ take n xs

abbrev pub skip {ℓ} : {A : Type ℓ} → ℕ → List A → List A
skip zero xs = xs
skip (suc n) [] = []
skip (suc n) (x ∷ xs) = skip n xs

-- `limit <= 0` and `offset < 0`
abbrev pub limit_of : ℤ → ℕ
limit_of (pos zero) = 50
limit_of (pos (suc n)) = suc n
limit_of (negsuc n) = 50

abbrev pub offset_of : ℤ → ℕ
offset_of (pos n) = n
offset_of (negsuc n) = 0

pub record ExportData (M : Type 0) : Type 0 where
  pub exported_at : ℕ
  pub user_id : String
  pub results : List (SavedResult M)

module _ {M : Type 0} (marshal : List M → Option String) (unmarshal : String → Option (List M))
    (order : List ResultRow → List ResultRow) where
  abbrev pub decoded_then :
      ResultRow
      → Option (List M)
      → Result ResultError (List (SavedResult M))
      → Result ResultError (List (SavedResult M))
  decoded_then r none rest = err unmarshal_failed
  decoded_then r (some ms) (err e) = err e
  decoded_then r (some ms) (ok rs) = ok (result_of marshal unmarshal r ms ∷ rs)

  -- The loop over the rows.
  unfoldable pub read_rows : List ResultRow → Result ResultError (List (SavedResult M))
  read_rows [] = ok []
  read_rows (r ∷ rows) = decoded_then r (unmarshal r.results_json) (read_rows rows)

  abbrev pub page : ℤ → ℤ → List ResultRow → List ResultRow
  page limit offset rows = take (limit_of limit) (skip (offset_of offset) (order rows))

  unfoldable pub list_results :
      Bool → String → ℤ → ℤ → ResultDb → Result ResultError (List (SavedResult M))
  unfolding read_rows
  list_results false user limit offset s = err statement_failed
  list_results true user limit offset s =
      read_rows (page limit offset (select (λ r. r.user_id =s= user) s.rows))

  -- The WHERE of `ListAccessible`; `is_member` is the table of group members.
  unfoldable pub is_listed : (String → String → Bool) → String → ResultRow → Bool
  is_listed is_member user r =
      r.user_id =s= user
      || ltb 0 (bit_and r.perm_all 4)
      || (is_member r.group_id user && ltb 0 (bit_and r.perm_group 4))

  unfoldable pub list_accessible :
      (String → String → Bool)
      → Bool
      → String
      → ℤ
      → ℤ
      → ResultDb
      → Result ResultError (List (SavedResult M))
  unfolding read_rows is_listed
  list_accessible is_member false user limit offset s = err statement_failed
  list_accessible is_member true user limit offset s =
      read_rows (page limit offset (select (is_listed is_member user) s.rows))

  -- The loop of `Export` that reads the access lists and drops them.
  unfoldable pub read_acls :
      (List Acl → List Acl)
      → (ℕ → Bool)
      → ResultDb
      → List (SavedResult M)
      → Result ResultError (Unit {0})
  read_acls by_time up s [] = ok tt
  read_acls by_time up s (r ∷ rs) =
      list_acls by_time (up 0) r.id s >>= λ acls. read_acls by_time (λ n. up (suc n)) s rs

  unfoldable pub export_results :
      (List Acl → List Acl) → (ℕ → Bool) → String → ℕ → ResultDb → Result ResultError (ExportData M)
  unfolding list_results read_acls
  export_results by_time up user now s = list_results (up 0) user (pos 0) (pos 0) s >>= λ rs.
      read_acls by_time (λ n. up (suc n)) s rs >>= λ done.
      ok (record { exported_at = now; user_id = user; results = rs })

-- `Import` returns the number of results saved, with an error or without.
pub record Imported : Type 0 where
  pub db : ResultDb
  pub imported : ℕ
  pub error : Option ResultError

module _ {M : Type 0} (marshal : List M → Option String)
    (unmarshal : String → Option (List M)) where
  abbrev pub after_save : (ℕ → ResultDb → Imported) → ℕ → ResultDb × Result ResultError ℕ → Imported
  after_save next n (s, err e) = record { db = s; imported = n; error = some e }
  after_save next n (s, ok id) = next (suc n) s

  abbrev pub after_look :
      (ℕ → ResultDb → Imported)
      → ℕ
      → ResultDb
      → ResultDb × Result ResultError ℕ
      → Result ResultError (Option (SavedResult M))
      → Imported
  after_look next n s saved (err e) = record { db = s; imported = n; error = some e }
  after_look next n s saved (ok (some r)) = next n s
  after_look next n s saved (ok none) = after_save next n saved

  -- The loop; `n` results were saved before. Each result has two statements at most.
  unfoldable pub import_from : (ℕ → Bool) → List (SavedResult M) → ℕ → ResultDb → Imported
  unfolding get_by_study_and_date save
  import_from up [] n s = record { db = s; imported = n; error = none }
  import_from up (r ∷ rs) n s =
      after_look (import_from (λ k. up (suc (suc k))) rs) n s (save marshal unmarshal (up 1) r s)
        (get_by_study_and_date marshal unmarshal (up 0) r.user_id r.study_id r.snapshot_date s)

  unfoldable pub import_results : (ℕ → Bool) → ExportData M → ResultDb → Imported
  unfolding import_from
  import_results up d s = import_from up d.results 0 s
