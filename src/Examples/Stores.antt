-- ===== src/Examples/Stores.antt =====
-- The study store, the user store and saved results (internal/study/store.go,
-- internal/user/user.go, internal/results/results.go).
use json_scanner.Base.{
  map, ℕ, String, ◌≡◌, refl, sym, Bool, true, false, Option, none, some, List, [], ◌∷◌, ◌==◌, ◌=s=◌,
  count, length, if◌then◌else◌, inl,
}
use json_scanner.Base.Dict.{Dict, lookup, insert, is_some}
use json_scanner.Base.Keyed.{has_key, replace_first}
use json_scanner.Base.Mirror.{Contents}
use json_scanner.Base.Result.{ok}
use json_scanner.Base.Text.{codes, codes_eq, trim_text, is_space}
use json_scanner.Study.Access.{Study}
use json_scanner.Study.Store.{
  StudyStore, key_of, get, upsert, delete_study, statement_failed, filled, put, put_row, saved,
  save_to_sql,
}
use json_scanner.Study.Stored.{
  IsSynced, StudyOp, upserting, deleting, after, run_ops, after_all, run_ops-IsSynced,
  delete_failed_duplicates,
}
use json_scanner.User.{User}
use json_scanner.User.Registry.{Registry}
use json_scanner.User.Store as UserStore
use json_scanner.User.Stored as UserStored
use json_scanner.User.Reopened.{HasKeyless, open_store_with_db-row_of}
use json_scanner.Results.Store as ResultStore
use json_scanner.Results.Transfer.{
  ExportData, export_results, import_results, import_from, list_results, read_rows, read_acls,
}
use json_scanner.Results.Access.{list_acls}
use json_scanner.Results.Listed.{smaller, export_results-truncates}
use json_scanner.Results.Imported.{import_results-again}
use json_scanner.Results.Kept.{IsFresh, ResultOp, run_result_op, run_result_op-IsFresh, get-save}

abbrev gap_up : Study
gap_up = record {
  owner = "";
  visibility = "";
  group = "";
  tier = "";
  key = " gap ";
  title = "Gap";
  emoji = "";
  where_sql = "gap_pct > 2";
  order_by = "";
  limit = 0;
}

abbrev gap_key : Study
gap_key = record gap_up { key = "gap"; owner = "global"; tier = "free"; visibility = "public" }

abbrev no_studies : StudyStore
no_studies = record { db = some []; all = []; by_key = [] }

abbrev nothing : Contents Study
nothing k = none

no_studies-IsSynced : IsSynced no_studies nothing
no_studies-IsSynced = record {
  mirrors = record { by_key = λ k. (unfold lookup in refl); listed = λ k. refl; once = λ k. refl };
  table = λ k. (unfold lookup in refl);
}

abbrev edits : List StudyOp
edits = upserting gap_up ∷ upserting gap_up ∷ deleting "other" ∷ []

run_ops-IsSynced_example : IsSynced (run_ops edits no_studies) (after_all edits nothing)
run_ops-IsSynced_example = run_ops-IsSynced edits no_studies nothing no_studies-IsSynced

upsert_test : (run_ops edits no_studies).all ≡ gap_key ∷ []
unfolding upsert delete_study filled put save_to_sql trim_text is_space lookup insert replace_first
upsert_test = refl

abbrev edited : StudyStore
edited = run_ops edits no_studies

abbrev gap_row : Dict Study
gap_row = ("gap", gap_key) ∷ []

edited_db : edited.db ≡ some gap_row
unfolding upsert delete_study filled put save_to_sql put_row saved trim_text is_space lookup insert
edited_db = refl

edited_gap : is_some (after_all edits nothing (trim_text gap_up.key)) ≡ true
unfolding after trim_text is_space filled
edited_gap = refl

gap_has_key : (trim_text gap_up.key =s= "") ≡ false
unfolding trim_text is_space
gap_has_key = refl

gap_has_where : (trim_text gap_up.where_sql =s= "") ≡ false
unfolding trim_text is_space
gap_has_where = refl

delete_failed_duplicates_example :
    let k = trim_text gap_up.key in
    let failed = delete_study false k edited in
    (failed.1 ≡ some statement_failed)
    × (get k failed.0 ≡ none)
    × (failed.0.all ≡ edited.all)
    × (count (has_key key_of k) edited.all ≡ 1)
    × (failed.0.db ≡ some gap_row)
    × (lookup k gap_row ≡ after_all edits nothing k)
    × (count (has_key key_of k) (upsert true gap_up failed.0).0.all ≡ 2)
delete_failed_duplicates_example =
    delete_failed_duplicates gap_up edited (after_all edits nothing) gap_row
      (run_ops-IsSynced edits no_studies nothing no_studies-IsSynced) edited_db edited_gap
      gap_has_key gap_has_where

abbrev zoe : User
zoe = record {
  id = "zoe";
  name = "Zoe";
  tier = "pro";
  role = "";
  role_id = "analyst";
  groups = "desk" ∷ [];
  pass_hash = "h";
  pass_sha256 = "";
  disabled = false;
  nlp_enabled = true;
  nlp_daily_limit = 10;
}

abbrev no_users : UserStore.UserStore
no_users = UserStore.empty_store (some [])

abbrev nobody : Contents User
nobody k = none

no_users-IsSynced : UserStored.IsSynced no_users nobody
no_users-IsSynced = record {
  mirrors = record { by_key = λ k. (unfold lookup in refl); listed = λ k. refl; once = λ k. refl };
  table = λ k. (unfold lookup in refl);
}

abbrev hires : List UserStored.UserOp
hires =
    UserStored.creating zoe
    ∷ UserStored.creating zoe
    ∷ UserStored.changing "zoe" (UserStore.set_role "admin")
    ∷ []

run_user_ops-IsSynced_example :
    UserStored.IsSynced (UserStored.run_user_ops hires no_users) (UserStored.after_all hires nobody)
run_user_ops-IsSynced_example =
    UserStored.run_user_ops-IsSynced hires no_users nobody no_users-IsSynced

abbrev keyless : UserStore.UserRow
keyless = record {
  id = "amy";
  name = "Amy";
  role_id = "user";
  pass_hash = "";
  disabled = false;
  nlp_enabled = true;
  nlp_daily_limit = 10;
}

-- A decoder for the example: the line "z" is Zoe, and no other line decodes.
abbrev decode_z : List ℕ → Option User
decode_z t = if codes_eq t (codes "z") then some zoe else none

abbrev seed : List (List ℕ)
seed = codes "z" ∷ []

abbrev seed_users : Registry
seed_users = record {
  all = record zoe { role = "user" } ∷ [];
  by_id = ("zoe", record zoe { role = "user" }) ∷ [];
}

open_store_with_db-row_of_example :
    (s : UserStore.UserStore) × (UserStore.open_store_with_db decode_z []
        (map UserStore.row_of (UserStore.changed (UserStore.set_role "admin") zoe ∷ []))
        true
        none
        (λ n. true)
      ≡ ok s)
    × (s.all
        ≡ record zoe {
          tier = "";
          role = "analyst";
          role_id = "analyst";
          groups = [];
          pass_sha256 = "";
        }
          ∷ [])
unfolding UserStore.changed
open_store_with_db-row_of_example =
    open_store_with_db-row_of decode_z [] (UserStore.changed (UserStore.set_role "admin") zoe ∷ [])
      none (λ n. true) (λ e. cc) (refl, tt)

keyless_row : HasKeyless (keyless ∷ [])
keyless_row = (keyless, inl refl, refl)

-- Matches that are only there or not, and their encoding for lists of at most one.
abbrev marshal : List Bool → Option String
marshal [] = some "[]"
marshal (true ∷ []) = some "[1]"
marshal (false ∷ []) = some "[0]"
marshal (b ∷ c ∷ rest) = none

abbrev unmarshal : String → Option (List Bool)
unmarshal t =
    if t =s= "[]"
    then some []
    else if t =s= "[1]"
    then some (true ∷ [])
    else if t =s= "[0]"
    then some (false ∷ [])
    else none

reads_back : (ms : List Bool) (json : String) → marshal ms ≡ some json → unmarshal json ≡ some ms
reads_back [] json e = let q : "[]" ≡ json = cc in rw (sym q) refl
reads_back (true ∷ []) json e = let q : "[1]" ≡ json = cc in rw (sym q) refl
reads_back (false ∷ []) json e = let q : "[0]" ≡ json = cc in rw (sym q) refl
reads_back (b ∷ c ∷ rest) json e = cc

abbrev scan : ResultStore.SavedResult Bool
scan = record {
  id = 0;
  user_id = "zoe";
  study_id = "gap";
  snapshot_date = 86400;
  results = true ∷ [];
  created_at = 90000;
  name = "";
  notes = "";
  perm_owner = 7;
  perm_group = 0;
  perm_all = 0;
  group_id = "";
}

abbrev no_results : ResultStore.ResultDb
no_results = record { rows = []; next_id = 1; acls = [] }

get-save_example :
    ((ResultStore.save marshal unmarshal true scan no_results).1 ≡ ok 1)
    × (ResultStore.get marshal unmarshal true 1
          (ResultStore.save marshal unmarshal true scan no_results).0
        ≡ (if 1 == 1
            then ok (some (record scan { id = 1 }))
            else ResultStore.get marshal unmarshal true 1 no_results))
get-save_example = get-save marshal unmarshal scan no_results "[1]" 1 tt refl refl

run_result_op-IsFresh_example :
    IsFresh (run_result_op marshal unmarshal true (ResultOp.saving scan) no_results)
run_result_op-IsFresh_example =
    run_result_op-IsFresh marshal unmarshal true (ResultOp.saving scan) no_results tt

abbrev exported : ExportData Bool
exported = record { exported_at = 100000; user_id = "zoe"; results = scan ∷ scan ∷ [] }

exported_loads : (import_results marshal unmarshal (λ n. true) exported no_results).error ≡ none
unfolding import_results import_from ResultStore.save ResultStore.get_by_study_and_date
exported_loads = refl

import_results-again_example :
    import_results marshal unmarshal
      (λ k. true)
      exported
      (import_results marshal unmarshal (λ k. true) exported no_results).db
    ≡ record {
      db = (import_results marshal unmarshal (λ k. true) exported no_results).db;
      imported = 0;
      error = none;
    }
import_results-again_example =
    import_results-again marshal unmarshal (λ k. true) exported no_results reads_back exported_loads

abbrev one_result : ResultStore.ResultDb
one_result = record {
  rows = ResultStore.new_row marshal unmarshal 1 scan "[1]" ∷ [];
  next_id = 2;
  acls = [];
}

abbrev one_exported : ExportData Bool
one_exported = record {
  exported_at = 100000;
  user_id = "zoe";
  results = record scan { id = 1 } ∷ [];
}

one_exports :
    export_results marshal unmarshal
      (λ rows. rows)
      (λ acls. acls)
      (λ n. true)
      "zoe"
      100000
      one_result
    ≡ ok one_exported
unfolding export_results list_results read_rows read_acls list_acls
one_exports = refl

export_results-truncates_example :
    length one_exported.results ≡ smaller (count (λ r. r.user_id =s= "zoe") one_result.rows) 50
export_results-truncates_example =
    export_results-truncates marshal unmarshal (λ rows. rows) (λ acls. acls) (λ n. true) "zoe"
      100000 one_result one_exported (λ rows. refl) one_exports
