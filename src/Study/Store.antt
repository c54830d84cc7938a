-- ===== src/Study/Store.antt =====
-- The study store (internal/study/store.go): the list, the map by key and the SQL table. `up` says
-- whether the driver carries a statement out; for a run of statements it says so by position. What
-- a file holds and what the JSON decoder makes of it are inputs.
use json_scanner.Base.{
  ℕ, suc, String, Bool, true, false, not, ◌||◌, Option, none, some, List, [], ◌∷◌, ◌++◌, ◌=s=◌,
  if◌then◌else◌,
}
use json_scanner.Base.Dict.{Dict, lookup, insert, delete, is_some}
use json_scanner.Base.Keyed.{replace_first, drop_key}
use json_scanner.Base.Result.{Result, ok, err}
use json_scanner.Base.Text.{trim_text}
use json_scanner.User.{global_id, tier_free}
use json_scanner.Study.Access.{Study, load_jsonl, vis_public, vis_private}

-- `db` is none where the store was opened without a database. The rows are under their keys.
pub record StudyStore : Type 0 where
  pub db : Option (Dict Study)
  pub all : List Study
  pub by_key : Dict Study

pub data StudyError : Type 0 where
  key_required where_required statement_failed unreadable_file bad_items : StudyError
  study_not_found : String → StudyError
  bad_line : ℕ → StudyError

abbrev pub key_of : Study → String
key_of st = st.key

-- The row that `saveToSQL` writes.
unfoldable pub saved : Study → Study
saved st = record st {
  visibility = if st.visibility =s= "" then "private" else st.visibility;
  tier = if st.tier =s= "" then "free" else st.tier;
}

unfoldable pub put_row : Study → Dict Study → Dict Study
unfolding saved
put_row st rows = insert st.key (saved st) rows

unfoldable pub save_to_sql : Bool → Study → StudyStore → StudyStore × Option StudyError
unfolding put_row
save_to_sql up st s = elim s.db [
  | none ↦ (s, none)
  | some rows ↦
      if up then (record s { db = some (put_row st rows) }, none) else (s, some statement_failed)
]

-- `importJSONLFile` after the file was decoded, and the loop of `loadFromSQL`.
unfoldable pub append_all : List Study → StudyStore → StudyStore
append_all [] s = s
append_all (st ∷ rest) s =
    append_all rest (record s { all = s.all ++ (st ∷ []); by_key = insert st.key st s.by_key })

pub data File : Type 0 where
  missing unreadable : File
  lines : List (List ℕ) → File

abbrev pub append_loaded : StudyStore → Result ℕ (List Study) → StudyStore × Option StudyError
append_loaded s (err n) = (s, some (bad_line n))
append_loaded s (ok sts) = (append_all sts s, none)

module _ (decode : List ℕ → Option Study) where
  unfoldable pub import_jsonl_file : File → StudyStore → StudyStore × Option StudyError
  unfolding append_all
  import_jsonl_file missing s = (s, none)
  import_jsonl_file unreadable s = (s, some unreadable_file)
  import_jsonl_file (lines ls) s = append_loaded s (load_jsonl decode ls)

  abbrev pub opened : StudyStore × Option StudyError → Result StudyError StudyStore
  opened (s, none) = ok s
  opened (s, some e) = err e

  -- `OpenStore`
  unfoldable pub open_store : File → Result StudyError StudyStore
  unfolding import_jsonl_file
  open_store file = opened (import_jsonl_file file (record { db = none; all = []; by_key = [] }))

-- The loop of `OpenStoreWithDB` that writes what was imported.
abbrev pub then_save :
    (StudyStore → Result StudyError StudyStore)
    → StudyStore × Option StudyError
    → Result StudyError StudyStore
then_save next (s, none) = next s
then_save next (s, some e) = err e

unfoldable pub save_all : (ℕ → Bool) → List Study → StudyStore → Result StudyError StudyStore
unfolding save_to_sql
save_all up [] s = ok s
save_all up (st ∷ rest) s = then_save (save_all (λ n. up (suc n)) rest) (save_to_sql (up 0) st s)

abbrev pub is_nil : List Study → Bool
is_nil [] = true
is_nil (st ∷ rest) = false

abbrev pub seeded : (ℕ → Bool) → StudyStore × Option StudyError → Result StudyError StudyStore
seeded up (s, none) = save_all up s.all s
seeded up (s, some e) = err e

-- `OpenStoreWithDB`: `answer` are the rows that the query gave before it ended, `answered` whether
-- it ended without an error, and the file is none where no path was given.
unfoldable pub open_store_with_db :
    (decode : List ℕ → Option Study)
    → (table : Dict Study) → (answer : List Study) → (answered : Bool) → (file : Option File)
    → (up : ℕ → Bool) → Result StudyError StudyStore
unfolding append_all import_jsonl_file save_all
open_store_with_db decode table answer answered file up =
    let s = append_all answer (record { db = some table; all = []; by_key = [] }) in
    let reload = λ (f : File).
      seeded up (import_jsonl_file decode f (record { db = some table; all = []; by_key = [] })) in
    if not answered || is_nil s.all then elim file [ none ↦ ok s | some f ↦ reload f ] else ok s

unfoldable pub get : String → StudyStore → Option Study
get k s = lookup k s.by_key

-- The defaults of `Upsert`, for a study whose key is trimmed.
unfoldable pub filled : Study → Study
filled st =
    let owner = if st.owner =s= "" then global_id else st.owner in
    record st {
      key = trim_text st.key;
      owner = owner;
      tier = if st.tier =s= "" then tier_free else st.tier;
      visibility =
          if st.visibility =s= ""
          then (if owner =s= global_id then vis_public else vis_private)
          else st.visibility;
    }

-- What `Upsert` does under the lock, before it saves.
unfoldable pub put : Study → StudyStore → StudyStore
put st s = record s {
  all =
      if is_some (lookup st.key s.by_key)
      then replace_first key_of st s.all
      else s.all ++ (st ∷ []);
  by_key = insert st.key st s.by_key;
}

unfoldable pub upsert : Bool → Study → StudyStore → StudyStore × Option StudyError
unfolding filled put save_to_sql
upsert up st s =
    if trim_text st.key =s= ""
    then (s, some key_required)
    else if trim_text st.where_sql =s= ""
    then (s, some where_required)
    else save_to_sql up (filled st) (put (filled st) s)

-- The statement of `Delete`, and whether the code goes on.
abbrev pub delete_row : Bool → String → Option (Dict Study) → Option (Dict Study) × Bool
delete_row up k none = (none, true)
delete_row true k (some rows) = (some (delete k rows), true)
delete_row false k (some rows) = (some rows, false)

abbrev pub then_drop :
    String → StudyStore → Option (Dict Study) × Bool → StudyStore × Option StudyError
then_drop k s (db, true) = (record s { db = db; all = drop_key key_of k s.all }, none)
then_drop k s (db, false) = (record s { db = db }, some statement_failed)

unfoldable pub delete_study : Bool → String → StudyStore → StudyStore × Option StudyError
delete_study up k s =
    if is_some (lookup k s.by_key)
    then then_drop k (record s { by_key = delete k s.by_key }) (delete_row up k s.db)
    else (s, some (study_not_found k))

-- The loop of `ImportJSON`, with the number of studies that were stored.
abbrev pub counted : (StudyStore → StudyStore × ℕ) → StudyStore × Option StudyError → StudyStore × ℕ
counted next (s, none) = let r = next s in (r.0, suc r.1)
counted next (s, some e) = next s

unfoldable pub import_all : (ℕ → Bool) → List Study → StudyStore → StudyStore × ℕ
unfolding upsert
import_all up [] s = (s, 0)
import_all up (st ∷ rest) s = counted (import_all (λ n. up (suc n)) rest) (upsert (up 0) st s)

unfoldable pub import_json :
    (ℕ → Bool) → Option (List Study) → StudyStore → StudyStore × Result StudyError ℕ
unfolding import_all
import_json up none s = (s, err bad_items)
import_json up (some sts) s = let r = import_all up sts s in (r.0, ok r.1)
