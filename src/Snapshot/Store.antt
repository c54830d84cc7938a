-- ===== src/Snapshot/Store.antt =====
-- State and operations of the snapshot store (internal/snapshot/snapshot.go).
-- A row carries its columns as one value of a type `D`, which the store passes on unread but for
-- the column `close`. A statement of the source on the table is a function on the rows; which
-- statements the driver carries out is an argument.
use json_scanner.Base.{
  ℕ, ◌-◌, String, Bool, not, ◌&&◌, Option, none, some, List, [], ◌∷◌, ◌++◌, ◌=s=◌, ◌==◌, ltb, leb,
  length, select, contains, find_first, if◌then◌else◌,
}
use json_scanner.Base.Result.{Result, ok, err}

pub record SnapRow (D : Type 0) : Type 0 where
  pub date : ℕ
  pub symbol : String
  pub columns : D

pub record Db (D : Type 0) : Type 0 where
  pub rows : List (SnapRow D)
  pub snapshot_date : ℕ
  pub active_date : ℕ
  pub symbol_count : ℕ

pub data SnapError : Type 0 where
  driver constraint not_found no_rows invalid_sql : SnapError

-- Which statements of a load the driver carries out.
pub record Driver : Type 0 where
  pub ensure : Bool
  pub remove : Bool
  pub begin : Bool
  pub prepare : Bool
  pub insert : String → Bool
  pub commit : Bool

-- DISTINCT dates, newest first.
unfoldable pub insert_date : ℕ → List ℕ → List ℕ
insert_date d [] = d ∷ []
insert_date d (e ∷ ds) =
    let later = insert_date d ds in
    if d == e then e ∷ ds else if ltb e d then d ∷ e ∷ ds else e ∷ later

module _ {D : Type 0} where
  abbrev pub on_date : ℕ → SnapRow D → Bool
  on_date d r = r.date == d

  abbrev pub has_key : ℕ → String → SnapRow D → Bool
  has_key d s r = r.date == d && r.symbol =s= s

  abbrev pub date_rows : ℕ → List (SnapRow D) → List (SnapRow D)
  date_rows d rows = select (on_date d) rows

  abbrev pub row_of : ℕ → String × D → SnapRow D
  row_of d (s, c) = record { date = d; symbol = s; columns = c }

  -- The inserts of `LoadHistory`: the primary key refuses a second row of a symbol.
  unfoldable pub insert_all :
      Driver → ℕ → List (String × D) → List (SnapRow D) → Result SnapError (List (SnapRow D))
  insert_all dr d [] rows = ok rows
  insert_all dr d ((s, c) ∷ new) rows =
      let rest = insert_all dr d new (rows ++ (row_of d (s, c) ∷ [])) in
      if not (dr.insert s)
      then err driver
      else if contains (has_key d s) rows
      then err constraint
      else rest

  -- INSERT OR IGNORE: a row whose key is there is skipped.
  unfoldable pub insert_ignore :
      Driver → ℕ → List (String × D) → List (SnapRow D) → Result SnapError (List (SnapRow D))
  insert_ignore dr d [] rows = ok rows
  insert_ignore dr d ((s, c) ∷ new) rows =
      let rest =
        insert_ignore dr d new
          (if contains (has_key d s) rows then rows else rows ++ (row_of d (s, c) ∷ [])) in
      if not (dr.insert s) then err driver else rest

  -- The end of a load: the transaction commits and the metadata follow, or it rolls back.
  unfoldable pub finish :
      Driver → ℕ → ℕ → Result SnapError (List (SnapRow D)) → Db D → Db D × Option SnapError
  finish dr d n (err e) db = (db, some e)
  finish dr d n (ok rows) db =
      if dr.commit
      then (record { rows = rows; snapshot_date = d; active_date = d; symbol_count = n }, none)
      else (db, some driver)

  -- `LoadHistory`: the rows of the date are deleted before the transaction begins.
  unfoldable pub load_history : Driver → List (String × D) → ℕ → Db D → Db D × Option SnapError
  unfolding finish
  load_history dr new d db =
      if not (dr.ensure && dr.remove)
      then (db, some driver)
      else (let cleared = record db { rows = select (λ r. not (on_date d r)) db.rows } in
          if not (dr.begin && dr.prepare)
          then (cleared, some driver)
          else finish dr d (length new) (insert_all dr d new cleared.rows) cleared)

  -- `LoadHistoryInsert`
  unfoldable pub load_history_insert :
      Driver → List (String × D) → ℕ → Db D → Db D × Option SnapError
  unfolding finish
  load_history_insert dr new d db =
      if not (dr.ensure && dr.begin && dr.prepare)
      then (db, some driver)
      else finish dr d (length new) (insert_ignore dr d new db.rows) db

  -- `HasSnapshot`; `up` is whether the statement is carried out.
  unfoldable pub has_snapshot : Bool → ℕ → Db D → Result SnapError Bool
  has_snapshot up d db = if up then ok (ltb 0 (length (date_rows d db.rows))) else err driver

  unfoldable pub set_active : Bool → ℕ → Db D → Db D × Option SnapError
  set_active up d db =
      if not up
      then (db, some driver)
      else if length (date_rows d db.rows) == 0
      then (db, some not_found)
      else (record db { active_date = d }, none)

  unfoldable pub dates_of : List (SnapRow D) → List ℕ
  unfolding insert_date
  dates_of [] = []
  dates_of (r ∷ rows) = insert_date r.date (dates_of rows)

  unfoldable pub list_snapshots : Bool → Db D → Result SnapError (List ℕ)
  list_snapshots up db = if up then ok (dates_of db.rows) else err driver

  -- The earliest date at or after `from`: MIN is NULL, which the scan refuses, if there is none.
  unfoldable pub min_date_from : ℕ → List (SnapRow D) → Option ℕ
  min_date_from from [] = none
  min_date_from from (r ∷ rows) =
      let rest = min_date_from from rows in
      if leb from r.date
      then some (elim rest [ none ↦ r.date | some d ↦ if leb r.date d then r.date else d ])
      else rest

  unfoldable pub nearest_date : Bool → ℕ → Db D → Result SnapError ℕ
  nearest_date up from db =
      if up
      then elim (min_date_from from db.rows) [ none ↦ err driver | some d ↦ ok d ]
      else err driver

  -- `Cleanup`, for the cutoff that the clock gives; a fault stops it where it stands.
  unfoldable pub cleanup : Bool → Bool → Bool → ℕ → ℕ → Db D → Db D × Result SnapError ℕ
  cleanup up_before up_delete up_after keep_days cutoff db =
      if keep_days == 0
      then (db, ok 0)
      else if not (up_before && up_delete)
      then (db, err driver)
      else (let kept = record db { rows = select (λ r. not (ltb r.date cutoff)) db.rows } in
          if up_after
          then (kept, ok (length (dates_of db.rows) - length (dates_of kept.rows)))
          else (kept, err driver))

  module _ {F : Type 0} (close : D → Option F) where
    close_of : Option (SnapRow D) → Result SnapError F
    close_of none = err no_rows
    close_of (some r) = elim (close r.columns) [ none ↦ err no_rows | some x ↦ ok x ]

    unfoldable pub symbol_close : Bool → String → ℕ → Db D → Result SnapError F
    unfolding close_of
    symbol_close up s d db = if up then close_of (find_first (has_key d s) db.rows) else err driver
