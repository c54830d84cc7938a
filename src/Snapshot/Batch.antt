-- ===== src/Snapshot/Batch.antt =====
-- `Load` and `LoadHistoryBatch` of internal/snapshot/snapshot.go.
use json_scanner.Base.{
  ℕ, String, not, ◌&&◌, Option, none, some, List, [], ◌∷◌, length, if◌then◌else◌,
}
use json_scanner.Base.Result.{Result, ok, ◌>>=◌}
use json_scanner.Snapshot.Store.{
  SnapRow, Db, SnapError, driver, Driver, load_history, insert_ignore, finish,
}

pub record SnapshotBatch (D : Type 0) : Type 0 where
  pub new_rows : List (String × D)
  pub snapshot_date : ℕ

module _ {D : Type 0} where
  -- `Load` has the statements of `LoadHistory`; the bar's time, a column, is the date too.
  unfoldable pub load : Driver → List (String × D) → ℕ → Db D → Db D × Option SnapError
  load dr new ts db = load_history dr new ts db

  -- The two loops of the batch.
  unfoldable pub insert_batches :
      Driver → List (SnapshotBatch D) → List (SnapRow D) → Result SnapError (List (SnapRow D))
  insert_batches dr [] rows = ok rows
  insert_batches dr (b ∷ bs) rows =
      insert_ignore dr b.snapshot_date b.new_rows rows >>= insert_batches dr bs

  -- `snapshots[len(snapshots)-1]`, of a list that starts with `b`.
  abbrev pub last_batch : SnapshotBatch D → List (SnapshotBatch D) → SnapshotBatch D
  last_batch b [] = b
  last_batch b (c ∷ cs) = last_batch c cs

  unfoldable pub load_history_batch :
      Driver → List (SnapshotBatch D) → Db D → Db D × Option SnapError
  unfolding insert_batches finish
  load_history_batch dr [] db = (db, none)
  load_history_batch dr (b ∷ bs) db =
      if not (dr.ensure && dr.begin && dr.prepare)
      then (db, some driver)
      else (let last = last_batch b bs in
          finish dr last.snapshot_date (length last.new_rows) (insert_batches dr (b ∷ bs) db.rows)
            db)
