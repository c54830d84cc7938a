-- ===== src/Examples/Loads.antt =====
-- A batch of two dates (`LoadHistoryBatch` of internal/snapshot/snapshot.go).
use json_scanner.Base.{ℕ, ◌≡◌, ◌≢◌, ◌⊎◌, refl, none, List, [], ◌∷◌, ◌++◌}
use json_scanner.Snapshot.Store.{Db, insert_ignore, finish}
use json_scanner.Snapshot.Batch.{SnapshotBatch, insert_batches, load_history_batch}
use json_scanner.Snapshot.Loading.{healthy}
use json_scanner.Snapshot.Keyed.{Grows}
use json_scanner.Snapshot.Whole.{IsMerged, offered, load_history_batch-IsWhole}

abbrev one_day : Db ℕ
one_day = record {
  rows = record { date = 100; symbol = "AAA"; columns = 1 } ∷ [];
  snapshot_date = 100;
  active_date = 100;
  symbol_count = 1;
}

abbrev backfill : List (SnapshotBatch ℕ)
backfill =
    record { new_rows = ("AAA", 5) ∷ ("BBB", 6) ∷ []; snapshot_date = 100 }
    ∷ record { new_rows = ("AAA", 7) ∷ []; snapshot_date = 200 }
    ∷ []

load_history_batch-IsWhole_example :
    let r = load_history_batch healthy backfill one_day in
    ((r.1 ≡ none) × Grows one_day.rows r.0.rows × IsMerged one_day.rows (offered backfill) r.0.rows)
    ⊎ ((r.1 ≢ none) × (r.0 ≡ one_day))
load_history_batch-IsWhole_example = load_history_batch-IsWhole healthy backfill one_day

backfill_loads : load_history_batch healthy backfill one_day ≡ (
  record {
    rows =
        one_day.rows
        ++ (record { date = 100; symbol = "BBB"; columns = 6 }
            ∷ record { date = 200; symbol = "AAA"; columns = 7 }
            ∷ []);
    snapshot_date = 200;
    active_date = 200;
    symbol_count = 1;
  },
  none,
)
unfolding load_history_batch insert_batches insert_ignore finish
backfill_loads = refl
