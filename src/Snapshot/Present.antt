-- ===== src/Snapshot/Present.antt =====
-- What a batch leaves in the table (`LoadHistoryBatch` of internal/snapshot/snapshot.go).
use json_scanner.Base.{
  ℕ, String, ◌≡◌, refl, inl, inr, Bool, true, false, ◌&&◌, Option, none, some, List, [], ◌∷◌, ◌++◌,
  All, eq_refl, arith, contains, length, Bool-cases,
}
use json_scanner.Base.Result.{Result, ok, err, >>=-eq-ok}
use json_scanner.Snapshot.Store.{
  SnapRow, Db, SnapError, driver, Driver, has_key, row_of, insert_ignore, finish,
}
use json_scanner.Snapshot.Batch.{SnapshotBatch, insert_batches, last_batch, load_history_batch}
use json_scanner.Snapshot.Keyed.{Grows, insert_ignore-Grows, insert_batches-Grows}

module _ {D : Type 0} where
  -- The date has a row for each of the symbols.
  abbrev pub HasRows : ℕ → List (String × D) → List (SnapRow D) → Type 0
  HasRows d new rows = All (λ x. contains (has_key d x.0) rows ≡ true) new

  abbrev pub HasBatches : List (SnapshotBatch D) → List (SnapRow D) → Type 0
  HasBatches bs rows = All (λ b. HasRows b.snapshot_date b.new_rows rows) bs

  contains-append :
      (p : SnapRow D → Bool) (xs ys : List (SnapRow D))
      → contains p xs ≡ true
      → contains p (xs ++ ys) ≡ true
  contains-append p [] ys h = cc
  contains-append p (x ∷ xs) ys h = ground (arith, contains-append p xs ys)

  contains-snoc :
      (p : SnapRow D → Bool) (xs : List (SnapRow D)) (r : SnapRow D)
      → p r ≡ true
      → contains p (xs ++ (r ∷ [])) ≡ true
  contains-snoc p [] r h = ground arith
  contains-snoc p (x ∷ xs) r h = ground (arith, contains-snoc p xs r h)

  Grows-contains :
      (p : SnapRow D → Bool) (a b : List (SnapRow D))
      → Grows a b
      → contains p a ≡ true
      → contains p b ≡ true
  Grows-contains p a b g h = rw g.kept (contains-append p a g.added h)

  Grows-HasRows :
      (d : ℕ) (new : List (String × D)) (a b : List (SnapRow D))
      → Grows a b
      → HasRows d new a
      → HasRows d new b
  Grows-HasRows d [] a b g h = tt
  Grows-HasRows d (x ∷ new) a b g h =
      (Grows-contains (has_key d x.0) a b g h.0, Grows-HasRows d new a b g h.1)

  insert_ignore-HasRows :
      (dr : Driver) (d : ℕ) (new : List (String × D)) (rows rows' : List (SnapRow D))
      → insert_ignore dr d new rows ≡ ok rows'
      → HasRows d new rows'
  unfolding insert_ignore
  insert_ignore-HasRows dr d [] rows rows' h = tt
  insert_ignore-HasRows dr d ((s, c) ∷ new) rows rows' h = elim (Bool-cases (dr.insert s)) [
    | inr e ↦ absurd (ground arith)
    | inl e ↦ elim (Bool-cases (contains (has_key d s) rows)) [
      | inl q ↦
          let rest = rw (q, e) at h in
          (
            Grows-contains (has_key d s) rows rows' (insert_ignore-Grows dr d new rows rows' rest)
                q,
            insert_ignore-HasRows dr d new rows rows' rest,
          )
      | inr q ↦
          let rest = rw (q, e) at h in
          let mid = rows ++ (row_of d (s, c) ∷ []) in
          (
            Grows-contains (has_key d s) mid rows' (insert_ignore-Grows dr d new mid rows' rest)
                (contains-snoc (has_key d s) rows (row_of d (s, c)) (ground (arith, eq_refl s))),
            insert_ignore-HasRows dr d new mid rows' rest,
          )
    ]
  ]

  insert_batches-HasBatches :
      (dr : Driver) (bs : List (SnapshotBatch D)) (rows rows' : List (SnapRow D))
      → insert_batches dr bs rows ≡ ok rows'
      → HasBatches bs rows'
  unfolding insert_batches
  insert_batches-HasBatches dr [] rows rows' h = tt
  insert_batches-HasBatches dr (b ∷ bs) rows rows' h =
      let (mid, h1, h2) = >>=-eq-ok (insert_ignore dr b.snapshot_date b.new_rows rows) _ h in
      (
        Grows-HasRows b.snapshot_date b.new_rows mid rows' (insert_batches-Grows dr bs mid rows' h2)
            (insert_ignore-HasRows dr b.snapshot_date b.new_rows rows mid h1),
        insert_batches-HasBatches dr bs mid rows' h2,
      )

  finish-HasBatches :
      (dr : Driver) (d n : ℕ) (bs : List (SnapshotBatch D))
      (result : Result SnapError (List (SnapRow D))) (db : Db D)
      → ((rows : List (SnapRow D)) → result ≡ ok rows → HasBatches bs rows)
      → (finish dr d n result db).1 ≡ none
      → HasBatches bs (finish dr d n result db).0.rows
  unfolding finish
  finish-HasBatches dr d n bs (err e) db g h = absurd (cc)
  finish-HasBatches dr d n bs (ok rows) db g h = elim (Bool-cases dr.commit) [
    | inl e ↦ rw e (g rows refl)
    | inr e ↦ absurd (ground arith)
  ]

  pub started :
      (dr : Driver) (b : SnapshotBatch D) (bs : List (SnapshotBatch D)) (db : Db D)
      → (dr.ensure && dr.begin && dr.prepare) ≡ true
      → load_history_batch dr (b ∷ bs) db
        ≡ finish dr
            (last_batch b bs).snapshot_date
            (length (last_batch b bs).new_rows)
            (insert_batches dr (b ∷ bs) db.rows)
            db
  unfolding load_history_batch
  started dr b bs db e = rw e refl

  pub not_started :
      (dr : Driver) (b : SnapshotBatch D) (bs : List (SnapshotBatch D)) (db : Db D)
      → (dr.ensure && dr.begin && dr.prepare) ≡ false
      → (load_history_batch dr (b ∷ bs) db).1 ≡ some driver
  unfolding load_history_batch
  not_started dr b bs db e = rw e refl

  pub carry :
      (P : Db D × Option SnapError → Type 0) (r r' : Db D × Option SnapError) → r ≡ r' → P r' → P r
  carry P r r' e h = rw e h

  -- After a batch without an error, each of its dates has a row for each of the symbols that the
  -- batch gave for it.
  pub load_history_batch-HasBatches :
      (dr : Driver) (bs : List (SnapshotBatch D)) (db : Db D)
      → (load_history_batch dr bs db).1 ≡ none
      → HasBatches bs (load_history_batch dr bs db).0.rows
  unfolding load_history_batch
  load_history_batch-HasBatches dr [] db h = tt
  load_history_batch-HasBatches dr (b ∷ bs) db h =
      elim (Bool-cases (dr.ensure && dr.begin && dr.prepare)) [
        | inl e ↦
            carry (λ r. r.1 ≡ none → HasBatches (b ∷ bs) r.0.rows) _ _ (started dr b bs db e)
              (finish-HasBatches dr _ _ (b ∷ bs) (insert_batches dr (b ∷ bs) db.rows) db
                (λ rows q. insert_batches-HasBatches dr (b ∷ bs) db.rows rows q))
              h
        | inr e ↦ absurd (cc (h, not_started dr b bs db e))
      ]
