-- ===== src/Snapshot/Whole.antt =====
-- Which rows a batch leaves in the table (`LoadHistoryBatch` of internal/snapshot/snapshot.go).
use mathlib.Core.List.{append_assoc, append-nil}
use json_scanner.Base.{
  ℕ, String, ◌≡◌, ◌≢◌, ◌⊎◌, refl, sym, ap, ◌∙◌, inl, inr, Bool, true, ◌&&◌, Option, none, some,
  List, [], ◌∷◌, ◌++◌, arith, eq_iff, contains, find_first, Bool-cases,
}
use json_scanner.Base.Result.{Result, ok, err, >>=-eq-ok}
use json_scanner.Snapshot.Store.{
  SnapRow, Db, SnapError, Driver, has_key, row_of, insert_ignore, finish,
}
use json_scanner.Snapshot.Batch.{SnapshotBatch, insert_batches, load_history_batch}
use json_scanner.Snapshot.Loading.{rows_for}
use json_scanner.Snapshot.Keyed.{Grows, load_history_batch-IsAllOrNothing}
use json_scanner.Snapshot.Present.{started, not_started, carry}

module _ {A : Type 0} where
  abbrev or_else : Option A → Option A → Option A
  or_else none o = o
  or_else (some a) o = some a

  find_first-append :
      (p : A → Bool) (xs ys : List A)
      → find_first p (xs ++ ys) ≡ or_else (find_first p xs) (find_first p ys)
  find_first-append p [] ys = refl
  find_first-append p (x ∷ xs) ys = elim (Bool-cases (p x)) [
    | inl e ↦ rw e refl
    | inr e ↦ rw e (find_first-append p xs ys)
  ]

  find_first-contains :
      (p : A → Bool) (xs : List A) (o o' : Option A)
      → contains p xs ≡ true
      → or_else (find_first p xs) o ≡ or_else (find_first p xs) o'
  find_first-contains p [] o o' h = cc
  find_first-contains p (x ∷ xs) o o' h = elim (Bool-cases (p x)) [
    | inl e ↦ rw e refl
    | inr e ↦ rw e (find_first-contains p xs o o' (rw e at h))
  ]

module _ {D : Type 0} where
  -- The rows that the batches give, in order.
  abbrev pub offered : List (SnapshotBatch D) → List (SnapRow D)
  offered [] = []
  offered (b ∷ bs) = rows_for b.snapshot_date b.new_rows ++ offered bs

  -- The row of each date and symbol is the first that the old table and then the new rows have.
  abbrev pub IsMerged : List (SnapRow D) → List (SnapRow D) → List (SnapRow D) → Type 0
  IsMerged rows new rows' =
      (d : ℕ) (s : String) → find_first (has_key d s) rows' ≡ find_first (has_key d s) (rows ++ new)

  same_key :
      (d e : ℕ) (s t : String) (c : D)
      → has_key e t (row_of d (s, c)) ≡ true
      → (rows : List (SnapRow D)) → contains (has_key d s) rows ≡ contains (has_key e t) rows
  same_key d e s t c h rows =
      let date : d ≡ e = ground arith in
      let symbol : s ≡ t = (eq_iff s t).0 (ground arith) in rw (date, symbol) refl

  skipped :
      (d e : ℕ) (s t : String) (c : D) (rows rest : List (SnapRow D))
      → contains (has_key d s) rows ≡ true
      → find_first (has_key e t) (rows ++ rest)
        ≡ find_first (has_key e t) (rows ++ (row_of d (s, c) ∷ rest))
  skipped d e s t c rows rest h =
      find_first-append (has_key e t) rows rest
      ∙ (elim (Bool-cases (has_key e t (row_of d (s, c)))) [
        | inl q ↦ find_first-contains (has_key e t) rows _ _ (sym (same_key d e s t c q rows) ∙ h)
        | inr q ↦ rw q refl
      ]
          ∙ sym (find_first-append (has_key e t) rows (row_of d (s, c) ∷ rest)))

  insert_ignore-IsMerged :
      (dr : Driver) (d : ℕ) (new : List (String × D)) (rows rows' : List (SnapRow D))
      → insert_ignore dr d new rows ≡ ok rows'
      → IsMerged rows (rows_for d new) rows'
  unfolding insert_ignore
  insert_ignore-IsMerged dr d [] rows rows' h e t =
      let same : rows ≡ rows' = cc in
      ap (find_first (has_key e t)) (sym same ∙ sym (append-nil rows))
  insert_ignore-IsMerged dr d ((s, c) ∷ new) rows rows' h e t = elim (Bool-cases (dr.insert s)) [
    | inr i ↦ absurd (ground arith)
    | inl i ↦ elim (Bool-cases (contains (has_key d s) rows)) [
      | inl q ↦
          insert_ignore-IsMerged dr d new rows rows' (rw (q, i) at h) e t
          ∙ skipped d e s t c rows (rows_for d new) q
      | inr q ↦
          insert_ignore-IsMerged dr d new (rows ++ (row_of d (s, c) ∷ [])) rows' (rw (q, i) at h) e
            t
          ∙ ap (find_first (has_key e t))
              (append_assoc rows (row_of d (s, c) ∷ []) (rows_for d new))
    ]
  ]

  insert_batches-IsMerged :
      (dr : Driver) (bs : List (SnapshotBatch D)) (rows rows' : List (SnapRow D))
      → insert_batches dr bs rows ≡ ok rows'
      → IsMerged rows (offered bs) rows'
  unfolding insert_batches
  insert_batches-IsMerged dr [] rows rows' h e t =
      let same : rows ≡ rows' = cc in
      ap (find_first (has_key e t)) (sym same ∙ sym (append-nil rows))
  insert_batches-IsMerged dr (b ∷ bs) rows rows' h e t =
      let (mid, h1, h2) = >>=-eq-ok (insert_ignore dr b.snapshot_date b.new_rows rows) _ h in
      let p = has_key e t in
      let first = rows_for b.snapshot_date b.new_rows in
      insert_batches-IsMerged dr bs mid rows' h2 e t
      ∙ (find_first-append p mid (offered bs)
          ∙ (ap (λ o. or_else o (find_first p (offered bs)))
                (insert_ignore-IsMerged dr b.snapshot_date b.new_rows rows mid h1 e t)
              ∙ (sym (find_first-append p (rows ++ first) (offered bs))
                  ∙ ap (find_first p) (append_assoc rows first (offered bs)))))

  finish-IsMerged :
      (dr : Driver) (d n : ℕ) (new : List (SnapRow D))
      (result : Result SnapError (List (SnapRow D))) (db : Db D)
      → ((rows : List (SnapRow D)) → result ≡ ok rows → IsMerged db.rows new rows)
      → (finish dr d n result db).1 ≡ none
      → IsMerged db.rows new (finish dr d n result db).0.rows
  unfolding finish
  finish-IsMerged dr d n new (err e) db g h = absurd (cc)
  finish-IsMerged dr d n new (ok rows) db g h = elim (Bool-cases dr.commit) [
    | inl e ↦ rw e (g rows refl)
    | inr e ↦ absurd (ground arith)
  ]

  load_history_batch-IsMerged :
      (dr : Driver) (bs : List (SnapshotBatch D)) (db : Db D)
      → (load_history_batch dr bs db).1 ≡ none
      → IsMerged db.rows (offered bs) (load_history_batch dr bs db).0.rows
  unfolding load_history_batch
  load_history_batch-IsMerged dr [] db h =
      λ d s. ap (find_first (has_key d s)) (sym (append-nil db.rows))
  load_history_batch-IsMerged dr (b ∷ bs) db h =
      elim (Bool-cases (dr.ensure && dr.begin && dr.prepare)) [
        | inl e ↦
            carry (λ r. r.1 ≡ none → IsMerged db.rows (offered (b ∷ bs)) r.0.rows) _ _
              (started dr b bs db e)
              (finish-IsMerged dr _ _ (offered (b ∷ bs)) (insert_batches dr (b ∷ bs) db.rows) db
                (λ rows q. insert_batches-IsMerged dr (b ∷ bs) db.rows rows q))
              h
        | inr e ↦ absurd (cc (h, not_started dr b bs db e))
      ]

  -- A batch of snapshots is loaded whole or not at all, whatever fails. Without an error the old
  -- rows stand unchanged before those that were added, no two rows have the same date and symbol if no
  -- two of the old ones had, and the row of a date and symbol is the old one, or else the first that
  -- the batches give for them, or none where they give none; with an error the table, the active and
  -- the latest date and the number of symbols are as before.
  pub load_history_batch-IsWhole :
      (dr : Driver) (bs : List (SnapshotBatch D)) (db : Db D)
      → let r = load_history_batch dr bs db in
        ((r.1 ≡ none) × Grows db.rows r.0.rows × IsMerged db.rows (offered bs) r.0.rows)
        ⊎ ((r.1 ≢ none) × (r.0 ≡ db))
  load_history_batch-IsWhole dr bs db = elim (load_history_batch-IsAllOrNothing dr bs db) [
    | inl g ↦ inl (g.0, g.1, load_history_batch-IsMerged dr bs db g.0)
    | inr n ↦ inr n
  ]
