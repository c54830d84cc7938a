-- ===== src/Snapshot/Keyed.antt =====
-- The loads that skip what is there: they are all or nothing, and keep the table's key
-- (internal/snapshot/snapshot.go).
use mathlib.Core.List.{append-nil, append_assoc}
use json_scanner.Base.{
  ℕ, String, ◌≡◌, ◌≢◌, ◌⊎◌, refl, sym, ◌∙◌, ap, inl, inr, false, ◌&&◌, Option, none, some, List, [],
  ◌∷◌, ◌++◌, eq_iff, arith, contains, length, Bool-cases,
}
use json_scanner.Base.Result.{Result, ok, err, >>=-eq-ok}
use json_scanner.Snapshot.Store.{
  SnapRow, Db, SnapError, driver, Driver, has_key, row_of, insert_ignore, finish,
  load_history_insert,
}
use json_scanner.Snapshot.Batch.{SnapshotBatch, insert_batches, load_history_batch}

some_is_error : (e : SnapError) → ◌≡◌ {A = Option SnapError} (some e) none → ⊥
some_is_error e h = cc

module _ {D : Type 0} where
  -- No two rows have the same date and symbol.
  abbrev pub IsKeyed : List (SnapRow D) → Type 0
  IsKeyed [] = Unit
  IsKeyed (r ∷ rs) = (contains (has_key r.date r.symbol) rs ≡ false) × IsKeyed rs

  contains-has_key-snoc :
      (d : ℕ) (s : String) (r : SnapRow D) (rows : List (SnapRow D))
      → contains (has_key d s) rows ≡ false
      → has_key d s r ≡ false
      → contains (has_key d s) (rows ++ (r ∷ [])) ≡ false
  contains-has_key-snoc d s r [] h q = ground arith
  contains-has_key-snoc d s r (x ∷ rows) h q = ground (arith, contains-has_key-snoc d s r rows)

  has_key_sym :
      (q r : SnapRow D) → has_key r.date r.symbol q ≡ false → has_key q.date q.symbol r ≡ false
  has_key_sym q r h = ground (arith, eq_iff q.symbol r.symbol, eq_iff r.symbol q.symbol)

  snoc-IsKeyed :
      (r : SnapRow D) (rows : List (SnapRow D))
      → contains (has_key r.date r.symbol) rows ≡ false
      → IsKeyed rows
      → IsKeyed (rows ++ (r ∷ []))
  snoc-IsKeyed r [] h k = (refl, tt)
  snoc-IsKeyed r (q ∷ rows) h k = elim (Bool-cases (has_key r.date r.symbol q)) [
    | inl e ↦ absurd (ground arith)
    | inr e ↦
        let later : contains (has_key r.date r.symbol) rows ≡ false = ground arith in
        (
          contains-has_key-snoc q.date q.symbol r rows k.0 (has_key_sym q r e),
          snoc-IsKeyed r rows later k.1,
        )
  ]

  -- The rows after a load: the old ones, then the added ones, still under the key.
  pub record Grows (rows rows' : List (SnapRow D)) : Type 0 where
    pub added : List (SnapRow D)
    pub kept : rows' ≡ rows ++ added
    pub keyed : IsKeyed rows → IsKeyed rows'

  Grows-refl : (rows : List (SnapRow D)) → Grows rows rows
  Grows-refl rows = record { added = []; kept = sym (append-nil rows); keyed = λ k. k }

  Grows-trans : (a b c : List (SnapRow D)) → Grows a b → Grows b c → Grows a c
  Grows-trans a b c g h = record {
    added = g.added ++ h.added;
    kept = h.kept ∙ (ap (λ x. x ++ h.added) g.kept ∙ append_assoc a g.added h.added);
    keyed = λ k. h.keyed (g.keyed k);
  }

  pub insert_ignore-Grows :
      (dr : Driver) (d : ℕ) (new : List (String × D)) (rows rows' : List (SnapRow D))
      → insert_ignore dr d new rows ≡ ok rows'
      → Grows rows rows'
  unfolding insert_ignore
  insert_ignore-Grows dr d [] rows rows' h =
      let e : rows ≡ rows' = cc in transport_grows rows rows' e
    where
      transport_grows : (a b : List (SnapRow D)) → a ≡ b → Grows a b
      transport_grows a b e = rw (sym e) (Grows-refl a)
  insert_ignore-Grows dr d ((s, c) ∷ new) rows rows' h = elim (Bool-cases (dr.insert s)) [
    | inr e ↦ absurd (ground arith)
    | inl e ↦ elim (Bool-cases (contains (has_key d s) rows)) [
      | inl q ↦ insert_ignore-Grows dr d new rows rows' (rw (q, e) at h)
      | inr q ↦
          Grows-trans rows (rows ++ (row_of d (s, c) ∷ [])) rows'
            (record {
              added = row_of d (s, c) ∷ [];
              kept = refl;
              keyed = snoc-IsKeyed (row_of d (s, c)) rows q;
            })
            (insert_ignore-Grows dr d new (rows ++ (row_of d (s, c) ∷ [])) rows' (rw (q, e) at h))
    ]
  ]

  pub insert_batches-Grows :
      (dr : Driver) (bs : List (SnapshotBatch D)) (rows rows' : List (SnapRow D))
      → insert_batches dr bs rows ≡ ok rows'
      → Grows rows rows'
  unfolding insert_batches
  insert_batches-Grows dr [] rows rows' h =
      let e : rows ≡ rows' = cc in rw (sym e) (Grows-refl rows)
  insert_batches-Grows dr (b ∷ bs) rows rows' h =
      let (mid, h1, h2) = >>=-eq-ok (insert_ignore dr b.snapshot_date b.new_rows rows) _ h in
      Grows-trans rows mid rows' (insert_ignore-Grows dr b.snapshot_date b.new_rows rows mid h1)
        (insert_batches-Grows dr bs mid rows' h2)

  -- A load's outcome: no error, the old rows first and the key kept; or an error and no change.
  abbrev pub IsAllOrNothing : Db D → Db D × Option SnapError → Type 0
  IsAllOrNothing db r = ((r.1 ≡ none) × Grows db.rows r.0.rows) ⊎ ((r.1 ≢ none) × (r.0 ≡ db))

  finish-IsAllOrNothing :
      (dr : Driver) (d n : ℕ) (result : Result SnapError (List (SnapRow D))) (db : Db D)
      → ((rows : List (SnapRow D)) → result ≡ ok rows → Grows db.rows rows)
      → IsAllOrNothing db (finish dr d n result db)
  unfolding finish
  finish-IsAllOrNothing dr d n (err e) db g = inr (some_is_error e, refl)
  finish-IsAllOrNothing dr d n (ok rows) db g = elim (Bool-cases dr.commit) [
    | inl e ↦ rw e (inl (refl, g rows refl))
    | inr e ↦ rw e (inr (some_is_error driver, refl))
  ]

  -- Whatever fails in the load of a batch: without an error the old rows stand unchanged before any
  -- that were added, and no two rows get the same date and symbol; with an error the table and the
  -- metadata are as before.
  pub load_history_batch-IsAllOrNothing :
      (dr : Driver) (bs : List (SnapshotBatch D)) (db : Db D)
      → IsAllOrNothing db (load_history_batch dr bs db)
  unfolding load_history_batch
  load_history_batch-IsAllOrNothing dr [] db = inl (refl, Grows-refl db.rows)
  load_history_batch-IsAllOrNothing dr (b ∷ bs) db =
      elim (Bool-cases (dr.ensure && dr.begin && dr.prepare)) [
        | inl e ↦ rw e (
            finish-IsAllOrNothing dr _ _ (insert_batches dr (b ∷ bs) db.rows) db
              (λ rows h. insert_batches-Grows dr (b ∷ bs) db.rows rows h))
        | inr e ↦ rw e (inr (some_is_error driver, refl))
      ]

  -- The same holds of a load of one date that skips the symbols it has.
  pub load_history_insert-IsAllOrNothing :
      (dr : Driver) (new : List (String × D)) (d : ℕ) (db : Db D)
      → IsAllOrNothing db (load_history_insert dr new d db)
  unfolding load_history_insert
  load_history_insert-IsAllOrNothing dr new d db =
      elim (Bool-cases (dr.ensure && dr.begin && dr.prepare)) [
        | inl e ↦ rw e (
            finish-IsAllOrNothing dr d (length new) (insert_ignore dr d new db.rows) db
              (λ rows h. insert_ignore-Grows dr d new db.rows rows h))
        | inr e ↦ rw e (inr (some_is_error driver, refl))
      ]
