-- ===== src/Snapshot/Loading.antt =====
-- What the loads do to the rows of each date, and to the active date.
use json_scanner.Base.{
  ℕ, String, ◌≡◌, ◌≢◌, inl, inr, refl, ◌∙◌, ap, Bool, true, false, not, ◌&&◌, none, some, List, [],
  ◌∷◌, ◌++◌, ◌=s=◌, ◌==◌, eq_iff, arith, map, length, select, contains, if◌then◌else◌, Bool-cases,
}
use mathlib.Core.List.{append-nil, append_assoc}
use json_scanner.Base.Result.{Result, ok, err}
use json_scanner.Snapshot.Store.{
  SnapRow, Db, SnapError, Driver, driver, on_date, has_key, date_rows, row_of, insert_all, finish,
  load_history,
}

-- No statement fails.
abbrev pub healthy : Driver
healthy = record {
  ensure = true;
  remove = true;
  begin = true;
  prepare = true;
  insert = λ s. true;
  commit = true;
}

select-append :
    {A : Type 0} (p : A → Bool) (xs ys : List A) → select p (xs ++ ys) ≡ select p xs ++ select p ys
select-append p [] ys = refl
select-append p (x ∷ xs) ys = elim (Bool-cases (p x)) [
  | inl e ↦ rw e (ap (λ r. x ∷ r) (select-append p xs ys))
  | inr e ↦ rw e (select-append p xs ys)
]

select-none :
    {A : Type 0} (p q : A → Bool) (xs : List A)
    → ((x : A) → p x ≡ true → q x ≡ false)
    → select p (select q xs) ≡ []
select-none p q [] h = refl
select-none p q (x ∷ xs) h = ground (arith, h x, select-none p q xs h)

contains-snoc :
    {A : Type 0} (p : A → Bool) (xs : List A) (x : A)
    → contains p (xs ++ (x ∷ [])) ≡ (if contains p xs then true else p x)
contains-snoc p [] x = ground arith
contains-snoc p (y ∷ xs) x = ground (arith, contains-snoc p xs x)

module _ {D : Type 0} where
  -- The symbols are new to the date and to one another.
  abbrev pub IsFresh : ℕ → List (String × D) → List (SnapRow D) → Type 0
  IsFresh d [] rows = Unit
  IsFresh d ((s, c) ∷ new) rows =
      (contains (has_key d s) rows ≡ false) × IsFresh d new (rows ++ (row_of d (s, c) ∷ []))

  abbrev pub rows_for : ℕ → List (String × D) → List (SnapRow D)
  rows_for d = map (row_of d)

  insert_all_lem :
      (d : ℕ) (new : List (String × D)) (rows : List (SnapRow D))
      → IsFresh d new rows
      → insert_all healthy d new rows ≡ ok (rows ++ rows_for d new)
  unfolding insert_all
  insert_all_lem d [] rows h = rw append-nil
  insert_all_lem d ((s, c) ∷ new) rows h = rw h.0 (
      insert_all_lem d new (rows ++ (row_of d (s, c) ∷ [])) h.1
      ∙ ap ok (append_assoc rows (row_of d (s, c) ∷ []) (rows_for d new)))

  -- The symbols of a load differ from one another.
  abbrev pub IsDistinct : List (String × D) → Type 0
  IsDistinct [] = Unit
  IsDistinct ((s, c) ∷ new) =
      (contains (λ (q : String × D). q.0 =s= s) new ≡ false) × IsDistinct new

  -- None of the symbols has a row on the date.
  abbrev NoneOn : ℕ → List (String × D) → List (SnapRow D) → Type 0
  NoneOn d [] rows = Unit
  NoneOn d ((s, c) ∷ new) rows = (contains (has_key d s) rows ≡ false) × NoneOn d new rows

  NoneOn-snoc :
      (d : ℕ) (s : String) (c : D) (new : List (String × D)) (rows : List (SnapRow D))
      → contains (λ (q : String × D). q.0 =s= s) new ≡ false
      → NoneOn d new rows
      → NoneOn d new (rows ++ (row_of d (s, c) ∷ []))
  NoneOn-snoc d s c [] rows e h = tt
  NoneOn-snoc d s c ((t, x) ∷ new) rows e h = (
    rw (contains-snoc (has_key d t) rows (row_of d (s, c)))
        (rw h.0 (ground (arith, eq_iff s t, eq_iff t s))),
    NoneOn-snoc d s c new rows (ground arith) h.1,
  )

  IsFresh-of_NoneOn :
      (d : ℕ) (new : List (String × D)) (rows : List (SnapRow D))
      → IsDistinct new
      → NoneOn d new rows
      → IsFresh d new rows
  IsFresh-of_NoneOn d [] rows u h = tt
  IsFresh-of_NoneOn d ((s, c) ∷ new) rows u h =
      (h.0, IsFresh-of_NoneOn d new _ u.1 (NoneOn-snoc d s c new rows u.0 h.1))

  abbrev without : ℕ → List (SnapRow D) → List (SnapRow D)
  without d rows = select (λ r. not (on_date d r)) rows

  cleared-key :
      (d : ℕ) (s : String) (rows : List (SnapRow D))
      → contains (has_key d s) (without d rows) ≡ false
  cleared-key d s [] = refl
  cleared-key d s (r ∷ rows) = ground (arith, cleared-key d s rows)

  NoneOn-without :
      (d : ℕ) (new : List (String × D)) (rows : List (SnapRow D)) → NoneOn d new (without d rows)
  NoneOn-without d [] rows = tt
  NoneOn-without d ((s, c) ∷ new) rows = (cleared-key d s rows, NoneOn-without d new rows)

  date_rows-without :
      (d e : ℕ) (rows : List (SnapRow D))
      → date_rows e (without d rows) ≡ (if e == d then [] else date_rows e rows)
  date_rows-without d e [] = ground arith
  date_rows-without d e (r ∷ rows) = ground (arith, date_rows-without d e rows)

  date_rows-rows_for :
      (d e : ℕ) (new : List (String × D))
      → date_rows e (rows_for d new) ≡ (if e == d then rows_for d new else [])
  date_rows-rows_for d e [] = ground arith
  date_rows-rows_for d e ((s, c) ∷ new) = ground (arith, date_rows-rows_for d e new)

  -- With a driver that does its work and symbols that differ, a load replaces the rows of its date,
  -- leaves those of every other date, and makes its date the active and the latest one.
  pub load_history_replaces :
      (new : List (String × D)) (d : ℕ) (db : Db D)
      → IsDistinct new
      → ((load_history healthy new d db).1 ≡ none)
        × ((load_history healthy new d db).0.active_date ≡ d)
        × ((load_history healthy new d db).0.snapshot_date ≡ d)
        × ((load_history healthy new d db).0.symbol_count ≡ length new)
        × ((e : ℕ)
            → date_rows e (load_history healthy new d db).0.rows
              ≡ (if e == d then rows_for d new else date_rows e db.rows))
  unfolding load_history
  load_history_replaces new d db u =
      let fresh = IsFresh-of_NoneOn d new (without d db.rows) u (NoneOn-without d new db.rows) in
      rw (insert_all_lem d new (without d db.rows) fresh) (
        refl,
        refl,
        refl,
        refl,
        (λ e.
            select-append (on_date e) (without d db.rows) (rows_for d new)
            ∙ (rw (date_rows-without d e db.rows, date_rows-rows_for d e new) (pick e))),
      )
    where
      pick :
          (e : ℕ)
          → (if e == d then [] else date_rows e db.rows) ++ (if e == d then rows_for d new else [])
            ≡ (if e == d then rows_for d new else date_rows e db.rows)
      pick e = elim (Bool-cases (e == d)) [ inl q ↦ rw q refl | inr q ↦ rw q (append-nil _) ]

  load_history_fails :
      (dr : Driver) (new : List (String × D)) (d : ℕ) (db : Db D)
      → dr.ensure ≡ true
      → dr.remove ≡ true
      → dr.commit ≡ false
      → (x : SnapError) × (load_history dr new d db
          ≡ (record db { rows = without d db.rows }, some x))
  unfolding load_history insert_all
  load_history_fails dr new d db e r c =
      rw (e, r)
        (elim (Bool-cases (dr.begin && dr.prepare)) [
          | inl q ↦ rw q (ends (insert_all dr d new (without d db.rows)))
          | inr q ↦ rw q (driver, refl)
        ])
    where
      cleared : Db D
      cleared = record db { rows = without d db.rows }

      ends :
          (m : Result SnapError (List (SnapRow D)))
          → (x : SnapError) × (finish dr d (length new) m cleared ≡ (cleared, some x))
      ends (ok rows) = (driver, rw c refl)
      ends (err x) = (x, refl)

  -- A load whose DELETE is carried out and whose transaction then does not commit returns an error,
  -- and the rows that its date had are gone; the other dates, the active date, the latest date and
  -- the number of symbols stay.
  pub load_history_lost :
      (dr : Driver) (new : List (String × D)) (d : ℕ) (db : Db D)
      → dr.ensure ≡ true
      → dr.remove ≡ true
      → dr.commit ≡ false
      → ((load_history dr new d db).1 ≢ none)
        × ((load_history dr new d db).0.active_date ≡ db.active_date)
        × ((load_history dr new d db).0.snapshot_date ≡ db.snapshot_date)
        × ((load_history dr new d db).0.symbol_count ≡ db.symbol_count)
        × ((f : ℕ)
            → date_rows f (load_history dr new d db).0.rows
              ≡ (if f == d then [] else date_rows f db.rows))
  load_history_lost dr new d db e r c =
      let (x, q) = load_history_fails dr new d db e r c in
      rw q ((λ h. cc), refl, refl, refl, (λ f. date_rows-without d f db.rows))
