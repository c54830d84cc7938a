-- ===== src/Results/Imported.antt =====
-- Importing the same export twice.
use json_scanner.Base.{
  ℕ, suc, String, ◌≡◌, refl, inl, inr, arith, Bool, true, false, Option, none, some, List, [], ◌∷◌,
  ◌++◌, eq_refl, All, find_first, Bool-cases, Option-cases,
}
use json_scanner.Base.Result.{ok}
use json_scanner.Results.Store.{
  SavedResult, ResultRow, ResultDb, new_row, insert_row, save, result_of, is_of,
  get_by_study_and_date,
}
use json_scanner.Results.Transfer.{
  ExportData, Imported, after_save, after_look, import_from, import_results,
}

find_first-append :
    {A : Type 0} (p : A → Bool) (xs ys : List A) (x : A)
    → find_first p xs ≡ some x
    → find_first p (xs ++ ys) ≡ some x
find_first-append p [] ys x h = cc
find_first-append p (a ∷ xs) ys x h = elim (Bool-cases (p a)) [
  | inl e ↦ rw e (rw e at h)
  | inr e ↦ rw e (find_first-append p xs ys x (rw e at h))
]

find_first-new :
    {A : Type 0} (p : A → Bool) (xs : List A) (x : A)
    → find_first p xs ≡ none
    → p x ≡ true
    → find_first p (xs ++ (x ∷ [])) ≡ some x
find_first-new p [] x h q = rw q refl
find_first-new p (a ∷ xs) x h q = elim (Bool-cases (p a)) [
  | inl e ↦ absurd (let t : some a ≡ none = rw e at h in cc)
  | inr e ↦ rw e (find_first-new p xs x (rw e at h) q)
]

module _ {M : Type 0} (marshal : List M → Option String)
    (unmarshal : String → Option (List M)) where
  -- A row of the user, the study and the date can be read.
  IsFound : ResultDb → SavedResult M → Type 0
  IsFound s r =
      (row : ResultRow) × (ms : List M) × (find_first (is_of r.user_id r.study_id r.snapshot_date)
          s.rows
        ≡ some row)
      × (unmarshal row.results_json ≡ some ms)

  IsFound-save :
      (up : Bool) (r old : SavedResult M) (s : ResultDb)
      → IsFound s old
      → IsFound (save marshal unmarshal up r s).0 old
  unfolding IsFound save
  IsFound-save up r old s (row, ms, f, u) = elim (Option-cases (marshal r.results)) [
    | inl e ↦ rw e (row, ms, f, u)
    | inr (json, e) ↦ rw e (by_up up json)
  ]
    where
      by_up :
          (b : Bool) (json : String)
          → IsFound (insert_row marshal unmarshal b r s (some json)).0 old
      by_up false json = (row, ms, f, u)
      by_up true json = (row, ms, find_first-append _ s.rows _ row f, u)

  get_by_study_and_date-IsFound :
      (up : Bool) (s : ResultDb) (r : SavedResult M)
      → up ≡ true
      → IsFound s r
      → (x : SavedResult M) × (get_by_study_and_date marshal unmarshal up r.user_id r.study_id
            r.snapshot_date s
          ≡ ok (some x))
  unfolding IsFound get_by_study_and_date
  get_by_study_and_date-IsFound up s r e (row, ms, f, u) =
      (result_of marshal unmarshal row ms, rw (e, f, u) refl)

  is_of-new_row :
      (r : SavedResult M) (id : ℕ) (json : String)
      → is_of r.user_id r.study_id r.snapshot_date (new_row marshal unmarshal id r json) ≡ true
  is_of-new_row r id json = ground (arith, eq_refl r.user_id, eq_refl r.study_id)

  -- What a run that ends without an error has done.
  record Completes (rs : List (SavedResult M)) (s : ResultDb) (run : Imported) : Type 0 where
    found : All (IsFound run.db) rs
    kept : (old : SavedResult M) → IsFound s old → IsFound run.db old

  module _
      (reads : (ms : List M) (json : String)
        → marshal ms ≡ some json
        → unmarshal json ≡ some ms) where
    insert_row-IsFound :
        (r : SavedResult M) (s : ResultDb) (json : String)
        → marshal r.results ≡ some json
        → find_first (is_of r.user_id r.study_id r.snapshot_date) s.rows ≡ none
        → IsFound (insert_row marshal unmarshal true r s (some json)).0 r
    unfolding IsFound
    insert_row-IsFound r s json e f = (
      new_row marshal unmarshal s.next_id r json,
      r.results,
      find_first-new (is_of r.user_id r.study_id r.snapshot_date) s.rows
          (new_row marshal unmarshal s.next_id r json) f (is_of-new_row r s.next_id json),
      reads r.results json e,
    )

    after_save-Completes :
        (r : SavedResult M) (rs : List (SavedResult M)) (next : ℕ → ResultDb → Imported) (n : ℕ)
        (s : ResultDb) (up : Bool) (o : Option String)
        → marshal r.results ≡ o
        → find_first (is_of r.user_id r.study_id r.snapshot_date) s.rows ≡ none
        → ((k : ℕ) (t : ResultDb) → (next k t).error ≡ none → Completes rs t (next k t))
        → (after_save marshal unmarshal next n (insert_row marshal unmarshal up r s o)).error ≡ none
        → Completes
            (r ∷ rs)
            s
            (after_save marshal unmarshal next n (insert_row marshal unmarshal up r s o))
    after_save-Completes r rs next n s up none e f ih h = cc
    after_save-Completes r rs next n s false (some json) e f ih h = cc
    after_save-Completes r rs next n s true (some json) e f ih h =
        let t = (insert_row marshal unmarshal true r s (some json)).0 in
        let rest = ih (suc n) t h in
        record {
          found = (rest.kept r (insert_row-IsFound r s json e f), rest.found);
          kept = λ old g. rest.kept old (unfold save in rw e at (IsFound-save true r old s g));
        }

    after_look-Completes :
        (r : SavedResult M) (rs : List (SavedResult M)) (next : ℕ → ResultDb → Imported) (n : ℕ)
        (s : ResultDb) (look up : Bool)
        → ((k : ℕ) (t : ResultDb) → (next k t).error ≡ none → Completes rs t (next k t))
        → (after_look marshal unmarshal next n s (save marshal unmarshal up r s) (
            get_by_study_and_date marshal unmarshal look r.user_id r.study_id r.snapshot_date
              s)).error
          ≡ none
        → Completes (r ∷ rs) s (
            after_look marshal unmarshal next n s
              (save marshal unmarshal up r s)
              (get_by_study_and_date marshal unmarshal look r.user_id r.study_id r.snapshot_date s))
    unfolding get_by_study_and_date save
    after_look-Completes r rs next n s false up ih h = cc
    after_look-Completes r rs next n s true up ih h =
        elim (Option-cases (find_first (is_of r.user_id r.study_id r.snapshot_date) s.rows)) [
          | inl f ↦
              rw f (after_save-Completes r rs next n s up (marshal r.results) refl f ih (rw f at h))
          | inr (row, f) ↦ elim (Option-cases (unmarshal row.results_json)) [
            | inl u ↦ absurd (let t = rw (f, u) at h in cc)
            | inr (ms, u) ↦
                let rest = ih n s (rw (f, u) at h) in
                rw (f, u)
                  (record {
                    found = (rest.kept r (unfold IsFound in (row, ms, f, u)), rest.found);
                    kept = rest.kept;
                  })
          ]
        ]

    import_from-Completes :
        (up : ℕ → Bool) (rs : List (SavedResult M)) (n : ℕ) (s : ResultDb)
        → (import_from marshal unmarshal up rs n s).error ≡ none
        → Completes rs s (import_from marshal unmarshal up rs n s)
    unfolding import_from
    import_from-Completes up [] n s h = record { found = tt; kept = λ old g. g }
    import_from-Completes up (r ∷ rs) n s h =
        after_look-Completes r rs (import_from marshal unmarshal (λ k. up (suc (suc k))) rs) n s
          (up 0) (up 1) (λ k t. import_from-Completes (λ k. up (suc (suc k))) rs k t) h

  import_from-found :
      (rs : List (SavedResult M)) (n : ℕ) (s : ResultDb)
      → All (IsFound s) rs
      → import_from marshal unmarshal (λ k. true) rs n s
        ≡ record { db = s; imported = n; error = none }
  unfolding import_from
  import_from-found [] n s h = refl
  import_from-found (r ∷ rs) n s h =
      let w = get_by_study_and_date-IsFound true s r refl h.0 in
      rw w.1 (import_from-found rs n s h.1)

  -- After an import that ended without an error, importing the same results again saves none of them
  -- and changes nothing, given that the decoder reads what the encoder wrote and that the statements
  -- of the second import succeed.
  pub import_results-again :
      (up : ℕ → Bool) (d : ExportData M) (s : ResultDb)
      → ((ms : List M) (json : String) → marshal ms ≡ some json → unmarshal json ≡ some ms)
      → (import_results marshal unmarshal up d s).error ≡ none
      → import_results marshal unmarshal (λ k. true) d (import_results marshal unmarshal up d s).db
        ≡ record { db = (import_results marshal unmarshal up d s).db; imported = 0; error = none }
  unfolding import_results
  import_results-again up d s reads h =
      import_from-found d.results 0 (import_from marshal unmarshal up d.results 0 s).db
        (Completes.found (import_from-Completes reads up d.results 0 s h))
