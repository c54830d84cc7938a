-- ===== src/Results/Listed.antt =====
-- How much of a user's saved results a list and an export hold.
use json_scanner.Base.{
  ℕ, zero, suc, ◌-◌, String, ◌≡◌, refl, sym, ap, ◌∙◌, inl, inr, arith, Bool, true, false, Option,
  none, some, List, [], ◌∷◌, ◌=s=◌, ltb, length, count, select, if◌then◌else◌, Bool-cases,
}
use json_scanner.Base.Int.{ℤ, pos}
use json_scanner.Base.Result.{Result, ok, err, >>=-eq-ok}
use json_scanner.Results.Store.{SavedResult, ResultRow, Acl, ResultDb, ResultError, result_of}
use json_scanner.Results.Transfer.{
  take, skip, limit_of, offset_of, ExportData, decoded_then, read_rows, page, list_results,
  read_acls, export_results,
}

-- The smaller of two numbers.
abbrev pub smaller : ℕ → ℕ → ℕ
smaller a b = if ltb a b then a else b

minus_zero : (n : ℕ) → n - 0 ≡ n
minus_zero n = omega arith

length-take : {A : Type 0} (n : ℕ) (xs : List A) → length (take n xs) ≡ smaller (length xs) n
length-take zero [] = refl
length-take zero (x ∷ xs) = ground arith
length-take (suc n) [] = ground arith
length-take (suc n) (x ∷ xs) = ground (arith, length-take n xs)

length-skip : {A : Type 0} (n : ℕ) (xs : List A) → length (skip n xs) ≡ length xs - n
length-skip zero xs = omega arith
length-skip (suc n) [] = omega arith
length-skip (suc n) (x ∷ xs) = omega (arith, length-skip n xs)

length-select : {A : Type 0} (p : A → Bool) (xs : List A) → length (select p xs) ≡ count p xs
length-select p [] = refl
length-select p (x ∷ xs) = elim (Bool-cases (p x)) [
  | inl e ↦ rw e (ap suc (length-select p xs))
  | inr e ↦ rw e (length-select p xs)
]

module _ {M : Type 0} (marshal : List M → Option String) (unmarshal : String → Option (List M))
    (order : List ResultRow → List ResultRow) where
  length-read_rows :
      (rows : List ResultRow) (rs : List (SavedResult M))
      → read_rows marshal unmarshal order rows ≡ ok rs
      → length rs ≡ length rows
  unfolding read_rows
  length-read_rows [] rs h = let q : [] ≡ rs = cc in rw (sym q) refl
  length-read_rows (r ∷ rows) rs h =
      by_row (unmarshal r.results_json) refl (read_rows marshal unmarshal order rows) refl h
        (length-read_rows rows)
    where
      by_row :
          (o : Option (List M))
          → unmarshal r.results_json ≡ o
          → (later : Result ResultError (List (SavedResult M)))
          → read_rows marshal unmarshal order rows ≡ later
          → decoded_then marshal unmarshal order r o later ≡ ok rs
          → ((ts : List (SavedResult M))
              → read_rows marshal unmarshal order rows ≡ ok ts
              → length ts ≡ length rows)
          → length rs ≡ suc (length rows)
      by_row none e later l g ih = cc
      by_row (some ms) e (err x) l g ih = cc
      by_row (some ms) e (ok ts) l g ih =
          let q : (result_of marshal unmarshal r ms ∷ ts) ≡ rs = cc in rw (sym q) (ap suc (ih ts l))

  -- A list that succeeds has as many results as the user's rows past the offset, and at most the
  -- limit, which is fifty where none above zero is asked for; ordering the rows loses none.
  pub length-list_results :
      (user : String) (limit offset : ℤ) (s : ResultDb) (rs : List (SavedResult M))
      → ((rows : List ResultRow) → length (order rows) ≡ length rows)
      → list_results marshal unmarshal order true user limit offset s ≡ ok rs
      → length rs
        ≡ smaller (count (λ r. r.user_id =s= user) s.rows - offset_of offset) (limit_of limit)
  unfolding list_results
  length-list_results user limit offset s rs keeps h =
      let mine = select (λ (r : ResultRow). r.user_id =s= user) s.rows in
      length-read_rows (page marshal unmarshal order limit offset mine) rs h
      ∙ length-take (limit_of limit) (skip (offset_of offset) (order mine))
      ∙ ap (λ (n : ℕ). smaller n (limit_of limit))
          (length-skip (offset_of offset) (order mine)
            ∙ ap (λ (n : ℕ). n - offset_of offset)
                (keeps mine ∙ length-select (λ r. r.user_id =s= user) s.rows))

  -- An export that succeeds has at most fifty results, however many the user has: of a user with
  -- more, the rest are missing from it.
  pub export_results-truncates :
      (by_time : List Acl → List Acl) (up : ℕ → Bool) (user : String) (now : ℕ) (s : ResultDb)
      (d : ExportData M)
      → ((rows : List ResultRow) → length (order rows) ≡ length rows)
      → export_results marshal unmarshal order by_time up user now s ≡ ok d
      → length d.results ≡ smaller (count (λ r. r.user_id =s= user) s.rows) 50
  unfolding export_results list_results
  export_results-truncates by_time up user now s d keeps h =
      let w = >>=-eq-ok (list_results marshal unmarshal order (up 0) user (pos 0) (pos 0) s) _ h in
      let v = >>=-eq-ok (read_acls marshal unmarshal order by_time (λ n. up (suc n)) s w.0) _ w.2 in
      let same : w.0 ≡ d.results = results_of-ok v.2 in rw (sym same) (by_up (up 0) w.0 w.1)
    where
      results_of-ok :
          {x y : ExportData M}
          → ◌≡◌ {A = Result ResultError (ExportData M)} (ok x) (ok y)
          → x.results ≡ y.results
      results_of-ok {x} {y} e = let q : x ≡ y = cc in rw q refl

      by_up :
          (b : Bool) (rs : List (SavedResult M))
          → list_results marshal unmarshal order b user (pos 0) (pos 0) s ≡ ok rs
          → length rs ≡ smaller (count (λ r. r.user_id =s= user) s.rows) 50
      by_up true rs e =
          length-list_results user (pos 0) (pos 0) s rs keeps e
          ∙ ap (λ (n : ℕ). smaller n 50) (minus_zero (count (λ r. r.user_id =s= user) s.rows))
      by_up false rs e = cc
