-- ===== src/Results/Kept.antt =====
-- What is saved is what is read, under a number of its own.
use json_scanner.Base.{
  ℕ, suc, ◌<◌, String, ◌≡◌, refl, inl, inr, arith, Bool, true, false, not, Option, none, some, List,
  [], ◌∷◌, ◌++◌, map, ◌==◌, All, contains, select, find_first, if◌then◌else◌, Bool-cases,
}
use json_scanner.Base.Result.{ok}
use json_scanner.Results.Store.{
  SavedResult, ResultRow, Acl, ResultDb, ResultError, result_not_found, has_id, affecting,
  update_permissions, change_owner, delete_result, new_row, insert_row, save, read_row, get,
  updated, update_rows, update,
}
use json_scanner.Results.Access.{add_acl, remove_acl}

-- Every row's number was given out before.
abbrev pub IsFresh : ResultDb → Type 0
IsFresh s = All (λ r. r.id < s.next_id) s.rows

pub data ResultOp (M : Type 0) : Type 0 where
  saving updating : SavedResult M → ResultOp M
  deleting : Bool → ℕ → ResultOp M
  permitting : ℕ → ℕ → ℕ → ℕ → String → ResultOp M
  owning : ℕ → String → String → ResultOp M
  granting : Acl → ResultOp M
  revoking : ℕ → String → ResultOp M

All-same_ids :
    (f : ResultRow → ResultRow) (n : ℕ) (rs : List ResultRow)
    → ((r : ResultRow) → (f r).id ≡ r.id)
    → All (λ r. r.id < n) rs
    → All (λ r. r.id < n) (map f rs)
All-same_ids f n [] same h = tt
All-same_ids f n (r ∷ rs) same h = (rw (same r) h.0, All-same_ids f n rs same h.1)

All-fewer :
    (p : ResultRow → Bool) (n : ℕ) (rs : List ResultRow)
    → All (λ r. r.id < n) rs
    → All (λ r. r.id < n) (select p rs)
All-fewer p n [] h = tt
All-fewer p n (r ∷ rs) h = elim (Bool-cases (p r)) [
  | inl e ↦ rw e (h.0, All-fewer p n rs h.1)
  | inr e ↦ rw e (All-fewer p n rs h.1)
]

All-more :
    (n : ℕ) (rs : List ResultRow) (new : ResultRow)
    → All (λ r. r.id < n) rs
    → new.id ≡ n
    → All (λ r. r.id < suc n) (rs ++ (new ∷ []))
All-more n [] new h e = (omega (arith, e), tt)
All-more n (r ∷ rs) new h e = (omega (arith, h.0), All-more n rs new h.1 e)

affecting-IsFresh :
    (up found : Bool) (e : ResultError) (s t : ResultDb)
    → IsFresh s
    → IsFresh t
    → IsFresh (affecting up found e s t).0
affecting-IsFresh false found e s t h g = h
affecting-IsFresh true false e s t h g = h
affecting-IsFresh true true e s t h g = g

same_id : (b : Bool) (x y : ResultRow) → x.id ≡ y.id → (if b then x else y).id ≡ y.id
same_id true x y e = e
same_id false x y e = refl

fresh_id : (n : ℕ) (rs : List ResultRow) → All (λ r. r.id < n) rs → find_first (has_id n) rs ≡ none
fresh_id n [] h = refl
fresh_id n (r ∷ rs) h =
    let e : (r.id == n) ≡ false = ground (arith, h.0) in rw e (fresh_id n rs h.1)

find_first-new :
    (i : ℕ) (rs : List ResultRow) (new : ResultRow)
    → find_first (has_id new.id) rs ≡ none
    → find_first (has_id i) (rs ++ (new ∷ []))
      ≡ (if i == new.id then some new else find_first (has_id i) rs)
find_first-new i [] new h = elim (Bool-cases (i == new.id)) [
  | inl e ↦ let q : (new.id == i) ≡ true = ground arith in rw (e, q) refl
  | inr e ↦ let q : (new.id == i) ≡ false = ground arith in rw (e, q) refl
]
find_first-new i (r ∷ rs) new h = elim (Bool-cases (r.id == new.id)) [
  | inl e ↦ absurd (let t : some r ≡ none = rw e at h in cc)
  | inr e ↦
      let ih = find_first-new i rs new (rw e at h) in
      elim (Bool-cases (r.id == i)) [
        | inl q ↦ let d : (i == new.id) ≡ false = ground arith in rw (q, d) refl
        | inr q ↦ rw q ih
      ]
]

module _ {M : Type 0} (marshal : List M → Option String)
    (unmarshal : String → Option (List M)) where
  abbrev pub run_result_op : Bool → ResultOp M → ResultDb → ResultDb
  run_result_op up (saving r) s = (save marshal unmarshal up r s).0
  run_result_op up (updating r) s = (update marshal unmarshal up r s).0
  run_result_op up (deleting enforced id) s = (delete_result enforced up id s).0
  run_result_op up (permitting id o g a group) s = (update_permissions up id o g a group s).0
  run_result_op up (owning id user group) s = (change_owner up id user group s).0
  run_result_op up (granting a) s = (add_acl up a s).0
  run_result_op up (revoking id user) s = (remove_acl up id user s).0

  insert_row-IsFresh :
      (up : Bool) (r : SavedResult M) (s : ResultDb) (o : Option String)
      → IsFresh s
      → IsFresh (insert_row marshal unmarshal up r s o).0
  insert_row-IsFresh up r s none h = h
  insert_row-IsFresh false r s (some json) h = h
  insert_row-IsFresh true r s (some json) h =
      All-more s.next_id s.rows (new_row marshal unmarshal s.next_id r json) h refl

  update_rows-IsFresh :
      (up : Bool) (n : SavedResult M) (s : ResultDb) (o : Option String)
      → IsFresh s
      → IsFresh (update_rows marshal unmarshal up n s o).0
  update_rows-IsFresh up n s none h = h
  update_rows-IsFresh up n s (some json) h =
      affecting-IsFresh up (contains (has_id n.id) s.rows) (result_not_found n.id) s
        (record s { rows = map (updated marshal unmarshal n json) s.rows }) h
        (All-same_ids _ s.next_id s.rows (λ r. same_id (r.id == n.id) _ r refl) h)

  -- Every operation, failed or not, leaves each row's number below the next that is given out, so
  -- that no number is given out twice.
  pub run_result_op-IsFresh :
      (up : Bool) (op : ResultOp M) (s : ResultDb) → IsFresh s → IsFresh (run_result_op up op s)
  unfolding save update delete_result update_permissions change_owner add_acl remove_acl
  run_result_op-IsFresh up (saving r) s h = insert_row-IsFresh up r s (marshal r.results) h
  run_result_op-IsFresh up (updating r) s h = update_rows-IsFresh up r s (marshal r.results) h
  run_result_op-IsFresh up (deleting enforced id) s h =
      affecting-IsFresh up _ _ s _ h (All-fewer (λ r. not (r.id == id)) s.next_id s.rows h)
  run_result_op-IsFresh up (permitting id o g a group) s h =
      affecting-IsFresh up _ _ s _ h
        (All-same_ids _ s.next_id s.rows (λ r. same_id (r.id == id) _ r refl) h)
  run_result_op-IsFresh up (owning id user group) s h =
      affecting-IsFresh up _ _ s _ h
        (All-same_ids _ s.next_id s.rows (λ r. same_id (r.id == id) _ r refl) h)
  run_result_op-IsFresh true (granting a) s h = h
  run_result_op-IsFresh false (granting a) s h = h
  run_result_op-IsFresh up (revoking id user) s h = affecting-IsFresh up _ _ s _ h h

  -- A result that is saved is read back under the number that the save returns, and what is read
  -- under any other number stays, given that the decoder reads what the encoder wrote.
  pub get-save :
      (r : SavedResult M) (s : ResultDb) (json : String) (i : ℕ)
      → IsFresh s
      → marshal r.results ≡ some json
      → unmarshal json ≡ some r.results
      → ((save marshal unmarshal true r s).1 ≡ ok s.next_id)
        × (get marshal unmarshal true i (save marshal unmarshal true r s).0 ≡ (
            if i == s.next_id
            then ok (some (record r { id = s.next_id }))
            else get marshal unmarshal true i s))
  unfolding save get
  get-save r s json i h e u = rw e (
    refl,
    rw
        (find_first-new i s.rows (new_row marshal unmarshal s.next_id r json)
          (fresh_id s.next_id s.rows h))
        (by_test (i == s.next_id)),
  )
    where
      by_test :
          (b : Bool)
          → read_row marshal unmarshal (
              if b
              then some (new_row marshal unmarshal s.next_id r json)
              else find_first (has_id i) s.rows)
            ≡ (if b
                then ok (some (record r { id = s.next_id }))
                else read_row marshal unmarshal (find_first (has_id i) s.rows))
      by_test true = rw u refl
      by_test false = refl
