-- ===== src/Study/Stored.antt =====
-- The three views that the study store keeps agree (internal/study/store.go).
use json_scanner.Base.{
  String, ◌≡◌, refl, sym, ap, ◌∙◌, inl, inr, eq_refl, Bool, true, false, Option, none, some, List,
  [], ◌∷◌, ◌=s=◌, count, if◌then◌else◌, Bool-cases, Option-cases,
}
use json_scanner.Base.Dict.{Dict, lookup, delete, is_some, lookup-delete}
use json_scanner.Base.Keyed.{has_key, count-snoc}
use json_scanner.Base.Mirror.{
  mapped, Contents, TableHolds, Mirrors, with_put, without, without-absent, put-Mirrors,
  drop-Mirrors, insert-TableHolds, delete-TableHolds,
}
use json_scanner.Base.Text.{trim_text}
use json_scanner.User.{global_id, tier_free}
use json_scanner.Study.Access.{Study}
use json_scanner.Study.Store.{
  StudyStore, key_of, saved, put_row, save_to_sql, filled, put, upsert, get, statement_failed,
  delete_study,
}

-- The map, the list and the table hold the same studies, each key once.
pub record IsSynced (s : StudyStore) (m : Contents Study) : Type 0 where
  pub mirrors : Mirrors key_of s.all s.by_key m
  pub table : TableHolds (λ st. st) s.db m

pub data StudyOp : Type 0 where
  upserting : Study → StudyOp
  deleting : String → StudyOp

abbrev pub run_op : StudyOp → StudyStore → StudyStore
run_op (upserting st) s = (upsert true st s).0
run_op (deleting k) s = (delete_study true k s).0

-- What the operation does to the contents.
unfoldable pub after : StudyOp → Contents Study → Contents Study
after (upserting st) m =
    if trim_text st.key =s= ""
    then m
    else if trim_text st.where_sql =s= ""
    then m
    else with_put key_of (filled st) m
after (deleting d) m = without d m

filled-key : (st : Study) → (filled st).key ≡ trim_text st.key
unfolding filled
filled-key st = refl

not_empty : (d o : String) → (d =s= "") ≡ false → ((if o =s= "" then d else o) =s= "") ≡ false
not_empty d o h = elim (Bool-cases (o =s= "")) [ inl e ↦ rw e h | inr e ↦ rw e e ]

vis_not_empty :
    (v : String) (b : Bool)
    → ((if v =s= "" then (if b then "public" else "private") else v) =s= "") ≡ false
vis_not_empty v true = not_empty "public" v refl
vis_not_empty v false = not_empty "private" v refl

-- A filled study is saved as it is.
saved-filled : (st : Study) → saved (filled st) ≡ filled st
unfolding saved filled
saved-filled st =
    rw
      (
        vis_not_empty st.visibility
            ((if st.owner =s= "" then global_id else st.owner) =s= global_id),
        not_empty tier_free st.tier refl,
      )
      refl

put-IsSynced :
    (st : Study) (s : StudyStore) (m : Contents Study)
    → saved st ≡ st
    → IsSynced s m
    → IsSynced (save_to_sql true st (put st s)).0 (with_put key_of st m)
unfolding save_to_sql put put_row
put-IsSynced st s m v h =
    let mirrored =
      put-Mirrors key_of st s.all s.by_key m (is_some (lookup st.key s.by_key))
        (ap is_some (sym (h.mirrors.by_key st.key))) h.mirrors in
    elim (Option-cases s.db) [
      | inl e ↦ rw e (record { mirrors = mirrored; table = tt })
      | inr (rows, e) ↦
          rw (e, v)
            (record {
              mirrors = mirrored;
              table = insert-TableHolds key_of (λ st. st) st rows m (rw e at h.table);
            })
    ]

upsert-IsSynced :
    (st : Study) (s : StudyStore) (m : Contents Study)
    → IsSynced s m
    → IsSynced (upsert true st s).0 (after (upserting st) m)
unfolding upsert after
upsert-IsSynced st s m h = elim (Bool-cases (trim_text st.key =s= "")) [
  | inl e ↦ rw e h
  | inr e ↦ elim (Bool-cases (trim_text st.where_sql =s= "")) [
    | inl q ↦ rw (e, q) h
    | inr q ↦ rw (e, q) (put-IsSynced (filled st) s m (saved-filled st) h)
  ]
]

delete-IsSynced :
    (d : String) (s : StudyStore) (m : Contents Study)
    → IsSynced s m
    → IsSynced (delete_study true d s).0 (after (deleting d) m)
unfolding delete_study after
delete-IsSynced d s m h = elim (Bool-cases (is_some (lookup d s.by_key))) [
  | inr e ↦
      let absent : is_some (m d) ≡ false = ap is_some (sym (h.mirrors.by_key d)) ∙ e in
      rw (e, without-absent d m absent) h
  | inl e ↦
      let mirrored = drop-Mirrors key_of d s.all s.by_key m h.mirrors in
      elim (Option-cases s.db) [
        | inl q ↦ rw (e, q) (record { mirrors = mirrored; table = tt })
        | inr (rows, q) ↦
            rw (e, q)
              (record {
                mirrors = mirrored;
                table = delete-TableHolds key_of (λ st. st) d rows m (rw q at h.table);
              })
      ]
]

abbrev pub run_ops : List StudyOp → StudyStore → StudyStore
run_ops [] s = s
run_ops (op ∷ ops) s = run_ops ops (run_op op s)

abbrev pub after_all : List StudyOp → Contents Study → Contents Study
after_all [] m = m
after_all (op ∷ ops) m = after_all ops (after op m)

-- From a store whose map, list and table hold the same studies, each once, any run of upserts and
-- deletions whose statements succeed leaves them holding the same studies, each once: those that
-- the operations make of the contents, a refused upsert making no change.
pub run_ops-IsSynced :
    (ops : List StudyOp) (s : StudyStore) (m : Contents Study)
    → IsSynced s m
    → IsSynced (run_ops ops s) (after_all ops m)
run_ops-IsSynced [] s m h = h
run_ops-IsSynced (upserting st ∷ ops) s m h = run_ops-IsSynced ops _ _ (upsert-IsSynced st s m h)
run_ops-IsSynced (deleting d ∷ ops) s m h = run_ops-IsSynced ops _ _ (delete-IsSynced d s m h)

-- From a store whose map, list and table hold the same studies, for a study that has a key and a
-- WHERE text and whose key the store has: a deletion whose statement fails returns its error, hides
-- the study from look-ups, and leaves the list and the table as they were, which hold the study
-- once; an upsert of it that succeeds then lists a second study of that key.
pub delete_failed_duplicates :
    (st : Study) (s : StudyStore) (m : Contents Study) (rows : Dict Study)
    → IsSynced s m
    → s.db ≡ some rows
    → is_some (m (trim_text st.key)) ≡ true
    → (trim_text st.key =s= "") ≡ false
    → (trim_text st.where_sql =s= "") ≡ false
    → let failed = delete_study false (trim_text st.key) s in
      (failed.1 ≡ some statement_failed)
      × (get (trim_text st.key) failed.0 ≡ none)
      × (failed.0.all ≡ s.all)
      × (count (has_key key_of (trim_text st.key)) s.all ≡ 1)
      × (failed.0.db ≡ some rows)
      × (lookup (trim_text st.key) rows ≡ m (trim_text st.key))
      × (count (has_key key_of (trim_text st.key)) (upsert true st failed.0).0.all ≡ 2)
unfolding delete_study get upsert put save_to_sql
delete_failed_duplicates st s m rows h d p e q =
    let k = trim_text st.key in
    let there : is_some (lookup k s.by_key) ≡ true = ap is_some (h.mirrors.by_key k) ∙ p in
    let gone : lookup k (delete k s.by_key) ≡ none =
      lookup-delete k k s.by_key ∙ rw (eq_refl k) refl in
    let kept : count (has_key key_of k) s.all ≡ 1 = rw (h.mirrors.once k, p) refl in
    let stored : lookup k rows ≡ m k = stored_row s.db d h.table k in
    rw (there, d, e, q, gone)
      (
        refl,
        refl,
        refl,
        kept,
        refl,
        stored,
        count-snoc key_of (filled st) k s.all ∙ rw (kept, filled-key st, eq_refl k) refl,
      )
  where
    stored_row :
        (db : Option (Dict Study))
        → db ≡ some rows
        → TableHolds (λ x. x) db m
        → (k : String) → lookup k rows ≡ m k
    stored_row none w t k = cc
    stored_row (some table) w t k =
        let same : table ≡ rows = cc in rw (sym same) (t k ∙ whole (m k))
      where
        whole : (o : Option Study) → mapped (λ x. x) o ≡ o
        whole none = refl
        whole (some x) = refl
