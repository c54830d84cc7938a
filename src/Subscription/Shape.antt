-- ===== src/Subscription/Shape.antt =====
-- The shape of the cache: one entry to a user, and no user with nothing left.
use json_scanner.Base.{
  String, ◌≡◌, refl, inl, inr, Bool, true, false, List, [], ◌∷◌, ◌=s=◌, ◌==◌, eq_iff, arith, length,
  Bool-cases, Option-cases,
}
use json_scanner.Base.Dict.{
  Dict, lookup, insert, delete, IsMap, insert-IsMap, delete-IsMap, is_some,
}
use json_scanner.Subscription.Store.{
  Row, Store, exec, remember, forget_in, forget, forget_study, subscribe, unsubscribe,
  delete_user_subscriptions, delete_study_subscriptions, load_rows,
}
use json_scanner.Subscription.Memory.{exec-subs}

-- A user's entry holds at least one study.
abbrev pub HasStudies : Dict (Dict Bool) → Type 0
HasStudies [] = Unit
HasStudies ((u, m) ∷ rest) = ((length m == 0) ≡ false) × HasStudies rest

pub record IsShaped (subs : Dict (Dict Bool)) : Type 0 where
  pub one_entry : IsMap subs
  pub has_studies : HasStudies subs

pub insert-nonempty :
    {V : Type 0} (k : String) (v : V) (m : Dict V) → (length (insert k v m) == 0) ≡ false
unfolding insert
insert-nonempty k v [] = refl
insert-nonempty k v ((j, w) ∷ m) = ground arith

insert-HasStudies :
    (u : String) (m : Dict Bool) (subs : Dict (Dict Bool))
    → (length m == 0) ≡ false
    → HasStudies subs
    → HasStudies (insert u m subs)
unfolding insert
insert-HasStudies u m [] e h = (e, tt)
insert-HasStudies u m ((j, w) ∷ rest) e h = elim (Bool-cases (j =s= u)) [
  | inl q ↦ rw q (e, h.1)
  | inr q ↦ rw q (h.0, insert-HasStudies u m rest e h.1)
]

delete-HasStudies :
    (u : String) (subs : Dict (Dict Bool)) → HasStudies subs → HasStudies (delete u subs)
unfolding delete
delete-HasStudies u [] h = tt
delete-HasStudies u ((j, w) ∷ rest) h = elim (Bool-cases (j =s= u)) [
  | inl q ↦ rw q (delete-HasStudies u rest h.1)
  | inr q ↦ rw q (h.0, delete-HasStudies u rest h.1)
]

pub remember-IsShaped :
    (u k : String) (subs : Dict (Dict Bool)) → IsShaped subs → IsShaped (remember u k subs)
unfolding remember
remember-IsShaped u k subs h = record {
  one_entry = insert-IsMap u _ subs h.one_entry;
  has_studies = insert-HasStudies u _ subs (insert-nonempty k true _) h.has_studies;
}

forget_in-IsShaped :
    (u : String) (m : Dict Bool) (subs : Dict (Dict Bool))
    → IsShaped subs
    → IsShaped (forget_in u m subs)
unfolding forget_in
forget_in-IsShaped u m subs h = elim (Bool-cases (length m == 0)) [
  | inl e ↦ rw e (record {
    one_entry = delete-IsMap u subs h.one_entry;
    has_studies = delete-HasStudies u subs h.has_studies;
  })
  | inr e ↦ rw e (record {
    one_entry = insert-IsMap u m subs h.one_entry;
    has_studies = insert-HasStudies u m subs e h.has_studies;
  })
]

forget-IsShaped :
    (u k : String) (subs : Dict (Dict Bool)) → IsShaped subs → IsShaped (forget u k subs)
unfolding forget
forget-IsShaped u k subs h = elim (Option-cases (lookup u subs)) [
  | inl e ↦ rw (e, forget) h
  | inr (m, e) ↦ rw (e, forget) (forget_in-IsShaped u (delete k m) subs h)
]

missing-forget_study :
    (k u : String) (subs : Dict (Dict Bool))
    → is_some (lookup u subs) ≡ false
    → is_some (lookup u (forget_study k subs)) ≡ false
unfolding lookup forget_study
missing-forget_study k u [] h = refl
missing-forget_study k u ((j, m) ∷ rest) h =
    ground (arith, eq_iff j u, missing-forget_study k u rest)

forget_study-IsShaped :
    (k : String) (subs : Dict (Dict Bool)) → IsMap subs → IsShaped (forget_study k subs)
unfolding forget_study
forget_study-IsShaped k [] h = record { one_entry = tt; has_studies = tt }
forget_study-IsShaped k ((u, m) ∷ rest) h =
    let ih = forget_study-IsShaped k rest h.1 in
    elim (Bool-cases (length (delete k m) == 0)) [
      | inl e ↦ rw e ih
      | inr e ↦ rw e (record {
        one_entry = (missing-forget_study k u rest h.0, ih.one_entry);
        has_studies = (e, ih.has_studies);
      })
    ]

pub load_rows-IsShaped :
    (rows : List Row) (subs : Dict (Dict Bool)) → IsShaped subs → IsShaped (load_rows rows subs)
unfolding load_rows
load_rows-IsShaped [] subs h = h
load_rows-IsShaped (r ∷ rs) subs h =
    load_rows-IsShaped rs _ (remember-IsShaped r.user_id r.study_key subs h)

exec-IsShaped :
    (up : Bool) (f : List Row → List Row) (s : Store)
    → IsShaped s.subs
    → IsShaped (exec up f s).0.subs
exec-IsShaped up f s h = rw (exec-subs up f s) h

-- The operations that change the store.
pub data Op : Type 0 where
  subscribing unsubscribing : String → String → Op
  deleting_user deleting_study : String → Op

unfoldable pub run_op : Bool → Op → Store → Store × Bool
run_op up (subscribing u k) = subscribe up u k
run_op up (unsubscribing u k) = unsubscribe up u k
run_op up (deleting_user u) = delete_user_subscriptions up u
run_op up (deleting_study k) = delete_study_subscriptions up k

-- Whether its statement succeeds or not, every operation keeps one entry to a user in the cache and
-- leaves no user with an empty entry.
pub run_op-IsShaped :
    (up : Bool) (op : Op) (s : Store) → IsShaped s.subs → IsShaped (run_op up op s).0.subs
unfolding run_op subscribe unsubscribe delete_user_subscriptions delete_study_subscriptions
run_op-IsShaped up (subscribing u k) s h = exec-IsShaped up _ _ (remember-IsShaped u k s.subs h)
run_op-IsShaped up (unsubscribing u k) s h = exec-IsShaped up _ _ (forget-IsShaped u k s.subs h)
run_op-IsShaped up (deleting_user u) s h = exec-IsShaped up _ _ (record {
  one_entry = delete-IsMap u s.subs h.one_entry;
  has_studies = delete-HasStudies u s.subs h.has_studies;
})
run_op-IsShaped up (deleting_study k) s h =
    exec-IsShaped up _ _ (forget_study-IsShaped k s.subs h.one_entry)
