-- ===== src/Subscription/Memory.antt =====
-- What each operation does to the answers of `is_subscribed`, whether its statement succeeds or not.
use json_scanner.Base.{
  String, ◌≡◌, refl, inl, inr, Bool, true, false, ◌&&◌, Option, none, some, List, [], ◌∷◌, ◌=s=◌,
  ◌==◌, eq_iff, arith, length, if◌then◌else◌, Bool-cases, Option-cases,
}
use json_scanner.Base.Dict.{
  Dict, lookup, insert, delete, lookup-insert, lookup-delete, IsMap, is_some,
}
use json_scanner.Subscription.Store.{
  Row, Store, exec, inner, remember, forget_in, forget, forget_study, subscribe, unsubscribe,
  delete_user_subscriptions, delete_study_subscriptions, or_false, listed, is_subscribed,
}

-- No statement changes the cache.
pub exec-subs : (up : Bool) (f : List Row → List Row) (s : Store) → (exec up f s).0.subs ≡ s.subs
unfolding exec
exec-subs up f s = ground arith

listed-inner : (k : String) (o : Option (Dict Bool)) → listed k o ≡ or_false (lookup k (inner o))
unfolding lookup
listed-inner k none = refl
listed-inner k (some m) = refl

-- An empty map lists nothing.
lookup-empty : (k : String) (m : Dict Bool) → length m ≡ 0 → lookup k m ≡ none
unfolding lookup
lookup-empty k [] h = refl
lookup-empty k (x ∷ m) h = absurd (omega arith)

-- A subscription is remembered at once, and no other answer changes.
pub is_subscribed-subscribe :
    (up : Bool) (u k u' k' : String) (s : Store)
    → is_subscribed (subscribe up u k s).0 u' k'
      ≡ (if u =s= u' && k =s= k' then true else is_subscribed s u' k')
unfolding is_subscribed subscribe remember
is_subscribed-subscribe up u k u' k' s = rw (exec-subs up _ _) (
    rw (lookup-insert u u' (insert k true (inner (lookup u s.subs))) s.subs) (
      ground (
        arith,
        eq_iff u u',
        listed-inner k' (lookup u' s.subs),
        lookup-insert k k' true (inner (lookup u s.subs)),
      )))

listed-forget_in :
    (u u' k' : String) (m : Dict Bool) (subs : Dict (Dict Bool))
    → listed k' (lookup u' (forget_in u m subs))
      ≡ (if u =s= u' then or_false (lookup k' m) else listed k' (lookup u' subs))
unfolding forget_in
listed-forget_in u u' k' m subs = elim (Bool-cases (length m == 0)) [
  | inl e ↦ rw e (rw (lookup-delete u u' subs) (ground (arith, lookup-empty k' m (ground arith))))
  | inr e ↦ rw e (rw (lookup-insert u u' m subs) (ground arith))
]

-- A subscription is forgotten at once, and no other answer changes.
pub is_subscribed-unsubscribe :
    (up : Bool) (u k u' k' : String) (s : Store)
    → is_subscribed (unsubscribe up u k s).0 u' k'
      ≡ (if u =s= u' && k =s= k' then false else is_subscribed s u' k')
unfolding is_subscribed unsubscribe forget
is_subscribed-unsubscribe up u k u' k' s =
    rw (exec-subs up _ _) (elim (Option-cases (lookup u s.subs)) [
      | inl e ↦ rw (e, forget) (ground (arith, eq_iff u u'))
      | inr (m, e) ↦
          rw (e, forget)
            (rw (listed-forget_in u u' k' (delete k m) s.subs)
              (rw (lookup-delete k k' m) (ground (arith, eq_iff u u'))))
    ])

-- Every answer about the user becomes no, and no other changes.
pub is_subscribed-delete_user :
    (up : Bool) (u u' k' : String) (s : Store)
    → is_subscribed (delete_user_subscriptions up u s).0 u' k'
      ≡ (if u =s= u' then false else is_subscribed s u' k')
unfolding is_subscribed delete_user_subscriptions
is_subscribed-delete_user up u u' k' s =
    rw (exec-subs up _ _) (rw (lookup-delete u u' s.subs) (ground arith))

-- What the loop over the users leaves of one user's map.
abbrev left_of : String → Option (Dict Bool) → Option (Dict Bool)
left_of k none = none
left_of k (some m) = if length (delete k m) == 0 then none else some (delete k m)

not_some : {A : Type 0} (o : Option A) → is_some o ≡ false → o ≡ none
not_some none h = refl
not_some (some a) h = cc

lookup-forget_study :
    (k u : String) (subs : Dict (Dict Bool))
    → IsMap subs
    → lookup u (forget_study k subs) ≡ left_of k (lookup u subs)
unfolding lookup forget_study
lookup-forget_study k u [] h = refl
lookup-forget_study k u ((j, m) ∷ rest) h =
    ground (arith, eq_iff j u, lookup-forget_study k u rest h.1, not_some (lookup j rest) h.0)

listed-left_of :
    (k k' : String) (o : Option (Dict Bool))
    → listed k' (left_of k o) ≡ (if k =s= k' then false else listed k' o)
listed-left_of k k' none = ground arith
listed-left_of k k' (some m) = elim (Bool-cases (length (delete k m) == 0)) [
  | inl e ↦ rw e (ground (arith, lookup-empty k' (delete k m) (ground arith), lookup-delete k k' m))
  | inr e ↦ rw e (rw (lookup-delete k k' m) (ground arith))
]

-- Every answer about the study becomes no, and no other changes.
pub is_subscribed-delete_study :
    (up : Bool) (k u' k' : String) (s : Store)
    → IsMap s.subs
    → is_subscribed (delete_study_subscriptions up k s).0 u' k'
      ≡ (if k =s= k' then false else is_subscribed s u' k')
unfolding is_subscribed delete_study_subscriptions
is_subscribed-delete_study up k u' k' s h =
    rw (exec-subs up _ _)
      (rw (lookup-forget_study k u' s.subs h) (listed-left_of k k' (lookup u' s.subs)))
