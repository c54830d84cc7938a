-- ===== src/Predicate/Ordered.antt =====
-- `sortByOrder` sorts (internal/predicate/catalog.go).
use mathlib.Core.List.{reverse_aux}
use json_scanner.Base.{
  ℕ, ◌+◌, ◌≤◌, String, ◌≡◌, inl, inr, Bool, List, [], ◌∷◌, All, ltb, count, arith, if◌then◌else◌,
  Bool-cases,
}
use json_scanner.Base.Dict.{Dict}
use json_scanner.Predicate.Catalog.{order_of, sink, sort_from, sort_by_order}

module _ (order : Dict ℕ) where
  -- No id stands before one of a lower place.
  abbrev pub IsAscending : List String → Type 0
  IsAscending [] = Unit
  IsAscending (x ∷ xs) = All (λ y. order_of order x ≤ order_of order y) xs × IsAscending xs

  abbrev IsDescending : List String → Type 0
  IsDescending [] = Unit
  IsDescending (x ∷ xs) = All (λ y. order_of order y ≤ order_of order x) xs × IsDescending xs

  -- All of the first list stand at or before all of the second.
  abbrev IsBelow : List String → List String → Type 0
  IsBelow xs r = All (λ x. All (λ y. order_of order x ≤ order_of order y) r) xs

  grow-IsBelow :
      (x : String) (xs r : List String)
      → All (λ y. order_of order y ≤ order_of order x) xs
      → IsBelow xs r
      → IsBelow xs (x ∷ r)
  grow-IsBelow x [] r h b = tt
  grow-IsBelow x (z ∷ xs) r h b = ((h.0, b.0), grow-IsBelow x xs r h.1 b.1)

  reverse_aux-IsAscending :
      (xs r : List String)
      → IsDescending xs
      → IsAscending r
      → IsBelow xs r
      → IsAscending (reverse_aux xs r)
  reverse_aux-IsAscending [] r d a b = a
  reverse_aux-IsAscending (x ∷ xs) r d a b =
      reverse_aux-IsAscending xs (x ∷ r) d.1 (b.0, a) (grow-IsBelow x xs r d.0 b.1)

  none-IsBelow : (xs : List String) → IsBelow xs []
  none-IsBelow [] = tt
  none-IsBelow (x ∷ xs) = (tt, none-IsBelow xs)

  sink-All :
      (P : String → Type 0) (x : String) (ys : List String)
      → P x
      → All P ys
      → All P (sink order x ys)
  unfolding sink
  sink-All P x [] p h = (p, tt)
  sink-All P x (y ∷ ys) p h = elim (Bool-cases (ltb (order_of order x) (order_of order y))) [
    | inl e ↦ rw e (h.0, sink-All P x ys p h.1)
    | inr e ↦ rw e (p, h)
  ]

  raise :
      (x y : String) (ys : List String)
      → order_of order y ≤ order_of order x
      → All (λ z. order_of order z ≤ order_of order y) ys
      → All (λ z. order_of order z ≤ order_of order x) ys
  raise x y [] le h = tt
  raise x y (z ∷ ys) le h = (omega (arith, h.0), raise x y ys le h.1)

  sink-IsDescending :
      (x : String) (ys : List String) → IsDescending ys → IsDescending (sink order x ys)
  unfolding sink
  sink-IsDescending x [] d = (tt, tt)
  sink-IsDescending x (y ∷ ys) d = elim (Bool-cases (ltb (order_of order x) (order_of order y))) [
    | inl e ↦ rw e (
      sink-All (λ z. order_of order z ≤ order_of order y) x ys (ground arith) d.0,
      sink-IsDescending x ys d.1,
    )
    | inr e ↦ rw e (
        let le : order_of order y ≤ order_of order x = ground arith in
        ((le, raise x y ys le d.0), d))
  ]

  sort_from-IsAscending :
      (before ids : List String) → IsDescending before → IsAscending (sort_from order before ids)
  unfolding sort_from
  sort_from-IsAscending before [] d = reverse_aux-IsAscending before [] d tt (none-IsBelow before)
  sort_from-IsAscending before (x ∷ ids) d =
      sort_from-IsAscending (sink order x before) ids (sink-IsDescending x before d)

  module _ (p : String → Bool) where
    count-sink :
        (x : String) (ys : List String)
        → count p (sink order x ys) ≡ count p ys + (if p x then 1 else 0)
    unfolding sink
    count-sink x [] = ground arith
    count-sink x (y ∷ ys) = ground (arith, count-sink x ys)

    count-reverse_aux : (xs r : List String) → count p (reverse_aux xs r) ≡ count p xs + count p r
    count-reverse_aux [] r = omega arith
    count-reverse_aux (x ∷ xs) r = ground (arith, count-reverse_aux xs (x ∷ r))

    count-sort_from :
        (before ids : List String)
        → count p (sort_from order before ids) ≡ count p before + count p ids
    unfolding sort_from
    count-sort_from before [] = count-reverse_aux before []
    count-sort_from before (x ∷ ids) =
        ground (arith, count-sort_from (sink order x before) ids, count-sink x before)

  -- Sorting leaves no id before one of a lower place, and for every test it leaves as many ids that
  -- pass the test as there were.
  pub sort_by_order-IsAscending :
      (ids : List String)
      → IsAscending (sort_by_order ids order)
        × ((p : String → Bool) → count p (sort_by_order ids order) ≡ count p ids)
  unfolding sort_by_order
  sort_by_order-IsAscending ids =
      (sort_from-IsAscending [] ids tt, (λ p. omega (arith, count-sort_from p [] ids)))
