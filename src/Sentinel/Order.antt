-- ===== src/Sentinel/Order.antt =====
-- The order of the flags and the sort by it (internal/sentinel/sentinel.go).
use json_scanner.Base.{
  suc, arith, ◌≡◌, refl, ap, ◌∙◌, Bool, true, false, List, [], ◌∷◌, All, count, if◌then◌else◌, inl,
  inr, Bool-cases,
}
use json_scanner.Indicators.{Number}
use json_scanner.Screen.Ranked.{IsTotal}
use json_scanner.Sentinel.Gate.{Severity, suspect, watch, Flag, is_before, place, sort_flags}

module _ {W : Type 0} ⦃num : Number W⦄ where
  -- No flag stands before one that the order puts before it.
  abbrev pub IsRanked : List (Flag W) → Type 0
  IsRanked [] = Unit
  IsRanked (x ∷ xs) = All (λ y. is_before y x ≡ false) xs × IsRanked xs

  abbrev pub IsJudged : Flag W → Type 0
  IsJudged f = num.is_nan f.ret_3m ≡ false

  before_asym : (x y : Flag W) → IsTotal W → is_before x y ≡ true → is_before y x ≡ false
  before_asym x y r h = by_severity x.severity y.severity h
    where
      by_severity :
          (s t : Severity)
          → is_before (record x { severity = s }) (record y { severity = t }) ≡ true
          → is_before (record y { severity = t }) (record x { severity = s }) ≡ false
      by_severity suspect suspect e = r.lt_asym y.ret_3m x.ret_3m e
      by_severity watch watch e = r.lt_asym y.ret_3m x.ret_3m e
      by_severity suspect watch e = refl
      by_severity watch suspect e = cc

  not_before_trans :
      (x y z : Flag W)
      → IsTotal W
      → IsJudged y
      → is_before z y ≡ false
      → is_before y x ≡ false
      → is_before z x ≡ false
  not_before_trans x y z r v = by_severity x.severity y.severity z.severity
    where
      by_severity :
          (s t u : Severity)
          → is_before (record z { severity = u }) (record y { severity = t }) ≡ false
          → is_before (record y { severity = t }) (record x { severity = s }) ≡ false
          → is_before (record z { severity = u }) (record x { severity = s }) ≡ false
      by_severity suspect suspect suspect p q = r.not_lt_trans x.ret_3m y.ret_3m z.ret_3m v q p
      by_severity watch watch watch p q = r.not_lt_trans x.ret_3m y.ret_3m z.ret_3m v q p
      by_severity suspect suspect watch p q = refl
      by_severity suspect watch watch p q = refl
      by_severity suspect watch suspect p q = cc
      by_severity watch suspect u p q = cc
      by_severity watch watch suspect p q = cc

  place-All :
      (P : Flag W → Type 0) (x : Flag W) (xs : List (Flag W)) → P x → All P xs → All P (place x xs)
  unfolding place
  place-All P x [] p h = (p, tt)
  place-All P x (y ∷ ys) p h = elim (Bool-cases (is_before y x)) [
    | inl e ↦ rw e (h.0, place-All P x ys p h.1)
    | inr e ↦ rw e (p, h)
  ]

  pub sort_flags-All : (P : Flag W → Type 0) (xs : List (Flag W)) → All P xs → All P (sort_flags xs)
  unfolding sort_flags
  sort_flags-All P [] h = tt
  sort_flags-All P (x ∷ xs) h = place-All P x (sort_flags xs) h.0 (sort_flags-All P xs h.1)

  behind-All :
      (x y : Flag W) (ys : List (Flag W))
      → IsTotal W
      → IsJudged y
      → is_before y x ≡ false
      → All (λ z. is_before z y ≡ false) ys
      → All (λ z. is_before z x ≡ false) ys
  behind-All x y [] r v e h = tt
  behind-All x y (z ∷ zs) r v e h = (not_before_trans x y z r v h.0 e, behind-All x y zs r v e h.1)

  place-IsRanked :
      (x : Flag W) (xs : List (Flag W))
      → IsTotal W
      → All IsJudged xs
      → IsRanked xs
      → IsRanked (place x xs)
  unfolding place
  place-IsRanked x [] r v h = (tt, tt)
  place-IsRanked x (y ∷ ys) r v h = elim (Bool-cases (is_before y x)) [
    | inl e ↦ rw e (
      place-All (λ z. is_before z y ≡ false) x ys (before_asym y x r e) h.0,
      place-IsRanked x ys r v.1 h.1,
    )
    | inr e ↦ rw e ((e, behind-All x y ys r v.0 e h.0), h)
  ]

  pub sort_flags-IsRanked :
      (xs : List (Flag W)) → IsTotal W → All IsJudged xs → IsRanked (sort_flags xs)
  unfolding sort_flags
  sort_flags-IsRanked [] r v = tt
  sort_flags-IsRanked (x ∷ xs) r v =
      place-IsRanked x (sort_flags xs) r (sort_flags-All IsJudged xs v.1)
        (sort_flags-IsRanked xs r v.1)

  count-place :
      (q : Flag W → Bool) (x : Flag W) (xs : List (Flag W))
      → count q (place x xs) ≡ count q (x ∷ xs)
  unfolding place
  count-place q x [] = refl
  count-place q x (y ∷ ys) = ground (arith, count-place q x ys)

  pub count-sort_flags :
      (q : Flag W → Bool) (xs : List (Flag W)) → count q (sort_flags xs) ≡ count q xs
  unfolding sort_flags
  count-sort_flags q [] = refl
  count-sort_flags q (x ∷ xs) =
      count-place q x (sort_flags xs) ∙ ap (λ n. if q x then suc n else n) (count-sort_flags q xs)
