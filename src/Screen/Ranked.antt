-- ===== src/Screen/Ranked.antt =====
-- What a preset returns (internal/screen/screen.go).
use json_scanner.Base.{
  ℕ, zero, suc, ◌<◌, ◌≤◌, ◌⊎◌, ◌++◌, length, ltb, arith, Option, none, some, ◌≡◌, refl, sym, ap,
  ◌∙◌, Bool, true, false, not, ◌&&◌, List, [], ◌∷◌, All, count, select, if◌then◌else◌, inl, inr,
  Bool-cases,
}
use mathlib.Core.List.{append-nil}
use json_scanner.Indicators.{Number}
use json_scanner.Results.Transfer.{take, skip}
use json_scanner.Screen.Row.{SnapshotRow}
use json_scanner.Screen.Presets.{Preset, matches, is_kept, place, sort_rows, capped, run}

take-skip {ℓ} : {A : Type ℓ} (n : ℕ) (xs : List A) → take n xs ++ skip n xs ≡ xs
take-skip zero xs = refl
take-skip (suc n) [] = refl
take-skip (suc n) (x ∷ xs) = ap (λ l. x ∷ l) (take-skip n xs)

length-take {ℓ} :
    {A : Type ℓ} (n : ℕ) (xs : List A) → ltb n (length xs) ≡ true → length (take n xs) ≡ n
length-take zero xs h = refl
length-take (suc n) [] h = absurd (ground arith)
length-take (suc n) (x ∷ xs) h = ap suc (length-take n xs (ground arith))

-- The order of the numbers, NaN aside.
pub record IsTotal (W : Type 0) ⦃num : Number W⦄ : Type 0 where
  pub lt_asym : (x y : W) → num.lt x y ≡ true → num.lt y x ≡ false
  pub not_lt_trans :
      (x y z : W)
      → num.is_nan y ≡ false
      → num.lt x y ≡ false
      → num.lt y z ≡ false
      → num.lt x z ≡ false

module _ {W : Type 0} ⦃num : Number W⦄ where
  -- No row stands before one with a higher metric.
  abbrev pub IsDescending : (SnapshotRow W → W) → List (SnapshotRow W) → Type 0
  IsDescending metric [] = Unit
  IsDescending metric (x ∷ xs) =
      All (λ y. num.lt (metric x) (metric y) ≡ false) xs × IsDescending metric xs

  place-All :
      (P : SnapshotRow W → Type 0) (metric : SnapshotRow W → W) (x : SnapshotRow W)
      (xs : List (SnapshotRow W))
      → P x
      → All P xs
      → All P (place metric x xs)
  unfolding place
  place-All P metric x [] p h = (p, tt)
  place-All P metric x (y ∷ ys) p h = elim (Bool-cases (num.lt (metric x) (metric y))) [
    | inl e ↦ rw e (h.0, place-All P metric x ys p h.1)
    | inr e ↦ rw e (p, h)
  ]

  sort_rows-All :
      (P : SnapshotRow W → Type 0) (metric : SnapshotRow W → W) (xs : List (SnapshotRow W))
      → All P xs
      → All P (sort_rows metric xs)
  unfolding sort_rows
  sort_rows-All P metric [] h = tt
  sort_rows-All P metric (x ∷ xs) h =
      place-All P metric x (sort_rows metric xs) h.0 (sort_rows-All P metric xs h.1)

  below-All :
      (metric : SnapshotRow W → W) (x y : SnapshotRow W) (ys : List (SnapshotRow W))
      → IsTotal W
      → num.is_nan (metric y) ≡ false
      → num.lt (metric x) (metric y) ≡ false
      → All (λ z. num.lt (metric y) (metric z) ≡ false) ys
      → All (λ z. num.lt (metric x) (metric z) ≡ false) ys
  below-All metric x y [] r v e h = tt
  below-All metric x y (z ∷ zs) r v e h =
      (r.not_lt_trans (metric x) (metric y) (metric z) v e h.0, below-All metric x y zs r v e h.1)

  place-IsDescending :
      (metric : SnapshotRow W → W) (x : SnapshotRow W) (xs : List (SnapshotRow W))
      → IsTotal W
      → All (λ y. num.is_nan (metric y) ≡ false) xs
      → IsDescending metric xs
      → IsDescending metric (place metric x xs)
  unfolding place
  place-IsDescending metric x [] r v h = (tt, tt)
  place-IsDescending metric x (y ∷ ys) r v h = elim (Bool-cases (num.lt (metric x) (metric y))) [
    | inl e ↦ rw e (
      place-All (λ z. num.lt (metric y) (metric z) ≡ false) metric x ys
          (r.lt_asym (metric x) (metric y) e) h.0,
      place-IsDescending metric x ys r v.1 h.1,
    )
    | inr e ↦ rw e ((e, below-All metric x y ys r v.0 e h.0), h)
  ]

  sort_rows-IsDescending :
      (metric : SnapshotRow W → W) (xs : List (SnapshotRow W))
      → IsTotal W
      → All (λ y. num.is_nan (metric y) ≡ false) xs
      → IsDescending metric (sort_rows metric xs)
  unfolding sort_rows
  sort_rows-IsDescending metric [] r v = tt
  sort_rows-IsDescending metric (x ∷ xs) r v =
      place-IsDescending metric x (sort_rows metric xs) r
        (sort_rows-All (λ y. num.is_nan (metric y) ≡ false) metric xs v.1)
        (sort_rows-IsDescending metric xs r v.1)

  count-place :
      (q : SnapshotRow W → Bool) (metric : SnapshotRow W → W) (x : SnapshotRow W)
      (xs : List (SnapshotRow W))
      → count q (place metric x xs) ≡ count q (x ∷ xs)
  unfolding place
  count-place q metric x [] = refl
  count-place q metric x (y ∷ ys) =
      let ih = count-place q metric x ys in
      elim (Bool-cases (num.lt (metric x) (metric y))) [
        | inl e ↦ elim (Bool-cases (q x)) [
          | inl f ↦ elim (Bool-cases (q y)) [
            | inl g ↦ rw (e, ih, f, g) refl
            | inr g ↦ rw (e, ih, f, g) refl
          ]
          | inr f ↦ elim (Bool-cases (q y)) [
            | inl g ↦ rw (e, ih, f, g) refl
            | inr g ↦ rw (e, ih, f, g) refl
          ]
        ]
        | inr e ↦ rw e refl
      ]

  count-sort_rows :
      (q : SnapshotRow W → Bool) (metric : SnapshotRow W → W) (xs : List (SnapshotRow W))
      → count q (sort_rows metric xs) ≡ count q xs
  unfolding sort_rows
  count-sort_rows q metric [] = refl
  count-sort_rows q metric (x ∷ xs) =
      count-place q metric x (sort_rows metric xs) ∙ more (q x) (count-sort_rows q metric xs)
    where
      more : (b : Bool) {m n : ℕ} → m ≡ n → (if b then suc m else m) ≡ (if b then suc n else n)
      more true h = ap suc h
      more false h = h

  kept_not_nan :
      (p : Preset W) (rows : List (SnapshotRow W))
      → All (λ r. num.is_nan (p.metric r) ≡ false) (select (is_kept p) rows)
  kept_not_nan p [] = tt
  kept_not_nan p (r ∷ rows) = elim (Bool-cases (is_kept p r)) [
    | inl e ↦ rw e (second (matches p.match r) (num.is_nan (p.metric r)) e, kept_not_nan p rows)
    | inr e ↦ rw e (kept_not_nan p rows)
  ]
    where
      second : (a b : Bool) → (a && not b) ≡ true → b ≡ false
      second true true h = sym h
      second true false h = refl
      second false true h = cc
      second false false h = refl

  -- The rows that a preset is about: all where it has no filter.
  abbrev pub fits : Option (SnapshotRow W → Bool) → SnapshotRow W → Bool
  fits none r = true
  fits (some f) r = f r

  matches_lem : (m : Option (SnapshotRow W → Bool)) (r : SnapshotRow W) → matches m r ≡ fits m r
  matches_lem none r = refl
  matches_lem (some f) r = refl

  count-kept :
      (p : Preset W) (q : SnapshotRow W → Bool) (rows : List (SnapshotRow W))
      → count q (select (is_kept p) rows)
        ≡ count (λ r. fits p.match r && (not (num.is_nan (p.metric r)) && q r)) rows
  count-kept p q [] = refl
  count-kept p q (r ∷ rows) =
      let rest = count-kept p q rows in
      rw (sym (matches_lem p.match r)) (elim (Bool-cases (matches p.match r)) [
        | inl e ↦ elim (Bool-cases (num.is_nan (p.metric r))) [
          | inl f ↦ rw (e, f) rest
          | inr f ↦ rw (e, f) (ap (λ n. if q r then suc n else n) rest)
        ]
        | inr e ↦ rw e rest
      ])

  -- A list and the rest of a ranking that a limit cut off: nothing without a limit, and otherwise what
  -- is past the limit.
  abbrev pub IsCut : ℕ → List (SnapshotRow W) → List (SnapshotRow W) → Type 0
  IsCut limit rows rest =
      (limit ≡ 0 → rest ≡ [])
      × (0 < limit → length rows ≤ limit)
      × ((rest ≡ []) ⊎ (length rows ≡ limit))

  capped-IsCut :
      (limit : ℕ) (rows : List (SnapshotRow W))
      → (rest : List (SnapshotRow W)) × (capped limit rows ++ rest ≡ rows)
        × IsCut limit (capped limit rows) rest
  capped-IsCut limit rows = elim (Bool-cases (ltb 0 limit && ltb limit (length rows))) [
    | inl e ↦
        let over : ltb limit (length rows) ≡ true = ground arith in
        let full = length-take limit rows over in
        rw e (
          skip limit rows,
          take-skip limit rows,
          ((λ z. absurd (ground arith)), (λ z. omega (arith, full)), inr full),
        )
    | inr e ↦ rw e ([], append-nil rows, ((λ z. refl), (λ z. ground arith), inl refl))
  ]

  -- Over numbers whose order is total but for NaN, a preset returns the first rows, as many as its
  -- limit where that is above zero and else all, of a ranking: a list that holds the rows that pass
  -- its filter, or all rows where it has none, and have a metric, each as often as it was
  -- given, with none before one of a higher metric.
  pub run-IsDescending :
      (p : Preset W) (rows : List (SnapshotRow W))
      → IsTotal W
      → (rest : List (SnapshotRow W)) × IsCut p.limit (run p rows) rest
        × IsDescending p.metric (run p rows ++ rest)
        × All (λ r. num.is_nan (p.metric r) ≡ false) (run p rows ++ rest)
        × ((q : SnapshotRow W → Bool)
            → count q (run p rows ++ rest)
              ≡ count (λ r. fits p.match r && (not (num.is_nan (p.metric r)) && q r)) rows)
  unfolding run
  run-IsDescending p rows r =
      let kept = select (is_kept p) rows in
      let ranking = sort_rows p.metric kept in
      let (rest, whole, cut) = capped-IsCut p.limit ranking in
      (
        rest,
        cut,
        rw whole (sort_rows-IsDescending p.metric kept r (kept_not_nan p rows)),
        rw whole (
            sort_rows-All (λ y. num.is_nan (p.metric y) ≡ false) p.metric kept
              (kept_not_nan p rows)),
        λ q. ap (count q) whole ∙ (count-sort_rows q p.metric kept ∙ count-kept p q rows),
      )
