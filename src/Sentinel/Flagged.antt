-- ===== src/Sentinel/Flagged.antt =====
-- What the gate flags (internal/sentinel/sentinel.go).
use json_scanner.Base.{
  ℕ, suc, String, if◌then◌else◌, ◌+◌, ◌≡◌, refl, ap, ◌∙◌, arith, Bool, not, ◌&&◌, true, false, List,
  [], ◌∷◌, All, count, inl, inr, Bool-cases,
}
use json_scanner.Indicators.{Number}
use json_scanner.Screen.Row.{SnapshotRow}
use json_scanner.Screen.Ranked.{IsTotal}
use json_scanner.Sentinel.Gate.{
  Severity, suspect, watch, Flag, Tier0Config, is_suspect, is_before, is_suspect_row,
  is_extreme_row, flag_of, flags_of, count_from, tier0, counts,
}
use json_scanner.Sentinel.Order.{IsRanked, IsJudged, sort_flags-IsRanked, count-sort_flags}

module _ {W : Type 0} ⦃num : Number W⦄ where
  -- A row with a three-month return that reaches the suspect threshold, on less volume than the
  -- configuration asks for.
  abbrev pub is_held_back : Tier0Config W → SnapshotRow W → Bool
  is_held_back cfg r =
      not (num.is_nan r.ret_3m)
      && (num.le cfg.suspect_ret r.ret_3m && num.lt r.dollar_vol cfg.thin_dollar_vol)

  -- A row that is not, and whose return reaches the extreme threshold.
  abbrev pub is_to_verify : Tier0Config W → SnapshotRow W → Bool
  is_to_verify cfg r =
      not (num.is_nan r.ret_3m)
      && (not (num.le cfg.suspect_ret r.ret_3m && num.lt r.dollar_vol cfg.thin_dollar_vol)
          && num.le cfg.extreme_ret r.ret_3m)

  -- A flag may stand before another only if it is no less severe and, of the same severity, has no
  -- lower a return.
  abbrev pub MayPrecede : Flag W → Flag W → Type 0
  MayPrecede x y =
      (x.severity ≡ watch → y.severity ≡ watch)
      × (x.severity ≡ y.severity → num.lt x.ret_3m y.ret_3m ≡ false)

  abbrev pub IsInOrder : List (Flag W) → Type 0
  IsInOrder [] = Unit
  IsInOrder (x ∷ xs) = All (MayPrecede x) xs × IsInOrder xs

  before-MayPrecede : (x y : Flag W) → is_before y x ≡ false → MayPrecede x y
  before-MayPrecede x y h = by_severity x.severity y.severity refl refl h
    where
      by_severity :
          (s t : Severity)
          → x.severity ≡ s
          → y.severity ≡ t
          → is_before (record y { severity = t }) (record x { severity = s }) ≡ false
          → MayPrecede x y
      by_severity suspect suspect p q g = (λ w. absurd (cc), λ e. g)
      by_severity watch watch p q g = (λ w. q, λ e. g)
      by_severity suspect watch p q g = (λ w. absurd (cc), λ e. absurd (cc))
      by_severity watch suspect p q g = absurd (cc)

  IsRanked-IsInOrder : (flags : List (Flag W)) → IsRanked flags → IsInOrder flags
  IsRanked-IsInOrder [] h = tt
  IsRanked-IsInOrder (x ∷ xs) h = (each xs h.0, IsRanked-IsInOrder xs h.1)
    where
      each : (ys : List (Flag W)) → All (λ y. is_before y x ≡ false) ys → All (MayPrecede x) ys
      each [] g = tt
      each (y ∷ ys) g = (before-MayPrecede x y g.0, each ys g.1)

  -- The flags whose symbol, severity, return and volume pass a test.
  abbrev pub passing : (String → Severity → W → W → Bool) → Flag W → Bool
  passing q f = q f.symbol f.severity f.ret_3m f.dollar_vol

  flags_of-rows :
      (cfg : Tier0Config W) (q : String → Severity → W → W → Bool) (rows : List (SnapshotRow W))
      → count (passing q) (flags_of cfg rows)
        ≡ count (λ r. is_held_back cfg r && q r.symbol suspect r.ret_3m r.dollar_vol) rows
          + count (λ r. is_to_verify cfg r && q r.symbol watch r.ret_3m r.dollar_vol) rows
  unfolding flags_of flag_of
  flags_of-rows cfg q [] = omega arith
  flags_of-rows cfg q (r ∷ rows) =
      let rest = flags_of-rows cfg q rows in
      elim (Bool-cases (num.is_nan r.ret_3m)) [
        | inl e ↦ rw e rest
        | inr e ↦ elim (Bool-cases (is_suspect_row cfg r)) [
          | inl f ↦ rw (e, f) (more (q r.symbol suspect r.ret_3m r.dollar_vol) _ _ _ rest)
          | inr f ↦ elim (Bool-cases (is_extreme_row cfg r)) [
            | inl g ↦ rw (e, f, g) (other (q r.symbol watch r.ret_3m r.dollar_vol) _ _ _ rest)
            | inr g ↦ rw (e, f, g) rest
          ]
        ]
      ]
    where
      more :
          (b : Bool) (k m n : ℕ)
          → k ≡ m + n
          → (if b then suc k else k) ≡ (if b then suc m else m) + n
      more true k m n h = omega (arith, h)
      more false k m n h = h

      other :
          (b : Bool) (k m n : ℕ)
          → k ≡ m + n
          → (if b then suc k else k) ≡ m + (if b then suc n else n)
      other true k m n h = omega (arith, h)
      other false k m n h = h

  flags_of-IsJudged :
      (cfg : Tier0Config W) (rows : List (SnapshotRow W)) → All IsJudged (flags_of cfg rows)
  unfolding flags_of flag_of
  flags_of-IsJudged cfg [] = tt
  flags_of-IsJudged cfg (r ∷ rows) =
      let rest = flags_of-IsJudged cfg rows in
      elim (Bool-cases (num.is_nan r.ret_3m)) [
        | inl e ↦ rw e rest
        | inr e ↦ elim (Bool-cases (is_suspect_row cfg r)) [
          | inl f ↦ rw (e, f) (e, rest)
          | inr f ↦ elim (Bool-cases (is_extreme_row cfg r)) [
            | inl g ↦ rw (e, f, g) (e, rest)
            | inr g ↦ rw (e, f, g) rest
          ]
        ]
      ]

  flags_of-counts :
      (cfg : Tier0Config W) (rows : List (SnapshotRow W))
      → (count (λ f. is_suspect f.severity) (flags_of cfg rows) ≡ count (is_held_back cfg) rows)
        × (count (λ f. not (is_suspect f.severity)) (flags_of cfg rows)
            ≡ count (is_to_verify cfg) rows)
  unfolding flags_of flag_of
  flags_of-counts cfg [] = (refl, refl)
  flags_of-counts cfg (r ∷ rows) =
      let rest = flags_of-counts cfg rows in
      elim (Bool-cases (num.is_nan r.ret_3m)) [
        | inl e ↦ rw e rest
        | inr e ↦ elim (Bool-cases (is_suspect_row cfg r)) [
          | inl f ↦ rw (e, f) (rw rest.0 refl, rest.1)
          | inr f ↦ elim (Bool-cases (is_extreme_row cfg r)) [
            | inl g ↦ rw (e, f, g) (rest.0, rw rest.1 refl)
            | inr g ↦ rw (e, f, g) rest
          ]
        ]
      ]

  count_from_lem :
      (flags : List (Flag W)) (s w : ℕ)
      → count_from flags (s, w) ≡ (
        s + count (λ f. is_suspect f.severity) flags,
        w + count (λ f. not (is_suspect f.severity)) flags,
      )
  count_from_lem [] s w = rw (add_nought s, add_nought w) refl
    where
      add_nought : (n : ℕ) → n + 0 ≡ n
      add_nought n = omega arith
  count_from_lem (f ∷ flags) s w = by_severity (λ a b. count_from_lem flags a b) f.severity
    where
      add_suc : (m n : ℕ) → suc m + n ≡ m + suc n
      add_suc m n = omega arith

      by_severity :
          ((a b : ℕ)
            → count_from flags (a, b) ≡ (
              a + count (λ g. is_suspect g.severity) flags,
              b + count (λ g. not (is_suspect g.severity)) flags,
            ))
          → (t : Severity)
          → count_from (record f { severity = t } ∷ flags) (s, w) ≡ (
            s + count (λ g. is_suspect g.severity) (record f { severity = t } ∷ flags),
            w + count (λ g. not (is_suspect g.severity)) (record f { severity = t } ∷ flags),
          )
      by_severity ih suspect =
          ih (suc s) w
          ∙ ap (λ n. (n, w + count (λ g. not (is_suspect g.severity)) flags))
              (add_suc s (count (λ g. is_suspect g.severity) flags))
      by_severity ih watch =
          ih s (suc w)
          ∙ ap (λ n. (s + count (λ g. is_suspect g.severity) flags, n))
              (add_suc w (count (λ g. not (is_suspect g.severity)) flags))

  -- Over numbers whose order is total but for NaN, no flag of the gate stands before a more severe
  -- one, or before one of its severity with a higher return; the flags are one of severity suspect
  -- for each row with a three-month return that reaches the suspect threshold on thin volume, and one
  -- of severity watch for each other row with such a return that reaches the extreme threshold,
  -- with the row's symbol, return and volume; and `Counts` of them is the numbers of these rows.
  pub tier0-IsInOrder :
      (rows : List (SnapshotRow W)) (cfg : Tier0Config W)
      → IsTotal W
      → IsInOrder (tier0 rows cfg)
        × ((q : String → Severity → W → W → Bool)
            → count (passing q) (tier0 rows cfg)
              ≡ count (λ r. is_held_back cfg r && q r.symbol suspect r.ret_3m r.dollar_vol) rows
                + count (λ r. is_to_verify cfg r && q r.symbol watch r.ret_3m r.dollar_vol) rows)
        × (counts (tier0 rows cfg) ≡ (count (is_held_back cfg) rows, count (is_to_verify cfg) rows))
  unfolding tier0 counts
  tier0-IsInOrder rows cfg r =
      let flags = flags_of cfg rows in
      let n = flags_of-counts cfg rows in
      (
        IsRanked-IsInOrder (tier0 rows cfg)
            (sort_flags-IsRanked flags r (flags_of-IsJudged cfg rows)),
        λ q. count-sort_flags (passing q) flags ∙ flags_of-rows cfg q rows,
        count_from_lem (tier0 rows cfg) 0 0
            ∙ rw
                (
                  count-sort_flags (λ f. is_suspect f.severity) flags,
                  count-sort_flags (λ f. not (is_suspect f.severity)) flags,
                  n.0,
                  n.1,
                  nought_add (count (is_held_back cfg) rows),
                  nought_add (count (is_to_verify cfg) rows),
                )
                refl,
      )
    where
      nought_add : (n : ℕ) → 0 + n ≡ n
      nought_add n = omega arith
