-- ===== src/Indicators/Extremes.antt =====
-- What the rolling extremes and Aroon's bars are: the highest and the lowest of the window.
use json_scanner.Base.{
  ℕ, zero, suc, ◌+◌, ◌-◌, ◌≤◌, ◌<◌, ◌≡◌, refl, ◌∙◌, ◌⊎◌, inl, inr, arith, Bool, true, false, ltb,
  if◌then◌else◌, Bool-cases,
}
use json_scanner.Indicators.{Number, Series, fold_window}
use json_scanner.Indicators.Price.{extreme, rolling_extreme, rolling_high, rolling_low}
use json_scanner.Indicators.Trend.{highest, lowest}
use json_scanner.Indicators.Window.{fold_window-agree, fold_window-keeps}

-- The order of the numbers, NaN included.
pub record IsOrdered (W : Type 0) ⦃num : Number W⦄ : Type 0 where
  pub lt_irrefl : (x : W) → num.lt x x ≡ false
  pub lt_trans : (x y z : W) → num.lt x y ≡ true → num.lt y z ≡ true → num.lt x z ≡ true

-- The index that a loop keeps of a better value.
pick : {W : Type 0} → (W → W → Bool) → Series W → ℕ → ℕ → ℕ → ℕ
pick worse xs a lo k = fold_window (λ h j. if worse (xs h) (xs j) then j else h) a lo k

value_of_pick :
    {W : Type 0} (worse : W → W → Bool) (xs : Series W) (a lo k : ℕ)
    → fold_window (λ e j. if worse e (xs j) then xs j else e) (xs a) lo k
      ≡ xs (pick worse xs a lo k)
unfolding pick fold_window
value_of_pick worse xs a lo zero = refl
value_of_pick worse xs a lo (suc k) = elim (Bool-cases (worse (xs a) (xs lo))) [
  | inl e ↦ rw e (value_of_pick worse xs lo (suc lo) k)
  | inr e ↦ rw e (value_of_pick worse xs a (suc lo) k)
]

-- The best of the bars seen, and one of them.
record IsBest {W : Type 0} (worse : W → W → Bool) (xs : Series W) (a lo c h : ℕ) : Type 0 where
  start : worse (xs h) (xs a) ≡ false
  seen : (j : ℕ) → lo ≤ j → j < c → worse (xs h) (xs j) ≡ false
  place : (h ≡ a) ⊎ ((lo ≤ h) × (h < c))

module _ {W : Type 0} (worse : W → W → Bool) (irrefl : (x : W) → worse x x ≡ false)
    (trans : (x y z : W) → worse x y ≡ true → worse y z ≡ true → worse x z ≡ true) where
  not_worse : (x y z : W) → worse x y ≡ true → worse x z ≡ false → worse y z ≡ false
  not_worse x y z p q = elim (Bool-cases (worse y z)) [
    | inl e ↦ absurd (let t = trans x y z p e in cc)
    | inr e ↦ e
  ]

  IsBest-step :
      (xs : Series W) (a lo c h : ℕ)
      → lo ≤ c
      → IsBest worse xs a lo c h
      → IsBest worse xs a lo (suc c) (if worse (xs h) (xs c) then c else h)
  IsBest-step xs a lo c h l best = elim (Bool-cases (worse (xs h) (xs c))) [
    | inl e ↦ rw e (record {
      start = not_worse (xs h) (xs c) (xs a) e best.start;
      seen = λ j p q. elim (Bool-cases (ltb j c)) [
        | inl t ↦ not_worse (xs h) (xs c) (xs j) e (best.seen j p (ground arith))
        | inr t ↦ let same : j ≡ c = ground arith in rw same (irrefl (xs c))
      ];
      place = inr (l, omega arith);
    })
    | inr e ↦ rw e (record {
      start = best.start;
      seen = λ j p q. elim (Bool-cases (ltb j c)) [
        | inl t ↦ best.seen j p (ground arith)
        | inr t ↦ let same : j ≡ c = ground arith in rw same e
      ];
      place = elim best.place [ inl t ↦ inl t | inr t ↦ inr (t.0, omega (arith, t.1)) ];
    })
  ]

  pick-IsBest : (xs : Series W) (a lo k : ℕ) → IsBest worse xs a lo (lo + k) (pick worse xs a lo k)
  unfolding pick
  pick-IsBest xs a lo k =
      fold_window-keeps (IsBest worse xs a lo) _ a lo k
        (record { start = irrefl (xs a); seen = λ j p q. absurd (omega arith); place = inl refl })
        (λ h j best l u. IsBest-step xs a lo j h l best)

-- The value stands in the window from `lo` to before `hi`, and none there is better.
pub record StandsOut {W : Type 0} (worse : W → W → Bool) (vals : Series W) (lo hi : ℕ) (x : W)
    : Type 0 where
  pub index : ℕ
  pub above : lo ≤ index
  pub below : index < hi
  pub value : x ≡ vals index
  pub best : (j : ℕ) → lo ≤ j → j < hi → worse x (vals j) ≡ false

module _ {W : Type 0} ⦃num : Number W⦄ where
  extreme-true : (e v : W) → extreme true e v ≡ (if num.lt e v then v else e)
  extreme-true e v = elim (Bool-cases (num.lt e v)) [ inl q ↦ rw q refl | inr q ↦ rw q refl ]

  rolling_high-pick :
      (vals : Series W) (p i : ℕ)
      → 0 < p
      → p ≤ i
      → rolling_high vals p i ≡ vals (pick num.lt vals (i - p) (suc (i - p)) (p - 1))
  unfolding rolling_high rolling_extreme
  rolling_high-pick vals p i o q =
      let e : ltb p 1 ≡ false = ground arith in
      let f : ltb i p ≡ false = ground arith in
      rw (e, f)
        (fold_window-agree _ _ _ _ _ (λ a j l u. extreme-true a (vals j))
          ∙ value_of_pick num.lt vals (i - p) (suc (i - p)) (p - 1))

  rolling_low-pick :
      (vals : Series W) (p i : ℕ)
      → 0 < p
      → p ≤ i
      → rolling_low vals p i ≡ vals (pick (λ x y. num.lt y x) vals (i - p) (suc (i - p)) (p - 1))
  unfolding rolling_low rolling_extreme
  rolling_low-pick vals p i o q =
      let e : ltb p 1 ≡ false = ground arith in
      let f : ltb i p ≡ false = ground arith in
      rw (e, f) (value_of_pick (λ x y. num.lt y x) vals (i - p) (suc (i - p)) (p - 1))

  trailing-StandsOut :
      (worse : W → W → Bool) (vals : Series W) (p i h : ℕ)
      → 0 < p
      → p ≤ i
      → IsBest worse vals (i - p) (suc (i - p)) (suc (i - p) + (p - 1)) h
      → StandsOut worse vals (i - p) i (vals h)
  trailing-StandsOut worse vals p i h o q best = record {
    index = h;
    above = elim best.place [ inl e ↦ omega (arith, e) | inr t ↦ omega (arith, t.0) ];
    below = elim best.place [ inl e ↦ omega (arith, e) | inr t ↦ omega (arith, t.1) ];
    value = refl;
    best = λ j l u. elim (Bool-cases (ltb (i - p) j)) [
      | inl t ↦ best.seen j (ground arith) (omega arith)
      | inr t ↦ let same : j ≡ i - p = ground arith in rw same best.start
    ];
  }

  -- Over numbers in order, once `period` bars have passed, the rolling high is the value of one of
  -- the `period` bars before the bar, and no value among them is above it; and the rolling low is
  -- one of their values, and none is below it.
  pub rolling-StandsOut :
      (vals : Series W) (period i : ℕ)
      → IsOrdered W
      → 0 < period
      → period ≤ i
      → StandsOut num.lt vals (i - period) i (rolling_high vals period i)
        × StandsOut (λ x y. num.lt y x) vals (i - period) i (rolling_low vals period i)
  rolling-StandsOut vals p i r o q = (
    rw (rolling_high-pick vals p i o q) (
        trailing-StandsOut num.lt vals p i _ o q
          (pick-IsBest num.lt r.lt_irrefl r.lt_trans vals (i - p) (suc (i - p)) (p - 1))),
    rw (rolling_low-pick vals p i o q) (
        trailing-StandsOut (λ x y. num.lt y x) vals p i _ o q
          (pick-IsBest (λ x y. num.lt y x) r.lt_irrefl (λ x y z s t. r.lt_trans z y x t s) vals
            (i - p) (suc (i - p)) (p - 1))),
  )

  at_present-StandsOut :
      (worse : W → W → Bool) (vals : Series W) (p i h : ℕ)
      → p ≤ i
      → IsBest worse vals i (i - p) (i - p + p) h
      → StandsOut worse vals (i - p) (suc i) (vals h) × (i - p ≤ h) × (h ≤ i)
  at_present-StandsOut worse vals p i h q best =
      let low : i - p ≤ h = elim best.place [
        | inl e ↦ omega (arith, e)
        | inr t ↦ omega (arith, t.0)
      ] in
      let high : h ≤ i = elim best.place [
        | inl e ↦ omega (arith, e)
        | inr t ↦ omega (arith, t.1)
      ] in
      (
        record {
          index = h;
          above = low;
          below = omega arith;
          value = refl;
          best = λ j l u. elim (Bool-cases (ltb j i)) [
            | inl t ↦ best.seen j l (ground arith)
            | inr t ↦ let same : j ≡ i = ground arith in rw same best.start
          ];
        },
        low,
        high,
      )

  -- Over numbers in order, the bars that Aroon counts from lie in the window of the bar and the
  -- `period` bars before it, no high there is above the one's and no low below the other's.
  pub aroon-StandsOut :
      (highs lows : Series W) (period i : ℕ)
      → IsOrdered W
      → period ≤ i
      → (StandsOut num.lt highs (i - period) (suc i) (highs (highest highs period i))
          × (i - period ≤ highest highs period i)
          × (highest highs period i ≤ i))
        × (StandsOut (λ x y. num.lt y x) lows (i - period) (suc i) (lows (lowest lows period i))
            × (i - period ≤ lowest lows period i)
            × (lowest lows period i ≤ i))
  unfolding highest lowest
  aroon-StandsOut highs lows p i r q = (
    at_present-StandsOut num.lt highs p i _ q
        (unfold pick in pick-IsBest num.lt r.lt_irrefl r.lt_trans highs i (i - p) p),
    at_present-StandsOut (λ x y. num.lt y x) lows p i _ q
        (unfold pick in
          pick-IsBest (λ x y. num.lt y x) r.lt_irrefl (λ x y z s t. r.lt_trans z y x t s) lows i
            (i - p) p),
  )
