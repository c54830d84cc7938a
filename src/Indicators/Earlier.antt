-- ===== src/Indicators/Earlier.antt =====
-- No lookahead of the indicators of price and returns: the value at a bar is made of the
-- bars before it.
use json_scanner.Base.{
  ℕ, suc, ◌+◌, ◌-◌, ◌≡◌, refl, inl, inr, arith, Bool, true, false, ltb, leb, Bool-cases,
}
use json_scanner.Indicators.{Number, Series, Bars}
use json_scanner.Indicators.Price.{rolling_extreme, rolling_high, rolling_low, gap_pct, true_range}
use json_scanner.Indicators.Returns.{return_, return_pct}
use json_scanner.Indicators.Trend.{sma}
use json_scanner.Indicators.Momentum.{roc}
use json_scanner.Indicators.Window.{Agrees, AgreesBefore, fold_window-agree, sum-agree, unless}

module _ {W : Type 0} ⦃num : Number W⦄ where
  rolling_extreme-agree :
      (xs ys : Series W) (p : ℕ) (high : Bool) (i : ℕ)
      → Agrees i xs ys
      → rolling_extreme xs p high i ≡ rolling_extreme ys p high i
  unfolding rolling_extreme
  rolling_extreme-agree xs ys p high i h = unless (ltb p 1) _ (λ e. unless (ltb i p) _ (λ q.
      rw (h (i - p) (ground arith))
        (fold_window-agree _ _ _ (suc (i - p)) (p - 1) (λ a j l u. rw (h j (ground arith)) refl))))

  pub sma-agree : (xs ys : Series W) (p i : ℕ) → Agrees i xs ys → sma xs p i ≡ sma ys p i
  unfolding sma
  sma-agree xs ys p i h = unless (ltb p 1) _ (λ e.
      unless (ltb i p) _ (λ q. rw (sum-agree xs ys (i - p) p (λ j l u. h j (ground arith))) refl))

  gap_pct-agree :
      (os os' xs ys : Series W) (i : ℕ)
      → Agrees i os os'
      → Agrees i xs ys
      → gap_pct os xs i ≡ gap_pct os' ys i
  unfolding gap_pct
  gap_pct-agree os os' xs ys i o h = elim (Bool-cases (ltb i 2)) [
    | inl e ↦ rw e refl
    | inr e ↦ rw (e, o (i - 1) (ground arith), h (i - 2) (ground arith)) refl
  ]

  true_range-agree :
      (b c : Bars W) (i : ℕ)
      → AgreesBefore i b c
      → true_range b.high b.low b.close i ≡ true_range c.high c.low c.close i
  unfolding true_range
  true_range-agree b c i h = unless (ltb i 2) _ (λ e.
      rw
        (
          h.high (i - 1) (ground arith),
          h.low (i - 1) (ground arith),
          h.close (i - 2) (ground arith),
        )
        refl)

  return_-agree : (xs ys : Series W) (k i : ℕ) → Agrees i xs ys → return_ xs k i ≡ return_ ys k i
  unfolding return_
  return_-agree xs ys k i h = elim (Bool-cases (ltb i (k + 1))) [
    | inl e ↦ rw e refl
    | inr e ↦ rw (e, h (i - 1) (ground arith), h (i - 1 - k) (ground arith)) refl
  ]

  return_pct-agree :
      (xs ys : Series W) (k i : ℕ) → Agrees i xs ys → return_pct xs k i ≡ return_pct ys k i
  unfolding return_pct
  return_pct-agree xs ys k i h = rw (return_-agree xs ys k i h) refl

  roc-agree : (xs ys : Series W) (k i : ℕ) → Agrees i xs ys → roc xs k i ≡ roc ys k i
  unfolding roc
  roc-agree xs ys k i h =
      unless (leb i k) _ (λ e. rw (h (i - 1) (ground arith), h (i - 1 - k) (ground arith)) refl)

  -- Where two symbols have the same bars before bar `i`, whatever follows, the rolling extremes, the
  -- gap, the true range, the returns, the rate of change and the moving average at `i` are the same.
  pub price_of_earlier :
      (b c : Bars W) (p i : ℕ)
      → AgreesBefore i b c
      → (rolling_high b.high p i ≡ rolling_high c.high p i)
        × (rolling_low b.low p i ≡ rolling_low c.low p i)
        × (gap_pct b.open_ b.close i ≡ gap_pct c.open_ c.close i)
        × (true_range b.high b.low b.close i ≡ true_range c.high c.low c.close i)
        × (return_pct b.close p i ≡ return_pct c.close p i)
        × (roc b.close p i ≡ roc c.close p i)
        × (sma b.close p i ≡ sma c.close p i)
  unfolding rolling_high rolling_low
  price_of_earlier b c p i h = (
    rolling_extreme-agree b.high c.high p true i h.high,
    rolling_extreme-agree b.low c.low p false i h.low,
    gap_pct-agree b.open_ c.open_ b.close c.close i h.open_ h.close,
    true_range-agree b c i h,
    return_pct-agree b.close c.close p i h.close,
    roc-agree b.close c.close p i h.close,
    sma-agree b.close c.close p i h.close,
  )
