-- ===== src/Indicators/Traded.antt =====
-- No lookahead of the indicators of volume: the value at a bar is made of the
-- bars before it.
use json_scanner.Base.{ℕ, ◌+◌, ◌-◌, ◌<◌, ◌≡◌, refl, ap, arith, false, ltb}
use json_scanner.Indicators.{Number, Bars, sum, ◌*f◌}
use json_scanner.Indicators.Volume.{
  dollar_vol, avg_dollar_vol, rel_volume, obv, typical_price, vwap, up_flow, down_flow, mfi,
}
use json_scanner.Indicators.Window.{
  Agrees, AgreesBefore, shorter, fold_window-agree, sum-agree, unless,
}

module _ {W : Type 0} ⦃num : Number W⦄ where
  dollar_vol-agree :
      (b c : Bars W) (i : ℕ)
      → AgreesBefore i b c
      → dollar_vol b.close b.volume i ≡ dollar_vol c.close c.volume i
  unfolding dollar_vol
  dollar_vol-agree b c i h =
      unless (ltb i 1) _
        (λ e. rw (h.close (i - 1) (ground arith), h.volume (i - 1) (ground arith)) refl)

  avg_dollar_vol-agree :
      (b c : Bars W) (p i : ℕ)
      → AgreesBefore i b c
      → avg_dollar_vol b.close b.volume p i ≡ avg_dollar_vol c.close c.volume p i
  unfolding avg_dollar_vol
  avg_dollar_vol-agree b c p i h = unless (ltb i p) _ (λ e.
      rw
        (sum-agree (dollar_vol b.close b.volume) (dollar_vol c.close c.volume) (i - p) p
          (λ j l u. dollar_vol-agree b c j (shorter b c i j (ground arith) h)))
        refl)

  volumes-agree :
      (b c : Bars W) (p i : ℕ)
      → ltb i p ≡ false
      → Agrees i b.volume c.volume
      → sum (λ j. num.of_int (b.volume j)) (i - p) p ≡ sum (λ j. num.of_int (c.volume j)) (i - p) p
  volumes-agree b c p i e h = sum-agree _ _ (i - p) p (λ j l u. ap num.of_int (h j (ground arith)))

  rel_volume-agree :
      (b c : Bars W) (p i : ℕ)
      → AgreesBefore i b c
      → ◌≡◌ {A = W} (rel_volume b.volume p i) (rel_volume c.volume p i)
  unfolding rel_volume
  rel_volume-agree b c p i h = unless (ltb i (p + 1)) _ (λ e.
      rw (volumes-agree b c p i (ground arith) h.volume, h.volume (i - 1) (ground arith)) refl)

  obv-agree :
      (n : ℕ) (b c : Bars W) (i : ℕ)
      → AgreesBefore i b c
      → obv n b.close b.volume i ≡ obv n c.close c.volume i
  unfolding obv
  obv-agree n b c i h = unless (ltb n 2) _ (λ e. fold_window-agree _ _ _ 2 (i - 1) (λ a j l u.
      rw
        (
          h.close (j - 1) (omega arith),
          h.close (j - 2) (omega arith),
          h.volume (j - 1) (omega arith),
        )
        refl))

  pub typical_price-agree :
      (b c : Bars W) (i j : ℕ)
      → AgreesBefore i b c
      → j < i
      → typical_price b.high b.low b.close j ≡ typical_price c.high c.low c.close j
  unfolding typical_price
  typical_price-agree b c i j h q = rw (h.high j q, h.low j q, h.close j q) refl

  vwap-agree :
      (b c : Bars W) (p i : ℕ)
      → AgreesBefore i b c
      → vwap b.high b.low b.close b.volume p i ≡ vwap c.high c.low c.close c.volume p i
  unfolding vwap
  vwap-agree b c p i h = unless (ltb i p) _ (λ e.
      rw
        (
          volumes-agree b c p i e h.volume,
          sum-agree (λ j. typical_price b.high b.low b.close j *f num.of_int (b.volume j))
              (λ j. typical_price c.high c.low c.close j *f num.of_int (c.volume j)) (i - p) p
              (λ j l u.
                rw (typical_price-agree b c i j h (ground arith), h.volume j (ground arith)) refl),
        )
        refl)

  mfi-agree :
      (n : ℕ) (b c : Bars W) (p i : ℕ)
      → AgreesBefore i b c
      → mfi n b.high b.low b.close b.volume p i ≡ mfi n c.high c.low c.close c.volume p i
  unfolding mfi
  mfi-agree n b c p i h = unless (ltb n (p + 1)) _ (λ e. unless (ltb i (p + 1)) _ (λ q.
      let tp = λ (j : ℕ) (u : j < i). typical_price-agree b c i j h u in
      rw
        (
          fold_window-agree
              (up_flow (typical_price b.high b.low b.close)
                (λ j. typical_price b.high b.low b.close j *f num.of_int (b.volume j)))
              (up_flow (typical_price c.high c.low c.close)
                (λ j. typical_price c.high c.low c.close j *f num.of_int (c.volume j)))
              (num.of_nat 0) (i - p) p
              (λ a j l u.
                rw (tp j (ground arith), tp (j - 1) (ground arith), h.volume j (ground arith))
                  refl),
          fold_window-agree
              (down_flow (typical_price b.high b.low b.close)
                (λ j. typical_price b.high b.low b.close j *f num.of_int (b.volume j)))
              (down_flow (typical_price c.high c.low c.close)
                (λ j. typical_price c.high c.low c.close j *f num.of_int (c.volume j)))
              (num.of_nat 0) (i - p) p
              (λ a j l u.
                rw (tp j (ground arith), tp (j - 1) (ground arith), h.volume j (ground arith))
                  refl),
        )
        refl))

  -- Where two symbols have the same bars before bar `i`, whatever follows, their dollar volume, its
  -- average, the relative and the on-balance volume, the weighted price and the flow index at `i`
  -- are the same.
  pub volume_of_earlier :
      (n : ℕ) (b c : Bars W) (p i : ℕ)
      → AgreesBefore i b c
      → (dollar_vol b.close b.volume i ≡ dollar_vol c.close c.volume i)
        × (avg_dollar_vol b.close b.volume p i ≡ avg_dollar_vol c.close c.volume p i)
        × ◌≡◌ {A = W} (rel_volume b.volume p i) (rel_volume c.volume p i)
        × (obv n b.close b.volume i ≡ obv n c.close c.volume i)
        × (vwap b.high b.low b.close b.volume p i ≡ vwap c.high c.low c.close c.volume p i)
        × (mfi n b.high b.low b.close b.volume p i ≡ mfi n c.high c.low c.close c.volume p i)
  volume_of_earlier n b c p i h = (
    dollar_vol-agree b c i h,
    avg_dollar_vol-agree b c p i h,
    rel_volume-agree b c p i h,
    obv-agree n b c i h,
    vwap-agree b c p i h,
    mfi-agree n b c p i h,
  )
