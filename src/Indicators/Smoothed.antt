-- ===== src/Indicators/Smoothed.antt =====
-- No lookahead of the averages, oscillators and bands: the value at a bar is made of the bars
-- before it.
use json_scanner.Base.{ℕ, suc, ◌+◌, ◌-◌, ◌≤◌, ◌<◌, ◌≡◌, refl, arith, ◌||◌, ltb, leb}
use json_scanner.Indicators.{Number, Series, Bars, ◌+f◌, ◌-f◌}
use json_scanner.Indicators.Trend.{ema}
use json_scanner.Indicators.Momentum.{
  rises, avg_gain, avg_loss, rsi, macd_line, macd_signal, macd_histogram, highest_high, lowest_low,
  raw_k, stochastic_k, stochastic_d, williams_r,
}
use json_scanner.Indicators.Window.{
  Agrees, AgreesBefore, shorter, fold_window-agree, sum-agree, unless,
}
use json_scanner.Indicators.Earlier.{sma-agree}

module _ {W : Type 0} ⦃num : Number W⦄ where
  ema-agree : (n : ℕ) (xs ys : Series W) (p i : ℕ) → Agrees i xs ys → ema n xs p i ≡ ema n ys p i
  unfolding ema
  ema-agree n xs ys p i h = unless (ltb p 1 || leb n p) _ (λ e. unless (ltb i p) _ (λ q.
      rw (sum-agree xs ys 0 p (λ j l u. h j (ground arith)))
        (fold_window-agree _ _ _ (suc p) (i - p) (λ a j l u. rw (h (j - 1) (ground arith)) refl))))

  avg_gain-agree :
      (xs ys : Series W) (p i : ℕ)
      → p ≤ i
      → Agrees (suc i) xs ys
      → avg_gain xs p i ≡ avg_gain ys p i
  unfolding avg_gain
  avg_gain-agree xs ys p i q h =
      rw
        (fold_window-agree (λ g j. rises xs j (g +f (xs j -f xs (j - 1))) g)
          (λ g j. rises ys j (g +f (ys j -f ys (j - 1))) g) (num.of_nat 0) 1 p
          (λ a j l u. rw (h j (omega arith), h (j - 1) (omega arith)) refl))
        (fold_window-agree _ _ _ (suc p) (i - p)
          (λ a j l u. rw (h j (omega arith), h (j - 1) (omega arith)) refl))

  avg_loss-agree :
      (xs ys : Series W) (p i : ℕ)
      → p ≤ i
      → Agrees (suc i) xs ys
      → avg_loss xs p i ≡ avg_loss ys p i
  unfolding avg_loss
  avg_loss-agree xs ys p i q h =
      rw
        (fold_window-agree (λ l j. rises xs j l (l -f (xs j -f xs (j - 1))))
          (λ l j. rises ys j l (l -f (ys j -f ys (j - 1)))) (num.of_nat 0) 1 p
          (λ a j l u. rw (h j (omega arith), h (j - 1) (omega arith)) refl))
        (fold_window-agree _ _ _ (suc p) (i - p)
          (λ a j l u. rw (h j (omega arith), h (j - 1) (omega arith)) refl))

  rsi-agree : (n : ℕ) (xs ys : Series W) (p i : ℕ) → Agrees i xs ys → rsi n xs p i ≡ rsi n ys p i
  unfolding rsi
  rsi-agree n xs ys p i h = unless (ltb p 1 || leb n (p + 1)) _ (λ e. unless (leb i p) _ (λ q.
      let last = λ (j : ℕ) (u : j < suc (i - 1)). h j (ground arith) in
      rw
        (
          avg_gain-agree xs ys p (i - 1) (ground arith) last,
          avg_loss-agree xs ys p (i - 1) (ground arith) last,
        )
        refl))

  macd_line-agree :
      (n : ℕ) (xs ys : Series W) (i : ℕ) → Agrees i xs ys → macd_line n xs i ≡ macd_line n ys i
  unfolding macd_line
  macd_line-agree n xs ys i h = rw (ema-agree n xs ys 12 i h, ema-agree n xs ys 26 i h) refl

  macd_signal-agree :
      (n : ℕ) (xs ys : Series W) (i : ℕ) → Agrees i xs ys → macd_signal n xs i ≡ macd_signal n ys i
  unfolding macd_signal
  macd_signal-agree n xs ys i h =
      ema-agree n (macd_line n xs) (macd_line n ys) 9 i
        (λ j u. macd_line-agree n xs ys j (λ t v. h t (omega arith)))

  macd_histogram-agree :
      (n : ℕ) (xs ys : Series W) (i : ℕ)
      → Agrees i xs ys
      → macd_histogram n xs i ≡ macd_histogram n ys i
  unfolding macd_histogram
  macd_histogram-agree n xs ys i h =
      rw (macd_line-agree n xs ys i h, macd_signal-agree n xs ys i h) refl

  highest_high-agree :
      (xs ys : Series W) (p i : ℕ)
      → 0 < p
      → p ≤ i
      → Agrees i xs ys
      → highest_high xs p i ≡ highest_high ys p i
  unfolding highest_high
  highest_high-agree xs ys p i o q h =
      rw (h (i - p) (omega arith))
        (fold_window-agree _ _ _ (suc (i - p)) (p - 1) (λ a j l u. rw (h j (omega arith)) refl))

  lowest_low-agree :
      (xs ys : Series W) (p i : ℕ)
      → 0 < p
      → p ≤ i
      → Agrees i xs ys
      → lowest_low xs p i ≡ lowest_low ys p i
  unfolding lowest_low
  lowest_low-agree xs ys p i o q h =
      rw (h (i - p) (omega arith))
        (fold_window-agree _ _ _ (suc (i - p)) (p - 1) (λ a j l u. rw (h j (omega arith)) refl))

  raw_k-agree :
      (b c : Bars W) (p i : ℕ)
      → 0 < p
      → AgreesBefore i b c
      → raw_k b.high b.low b.close p i ≡ raw_k c.high c.low c.close p i
  unfolding raw_k
  raw_k-agree b c p i o h = unless (ltb i p) _ (λ e.
      rw
        (
          highest_high-agree b.high c.high p i o (ground arith) h.high,
          lowest_low-agree b.low c.low p i o (ground arith) h.low,
          h.close (i - 1) (ground arith),
        )
        refl)

  williams_r-agree :
      (b c : Bars W) (p i : ℕ)
      → 0 < p
      → AgreesBefore i b c
      → williams_r b.high b.low b.close p i ≡ williams_r c.high c.low c.close p i
  unfolding williams_r
  williams_r-agree b c p i o h = unless (ltb i p) _ (λ e.
      rw
        (
          highest_high-agree b.high c.high p i o (ground arith) h.high,
          lowest_low-agree b.low c.low p i o (ground arith) h.low,
          h.close (i - 1) (ground arith),
        )
        refl)

  stochastic_k-agree :
      (b c : Bars W) (p s i : ℕ)
      → 0 < p
      → AgreesBefore i b c
      → stochastic_k b.high b.low b.close p s i ≡ stochastic_k c.high c.low c.close p s i
  unfolding stochastic_k
  stochastic_k-agree b c p s i o h = unless (ltb i (p + s - 1)) _ (λ e.
      rw
        (sum-agree (raw_k b.high b.low b.close p) (raw_k c.high c.low c.close p) (i - s) s
          (λ j l u. raw_k-agree b c p j o (shorter b c i j (ground arith) h)))
        refl)

  stochastic_d-agree :
      (b c : Bars W) (p d s i : ℕ)
      → 0 < p
      → AgreesBefore i b c
      → stochastic_d b.high b.low b.close p d s i ≡ stochastic_d c.high c.low c.close p d s i
  unfolding stochastic_d
  stochastic_d-agree b c p d s i o h =
      sma-agree (stochastic_k b.high b.low b.close p s) (stochastic_k c.high c.low c.close p s) d i
        (λ j u. stochastic_k-agree b c p s j o (shorter b c i j (omega arith) h))

  -- Where two symbols of one length have the same bars before bar `i`, whatever follows, the
  -- exponential average, the strength index, the three series of the convergence indicator, the
  -- stochastic pair and Williams' index at `i` are the same, for windows of at least one bar.
  pub momentum_of_earlier :
      (n : ℕ) (b c : Bars W) (p d s i : ℕ)
      → 0 < p
      → AgreesBefore i b c
      → (ema n b.close p i ≡ ema n c.close p i)
        × (rsi n b.close p i ≡ rsi n c.close p i)
        × (macd_line n b.close i ≡ macd_line n c.close i)
        × (macd_signal n b.close i ≡ macd_signal n c.close i)
        × (macd_histogram n b.close i ≡ macd_histogram n c.close i)
        × (stochastic_k b.high b.low b.close p s i ≡ stochastic_k c.high c.low c.close p s i)
        × (stochastic_d b.high b.low b.close p d s i ≡ stochastic_d c.high c.low c.close p d s i)
        × (williams_r b.high b.low b.close p i ≡ williams_r c.high c.low c.close p i)
  momentum_of_earlier n b c p d s i o h = (
    ema-agree n b.close c.close p i h.close,
    rsi-agree n b.close c.close p i h.close,
    macd_line-agree n b.close c.close i h.close,
    macd_signal-agree n b.close c.close i h.close,
    macd_histogram-agree n b.close c.close i h.close,
    stochastic_k-agree b c p s i o h,
    stochastic_d-agree b c p d s i o h,
    williams_r-agree b c p i o h,
  )
