-- ===== src/Indicators/Bands.antt =====
-- No lookahead of the bands, the volatility and the channel index, and of `ADX`.
use json_scanner.Base.{ℕ, ◌-◌, ◌≤◌, ◌<◌, ◌≡◌, refl, ap, arith, ltb, leb}
use json_scanner.Indicators.{Number, Series, Bars, fold_window, sum, ◌-f◌, ◌*f◌, ◌/f◌}
use json_scanner.Indicators.Volatility.{
  bb_middle, bb_upper, bb_lower, bb_width, bb_pct_b, std_dev, log_return, known, add_known,
  historical_vol,
}
use json_scanner.Indicators.Volume.{typical_price}
use json_scanner.Indicators.Momentum.{cci}
use json_scanner.Indicators.Directional.{adx}
use json_scanner.Indicators.Directed.{adx-agree}
use json_scanner.Indicators.Window.{Agrees, AgreesBefore, fold_window-agree, sum-agree, unless}
use json_scanner.Indicators.Traded.{typical_price-agree}

module _ {W : Type 0} ⦃num : Number W⦄ where
  bb_middle-agree :
      (xs ys : Series W) (p i : ℕ) → Agrees i xs ys → bb_middle xs p i ≡ bb_middle ys p i
  unfolding bb_middle
  bb_middle-agree xs ys p i h =
      unless (ltb i p) _ (λ e. rw (sum-agree xs ys (i - p) p (λ j l u. h j (ground arith))) refl)

  std_dev-agree :
      (xs ys : Series W) (p i : ℕ) → p ≤ i → Agrees i xs ys → std_dev xs p i ≡ std_dev ys p i
  unfolding std_dev
  std_dev-agree xs ys p i q h =
      ap (λ (t : W). num.sqrt (t /f num.of_nat p))
        (fold_window-agree _ _ _ (i - p) p
          (λ a j l u. rw (bb_middle-agree xs ys p i h, h j (omega arith)) refl))

  bb_upper-agree :
      (xs ys : Series W) (p : ℕ) (m : W) (i : ℕ)
      → Agrees i xs ys
      → bb_upper xs p m i ≡ bb_upper ys p m i
  unfolding bb_upper
  bb_upper-agree xs ys p m i h =
      unless (ltb i p) _
        (λ e. rw (bb_middle-agree xs ys p i h, std_dev-agree xs ys p i (ground arith) h) refl)

  bb_lower-agree :
      (xs ys : Series W) (p : ℕ) (m : W) (i : ℕ)
      → Agrees i xs ys
      → bb_lower xs p m i ≡ bb_lower ys p m i
  unfolding bb_lower
  bb_lower-agree xs ys p m i h =
      unless (ltb i p) _
        (λ e. rw (bb_middle-agree xs ys p i h, std_dev-agree xs ys p i (ground arith) h) refl)

  bb_width-agree :
      (xs ys : Series W) (p : ℕ) (m : W) (i : ℕ)
      → Agrees i xs ys
      → bb_width xs p m i ≡ bb_width ys p m i
  unfolding bb_width
  bb_width-agree xs ys p m i h =
      rw (bb_upper-agree xs ys p m i h, bb_lower-agree xs ys p m i h, bb_middle-agree xs ys p i h)
        refl

  bb_pct_b-agree :
      (xs ys : Series W) (p : ℕ) (m : W) (i : ℕ)
      → 0 < i
      → Agrees i xs ys
      → bb_pct_b xs p m i ≡ bb_pct_b ys p m i
  unfolding bb_pct_b
  bb_pct_b-agree xs ys p m i o h =
      rw (bb_upper-agree xs ys p m i h, bb_lower-agree xs ys p m i h, h (i - 1) (omega arith)) refl

  log_return-agree :
      (xs ys : Series W) (i j : ℕ) → j < i → Agrees i xs ys → log_return xs j ≡ log_return ys j
  unfolding log_return
  log_return-agree xs ys i j u h = rw (h j u, h (j - 1) (omega arith)) refl

  known-agree :
      (xs ys : Series W) (p i : ℕ)
      → p ≤ i
      → Agrees i xs ys
      → known xs (i - p) p ≡ known ys (i - p) p
  unfolding known
  known-agree xs ys p i q h =
      fold_window-agree _ _ _ (i - p) p (λ a j l u. rw (h j (omega arith)) refl)

  totals-agree :
      (xs ys : Series W) (f : W → W) (p i : ℕ)
      → p ≤ i
      → Agrees i xs ys
      → fold_window (λ acc j. add_known (xs j) (f (xs j)) acc) (num.of_nat 0) (i - p) p
        ≡ fold_window (λ acc j. add_known (ys j) (f (ys j)) acc) (num.of_nat 0) (i - p) p
  totals-agree xs ys f p i q h =
      fold_window-agree _ _ _ (i - p) p (λ a j l u. rw (h j (omega arith)) refl)

  historical_vol-agree :
      (xs ys : Series W) (p i : ℕ) → Agrees i xs ys → historical_vol xs p i ≡ historical_vol ys p i
  unfolding historical_vol
  historical_vol-agree xs ys p i h =
      let same = λ (j : ℕ) (u : j < i). log_return-agree xs ys i j u h in
      unless (leb i p) _ (λ e.
        rw
          (
            known-agree (log_return xs) (log_return ys) p i (ground arith) same,
            totals-agree (log_return xs) (log_return ys) (λ x. x) p i (ground arith) same,
          )
          (rw
            (totals-agree (log_return xs) (log_return ys)
              (λ x.
                (x
                  -f fold_window (λ acc j. add_known (log_return ys j) (log_return ys j) acc)
                      (num.of_nat 0) (i - p) p
                    /f num.of_nat (known (log_return ys) (i - p) p))
                *f (x
                    -f fold_window (λ acc j. add_known (log_return ys j) (log_return ys j) acc)
                        (num.of_nat 0) (i - p) p
                      /f num.of_nat (known (log_return ys) (i - p) p)))
              p i (ground arith) same)
            refl))

  cci-agree :
      (b c : Bars W) (p i : ℕ)
      → 0 < p
      → AgreesBefore i b c
      → cci b.high b.low b.close p i ≡ cci c.high c.low c.close p i
  unfolding cci
  cci-agree b c p i o h =
      let tb = typical_price b.high b.low b.close in
      let tc = typical_price c.high c.low c.close in
      let same = λ (j : ℕ) (u : j < i). typical_price-agree b c i j h u in
      unless (ltb i p) _ (λ e.
        rw (sum-agree tb tc (i - p) p (λ j l u. same j (ground arith)), same (i - 1) (ground arith))
          (rw
            (sum-agree (λ j. num.abs (tb j -f sum tc (i - p) p /f num.of_nat p))
              (λ j. num.abs (tc j -f sum tc (i - p) p /f num.of_nat p)) (i - p) p
              (λ j l u. rw (same j (ground arith)) refl))
            refl))

  -- Where two symbols of one length have the same bars before bar `i`, whatever follows, the
  -- Bollinger bands with their width and their place of the price, the volatility, the channel index
  -- and the directional index at `i` are the same, for windows of at least one bar and past the
  -- first bar.
  pub bands_of_earlier :
      (n : ℕ) (b c : Bars W) (p : ℕ) (m : W) (i : ℕ)
      → 0 < p
      → 0 < i
      → AgreesBefore i b c
      → (bb_upper b.close p m i ≡ bb_upper c.close p m i)
        × (bb_middle b.close p i ≡ bb_middle c.close p i)
        × (bb_lower b.close p m i ≡ bb_lower c.close p m i)
        × (bb_width b.close p m i ≡ bb_width c.close p m i)
        × (bb_pct_b b.close p m i ≡ bb_pct_b c.close p m i)
        × (historical_vol b.close p i ≡ historical_vol c.close p i)
        × (cci b.high b.low b.close p i ≡ cci c.high c.low c.close p i)
        × (adx n b.high b.low b.close p i ≡ adx n c.high c.low c.close p i)
  bands_of_earlier n b c p m i o q h = (
    bb_upper-agree b.close c.close p m i h.close,
    bb_middle-agree b.close c.close p i h.close,
    bb_lower-agree b.close c.close p m i h.close,
    bb_width-agree b.close c.close p m i h.close,
    bb_pct_b-agree b.close c.close p m i q h.close,
    historical_vol-agree b.close c.close p i h.close,
    cci-agree b c p i o h,
    adx-agree n b c p i o h,
  )
