-- ===== src/Indicators/Present.antt =====
-- The indicators that read the bar they stand at: the average true range, the directional
-- indicators, the money flow, the ultimate oscillator, Aroon and the parabolic stop.
use json_scanner.Base.{
  ℕ, suc, ◌+◌, ◌-◌, ◌≤◌, ◌<◌, ◌≡◌, refl, ap, arith, Bool, true, false, ltb, if◌then◌else◌,
}
use json_scanner.Indicators.{Number, Series, Bars}
use json_scanner.Indicators.Volatility.{atr}
use json_scanner.Indicators.Directional.{di_plus, di_minus}
use json_scanner.Indicators.Flow.{
  money_flow, cmf, buying_pressure, true_range_at, average_pressure, ultimate_osc,
}
use json_scanner.Indicators.Trend.{highest, lowest, aroon_up, aroon_down, aroon_osc}
use json_scanner.Indicators.Parabolic.{
  Parabolic, bullish_step, bearish_step, psar_step, psar_start, psar,
}
use json_scanner.Indicators.Directed.{atr-agree, di_plus-agree, di_minus-agree}
use json_scanner.Indicators.Window.{
  fold_window-agree_under, Agrees, AgreesBefore, fold_window-agree, sum-agree, unless,
}

chosen : (b : Bool) (j a i : ℕ) → j ≤ i → a ≤ i → (if b then j else a) ≤ i
chosen true j a i p q = p
chosen false j a i p q = q

module _ {W : Type 0} ⦃num : Number W⦄ where
  cmf-agree :
      (b c : Bars W) (p i : ℕ)
      → AgreesBefore (suc i) b c
      → cmf b.high b.low b.close b.volume p i ≡ cmf c.high c.low c.close c.volume p i
  unfolding cmf money_flow
  cmf-agree b c p i h = unless (ltb i p) _ (λ e.
      rw
        (
          sum-agree (money_flow b.high b.low b.close b.volume)
              (money_flow c.high c.low c.close c.volume) (i + 1 - p) p
              (λ j l u.
                rw
                  (
                    h.high j (ground arith),
                    h.low j (ground arith),
                    h.close j (ground arith),
                    h.volume j (ground arith),
                  )
                  refl),
          sum-agree (λ j. num.of_int (b.volume j)) (λ j. num.of_int (c.volume j)) (i + 1 - p) p
              (λ j l u. ap num.of_int (h.volume j (ground arith))),
        )
        refl)

  average_pressure-agree :
      (b c : Bars W) (p : ℕ) (k : W) (i : ℕ)
      → p ≤ suc i
      → AgreesBefore (suc i) b c
      → average_pressure b.high b.low b.close p k i ≡ average_pressure c.high c.low c.close p k i
  unfolding average_pressure buying_pressure true_range_at
  average_pressure-agree b c p k i q h =
      rw
        (
          sum-agree (true_range_at b.high b.low b.close) (true_range_at c.high c.low c.close)
              (i + 1 - p) p
              (λ j l u.
                rw (h.high j (omega arith), h.low j (omega arith), h.close j (omega arith)) refl),
          sum-agree (buying_pressure b.low b.close) (buying_pressure c.low c.close) (i + 1 - p) p
              (λ j l u. rw (h.low j (omega arith), h.close j (omega arith)) refl),
        )
        refl

  ultimate_osc-agree :
      (n : ℕ) (b c : Bars W) (p1 p2 p3 i : ℕ)
      → p1 ≤ p3
      → p2 ≤ p3
      → AgreesBefore (suc i) b c
      → ultimate_osc n b.high b.low b.close p1 p2 p3 i
        ≡ ultimate_osc n c.high c.low c.close p1 p2 p3 i
  unfolding ultimate_osc
  ultimate_osc-agree n b c p1 p2 p3 i q r h = unless (ltb n (p3 + 2)) _ (λ e.
      unless (ltb i p3) _ (λ f.
        rw
          (
            average_pressure-agree b c p1 (num.of_nat 4) i (ground arith) h,
            average_pressure-agree b c p2 (num.of_nat 2) i (ground arith) h,
            average_pressure-agree b c p3 (num.of_nat 1) i (ground arith) h,
          )
          refl))

  highest-agree :
      (xs ys : Series W) (p i : ℕ) → p ≤ i → Agrees (suc i) xs ys → highest xs p i ≡ highest ys p i
  unfolding highest
  highest-agree xs ys p i q h =
      fold_window-agree_under (λ a. a ≤ i) _ _ i (i - p) p (omega arith)
        (λ a j m l u. (
          rw (h a (omega arith), h j (omega arith)) refl,
          chosen (num.lt (ys a) (ys j)) j a i (omega arith) m,
        ))

  lowest-agree :
      (xs ys : Series W) (p i : ℕ) → p ≤ i → Agrees (suc i) xs ys → lowest xs p i ≡ lowest ys p i
  unfolding lowest
  lowest-agree xs ys p i q h =
      fold_window-agree_under (λ a. a ≤ i) _ _ i (i - p) p (omega arith)
        (λ a j m l u. (
          rw (h a (omega arith), h j (omega arith)) refl,
          chosen (num.lt (ys j) (ys a)) j a i (omega arith) m,
        ))

  aroon_up-agree :
      (xs ys : Series W) (p i : ℕ) → Agrees (suc i) xs ys → aroon_up xs p i ≡ aroon_up ys p i
  unfolding aroon_up
  aroon_up-agree xs ys p i h =
      unless (ltb i p) _ (λ e. rw (highest-agree xs ys p i (ground arith) h) refl)

  aroon_down-agree :
      (xs ys : Series W) (p i : ℕ) → Agrees (suc i) xs ys → aroon_down xs p i ≡ aroon_down ys p i
  unfolding aroon_down
  aroon_down-agree xs ys p i h =
      unless (ltb i p) _ (λ e. rw (lowest-agree xs ys p i (ground arith) h) refl)

  aroon_osc-agree :
      (b c : Bars W) (p i : ℕ)
      → AgreesBefore (suc i) b c
      → aroon_osc b.high b.low p i ≡ aroon_osc c.high c.low p i
  unfolding aroon_osc
  aroon_osc-agree b c p i h =
      rw (aroon_up-agree b.high c.high p i h.high, aroon_down-agree b.low c.low p i h.low) refl

  psar_step-agree :
      (b c : Bars W) (step max_af : W) (s : Parabolic W) (i j : ℕ)
      → suc j < i
      → AgreesBefore i b c
      → psar_step b.high b.low step max_af s j ≡ psar_step c.high c.low step max_af s j
  unfolding psar_step bullish_step bearish_step
  psar_step-agree b c step max_af s i j u h =
      rw (h.high j (omega arith), h.high (suc j) u, h.low j (omega arith), h.low (suc j) u) refl

  psar-agree :
      (n : ℕ) (b c : Bars W) (step max_af : W) (i : ℕ)
      → AgreesBefore (suc i) b c
      → psar n b.high b.low step max_af i ≡ psar n c.high c.low step max_af i
  unfolding psar
  psar-agree n b c step max_af i h = unless (ltb n 2) _ (λ e. unless (ltb i 1) _ (λ q.
      rw (start_agree q) (
        unless (ltb i 2) _ (λ r.
          rw
            (fold_window-agree (psar_step b.high b.low step max_af)
              (psar_step c.high c.low step max_af) (psar_start c.high c.low step) 1 (i - 1)
              (λ a j l u. psar_step-agree b c step max_af a (suc i) j (ground arith) h))
            refl))))
    where
      start_agree : ltb i 1 ≡ false → psar_start b.high b.low step ≡ psar_start c.high c.low step
      start_agree q =
          unfold psar_start in
          rw
            (
              h.high 0 (ground arith),
              h.high 1 (ground arith),
              h.low 0 (ground arith),
              h.low 1 (ground arith),
            )
            refl

  -- Where two symbols of one length have the same bars up to bar `i` included, whatever follows, the
  -- average true range, the directional indicators, the money flow, the ultimate oscillator (with no
  -- window longer than its last), Aroon's three series and the parabolic stop at `i` are the same.
  pub values_of_present :
      (n : ℕ) (b c : Bars W) (p p1 p2 : ℕ) (x y : W) (i : ℕ)
      → p1 ≤ p
      → p2 ≤ p
      → AgreesBefore (suc i) b c
      → (atr n b.high b.low b.close p i ≡ atr n c.high c.low c.close p i)
        × (di_plus n b.high b.low b.close p i ≡ di_plus n c.high c.low c.close p i)
        × (di_minus n b.high b.low b.close p i ≡ di_minus n c.high c.low c.close p i)
        × (cmf b.high b.low b.close b.volume p i ≡ cmf c.high c.low c.close c.volume p i)
        × (ultimate_osc n b.high b.low b.close p1 p2 p i
            ≡ ultimate_osc n c.high c.low c.close p1 p2 p i)
        × (aroon_up b.high p i ≡ aroon_up c.high p i)
        × (aroon_down b.low p i ≡ aroon_down c.low p i)
        × (aroon_osc b.high b.low p i ≡ aroon_osc c.high c.low p i)
        × (psar n b.high b.low x y i ≡ psar n c.high c.low x y i)
  values_of_present n b c p p1 p2 x y i q r h = (
    atr-agree n b c p i h,
    di_plus-agree n b c p i h,
    di_minus-agree n b c p i h,
    cmf-agree b c p i h,
    ultimate_osc-agree n b c p1 p2 p i q r h,
    aroon_up-agree b.high c.high p i h.high,
    aroon_down-agree b.low c.low p i h.low,
    aroon_osc-agree b c p i h,
    psar-agree n b c x y i h,
  )
