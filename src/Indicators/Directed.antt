-- ===== src/Indicators/Directed.antt =====
-- What the average true range, the directional indicators and the directional index read.
use json_scanner.Base.{ℕ, suc, ◌+◌, ◌-◌, ◌*◌, ◌≤◌, ◌<◌, ◌≡◌, refl, ap, arith, ltb}
use json_scanner.Indicators.{Number, Series, Bars}
use json_scanner.Indicators.Volatility.{range_at, atr, wilder}
use json_scanner.Indicators.Directional.{
  up_move, down_move, smooth_sum, directional, di_plus, di_minus, dx, adx,
}
use json_scanner.Indicators.Window.{
  Agrees, AgreesBefore, shorter, fold_window-agree, sum-agree, unless,
}

module _ {W : Type 0} ⦃num : Number W⦄ where
  range_at-agree :
      (b c : Bars W) (i j : ℕ)
      → j < i
      → AgreesBefore i b c
      → range_at b.high b.low b.close j ≡ range_at c.high c.low c.close j
  unfolding range_at
  range_at-agree b c i j u h = rw (h.high j u, h.low j u, h.close (j - 1) (omega arith)) refl

  pub atr-agree :
      (n : ℕ) (b c : Bars W) (p i : ℕ)
      → AgreesBefore (suc i) b c
      → atr n b.high b.low b.close p i ≡ atr n c.high c.low c.close p i
  unfolding atr
  atr-agree n b c p i h =
      let same = λ (j : ℕ) (u : j < suc i). range_at-agree b c (suc i) j u h in
      unless (ltb n (p + 1)) _ (λ e. unless (ltb i p) _ (λ q.
        rw
          (sum-agree (range_at b.high b.low b.close) (range_at c.high c.low c.close) 1 p
            (λ j l u. same j (ground arith)))
          (fold_window-agree _ _ _ (suc p) (i - p)
            (λ a j l u. ap (wilder p a) (same j (ground arith))))))

  up_move-agree :
      (b c : Bars W) (i j : ℕ)
      → j < i
      → AgreesBefore i b c
      → up_move b.high b.low j ≡ up_move c.high c.low j
  unfolding up_move
  up_move-agree b c i j u h =
      rw (h.high j u, h.low j u, h.high (j - 1) (omega arith), h.low (j - 1) (omega arith)) refl

  down_move-agree :
      (b c : Bars W) (i j : ℕ)
      → j < i
      → AgreesBefore i b c
      → down_move b.high b.low j ≡ down_move c.high c.low j
  unfolding down_move
  down_move-agree b c i j u h =
      rw (h.high j u, h.low j u, h.high (j - 1) (omega arith), h.low (j - 1) (omega arith)) refl

  smooth_sum-agree :
      (xs ys : Series W) (p i : ℕ)
      → p ≤ i
      → Agrees (suc i) xs ys
      → smooth_sum xs p i ≡ smooth_sum ys p i
  unfolding smooth_sum
  smooth_sum-agree xs ys p i q h =
      rw (sum-agree xs ys 1 p (λ j l u. h j (omega arith)))
        (fold_window-agree _ _ _ (suc p) (i - p) (λ a j l u. rw (h j (omega arith)) refl))

  directional-agree :
      (ms ms' xs ys : Series W) (n p i : ℕ)
      → Agrees (suc i) ms ms'
      → Agrees (suc i) xs ys
      → directional ms xs n p i ≡ directional ms' ys n p i
  unfolding directional
  directional-agree ms ms' xs ys n p i g h = unless (ltb n (p + 1)) _ (λ e. unless (ltb i p) _ (λ q.
      rw (smooth_sum-agree ms ms' p i (ground arith) g, smooth_sum-agree xs ys p i (ground arith) h)
        refl))

  pub di_plus-agree :
      (n : ℕ) (b c : Bars W) (p i : ℕ)
      → AgreesBefore (suc i) b c
      → di_plus n b.high b.low b.close p i ≡ di_plus n c.high c.low c.close p i
  unfolding di_plus
  di_plus-agree n b c p i h =
      directional-agree _ _ _ _ n p i (λ j u. up_move-agree b c (suc i) j u h)
        (λ j u. range_at-agree b c (suc i) j u h)

  pub di_minus-agree :
      (n : ℕ) (b c : Bars W) (p i : ℕ)
      → AgreesBefore (suc i) b c
      → di_minus n b.high b.low b.close p i ≡ di_minus n c.high c.low c.close p i
  unfolding di_minus
  di_minus-agree n b c p i h =
      directional-agree _ _ _ _ n p i (λ j u. down_move-agree b c (suc i) j u h)
        (λ j u. range_at-agree b c (suc i) j u h)

  dx-agree :
      (n : ℕ) (b c : Bars W) (p i : ℕ)
      → AgreesBefore (suc i) b c
      → dx (di_plus n b.high b.low b.close p) (di_minus n b.high b.low b.close p) i
        ≡ dx (di_plus n c.high c.low c.close p) (di_minus n c.high c.low c.close p) i
  unfolding dx
  dx-agree n b c p i h = rw (di_plus-agree n b c p i h, di_minus-agree n b c p i h) refl

  pub adx-agree :
      (n : ℕ) (b c : Bars W) (p i : ℕ)
      → 0 < p
      → AgreesBefore i b c
      → adx n b.high b.low b.close p i ≡ adx n c.high c.low c.close p i
  unfolding adx
  adx-agree n b c p i o h =
      let db = dx (di_plus n b.high b.low b.close p) (di_minus n b.high b.low b.close p) in
      let dc = dx (di_plus n c.high c.low c.close p) (di_minus n c.high c.low c.close p) in
      let same = λ (j : ℕ) (u : suc j ≤ i). dx-agree n b c p j (shorter b c i (suc j) u h) in
      unless (ltb n (p + 1)) _ (λ e. unless (ltb i (p * 2)) _ (λ q.
        rw (sum-agree db dc p p (λ j l u. same j (ground arith))) (
          fold_window-agree _ _ _ (suc (p * 2)) (i - p * 2)
            (λ a j l u. ap (wilder p a) (same (j - 1) (ground arith))))))
