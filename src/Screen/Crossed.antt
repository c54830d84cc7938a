-- ===== src/Screen/Crossed.antt =====
-- The crosses of a row (internal/screen/screen.go).
use json_scanner.Base.{
  ℕ, suc, ◌-◌, ◌<◌, ◌≡◌, refl, sym, arith, String, Bool, true, false, ◌&&◌, ◌||◌, some, leb,
  if◌then◌else◌, inl, inr, Bool-cases,
}
use json_scanner.Indicators.{Number, Series, Bars}
use json_scanner.Indicators.Momentum.{rsi}
use json_scanner.Screen.Row.{SnapshotRow, row_at, build}

module _ {W : Type 0} ⦃num : Number W⦄ where
  -- A bar more does not change the index at the bars before.
  rsi-longer : (n : ℕ) (xs : Series W) (i : ℕ) → i < n → rsi (suc n) xs 14 i ≡ rsi n xs 14 i
  unfolding rsi
  rsi-longer n xs i h = elim (Bool-cases (leb i 14)) [
    | inl e ↦ rw e (by_tests (leb (suc n) 15) (leb n 15))
    | inr e ↦
        let p : leb (suc n) 15 ≡ false = ground arith in
        let q : leb n 15 ≡ false = ground arith in rw (e, p, q) refl
  ]
    where
      by_tests :
          (a b : Bool)
          → (if false || a then num.nan else num.nan) ≡ (if false || b then num.nan else num.nan)
      by_tests true true = refl
      by_tests true false = refl
      by_tests false true = refl
      by_tests false false = refl

  -- For a symbol of two bars or more, the row built from them has the golden cross where the row has
  -- its 50-bar average above the 200-bar one and the row built without the last bar had it at or
  -- below, and the bounce where the row has the strength index above 30 and that row had it at 30 or
  -- below.
  pub build_crosses :
      (symbol : String) (k : ℕ) (b : Bars W) (now before : SnapshotRow W)
      → build symbol (suc (suc k)) b ≡ some now
      → build symbol (suc k) b ≡ some before
      → (now.golden_cross ≡ (num.lt now.sma200 now.sma50 && num.le before.sma50 before.sma200))
        × (now.oversold_bounce
            ≡ (num.lt (num.of_nat 30) now.rsi14 && num.le before.rsi14 (num.of_nat 30)))
  unfolding build row_at
  build_crosses symbol k b now before h g =
      let one : suc k - 1 ≡ k = omega arith in
      let p : row_at symbol (suc (suc k)) b (suc k) ≡ now = cc in
      let q : row_at symbol (suc k) b k ≡ before = cc in
      rw (sym p, sym q) (rw one (refl, rw (rsi-longer (suc k) b.close k (omega arith)) refl))
