-- ===== src/Indicators.antt =====
-- Technical indicators (internal/indicators): the numbers, the series and the loops that the
-- files of the package share. A `float64` is a value of a type `W` with the operations that the
-- code uses; a series is read by its index, and its length is passed where the code asks for it.
use json_scanner.Base.{ℕ, zero, suc, ◌+◌, ◌-◌, Bool, ◌&&◌, ◌||◌, not, ◌==◌, ltb, if◌then◌else◌}
use json_scanner.Base.Int.{ℤ}
pub mod Price
pub mod Returns
pub mod Trend
pub mod Parabolic
pub mod Volatility
pub mod Volume
pub mod Momentum
pub mod Directional
pub mod Flow
pub mod Window
pub mod Earlier
pub mod Traded
pub mod Smoothed
pub mod Bands
pub mod Directed
pub mod Present
pub mod Extremes
pub mod WarmUp

-- What the code does with a `float64`.
pub record Number (W : Type 0) : Type 0 where
  pub plus : W → W → W
  pub minus : W → W → W
  pub times : W → W → W
  pub over : W → W → W
  pub lt : W → W → Bool
  pub le : W → W → Bool
  pub eq : W → W → Bool
  pub abs : W → W
  pub neg : W → W
  pub max : W → W → W
  pub min : W → W → W
  pub sqrt : W → W
  pub log : W → W
  pub nan : W
  pub is_nan : W → Bool
  pub of_nat : ℕ → W
  pub of_int : ℤ → W

infixl 60 ◌+f◌ ◌-f◌
infixl 70 ◌*f◌ ◌/f◌
abbrev pub ◌+f◌ : {W : Type 0} ⦃num : Number W⦄ → W → W → W
◌+f◌ ⦃num⦄ x y = num.plus x y

abbrev pub ◌-f◌ : {W : Type 0} ⦃num : Number W⦄ → W → W → W
◌-f◌ ⦃num⦄ x y = num.minus x y

abbrev pub ◌*f◌ : {W : Type 0} ⦃num : Number W⦄ → W → W → W
◌*f◌ ⦃num⦄ x y = num.times x y

abbrev pub ◌/f◌ : {W : Type 0} ⦃num : Number W⦄ → W → W → W
◌/f◌ ⦃num⦄ x y = num.over x y

-- `[]float64` by its index.
abbrev pub Series : Type 0 → Type 0
Series W = ℕ → W

-- The columns of a symbol's bars, oldest first.
pub record Bars (W : Type 0) : Type 0 where
  pub open_ : Series W
  pub high : Series W
  pub low : Series W
  pub close : Series W
  pub volume : Series ℤ

-- `for j := lo; j < lo + k; j++`
unfoldable pub fold_window : {S : Type 0} → (S → ℕ → S) → S → ℕ → ℕ → S
fold_window f s lo zero = s
fold_window f s lo (suc k) = fold_window f (f s lo) (suc lo) k

module _ {W : Type 0} ⦃num : Number W⦄ where
  -- `sum += vals[j]` in such a loop.
  unfoldable pub sum : Series W → ℕ → ℕ → W
  sum vals lo k = fold_window (λ acc j. acc +f vals j) (num.of_nat 0) lo k

  -- A decimal literal such as 0.015.
  abbrev pub literal : ℕ → ℕ → W
  literal a b = num.of_nat a /f num.of_nat b

  -- `float64(period - 1)`
  abbrev pub of_pred : ℕ → W
  of_pred zero = num.neg (num.of_nat 1)
  of_pred (suc p) = num.of_nat p
