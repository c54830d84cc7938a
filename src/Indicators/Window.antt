-- ===== src/Indicators/Window.antt =====
-- A loop over a window depends only on what it reads there.
use json_scanner.Base.{
  ℕ, zero, suc, ◌+◌, ◌≤◌, ◌<◌, ◌≡◌, refl, arith, Bool, true, false, if◌then◌else◌,
}
use mathlib.Core.Path.{subst}
use json_scanner.Indicators.{Number, Series, Bars, fold_window, sum}

-- Two series agree below an index.
abbrev pub Agrees : {A : Type 0} → ℕ → Series A → Series A → Type 0
Agrees i xs ys = (j : ℕ) → j < i → xs j ≡ ys j

pub fold_window-agree :
    {S : Type 0} (f g : S → ℕ → S) (s : S) (lo k : ℕ)
    → ((a : S) (j : ℕ) → lo ≤ j → j < lo + k → f a j ≡ g a j)
    → fold_window f s lo k ≡ fold_window g s lo k
unfolding fold_window
fold_window-agree f g s lo zero h = refl
fold_window-agree f g s lo (suc k) h =
    rw (h s lo (omega arith) (omega arith))
      (fold_window-agree f g (g s lo) (suc lo) k (λ a j p q. h a j (omega arith) (omega arith)))

pub sum-agree :
    {W : Type 0} ⦃num : Number W⦄ (xs ys : Series W) (lo k : ℕ)
    → ((j : ℕ) → lo ≤ j → j < lo + k → xs j ≡ ys j)
    → sum xs lo k ≡ sum ys lo k
unfolding sum
sum-agree xs ys lo k h = fold_window-agree _ _ _ lo k (λ a j p q. rw (h j p q) refl)

-- A test that both sides make.
pub unless :
    {A : Type 0} (b : Bool) (x : A) {y z : A}
    → (b ≡ false → y ≡ z)
    → (if b then x else y) ≡ (if b then x else z)
unless true x h = refl
unless false x h = h refl

-- Two symbols' bars agree below an index.
pub record AgreesBefore {W : Type 0} (i : ℕ) (b c : Bars W) : Type 0 where
  pub open_ : Agrees i b.open_ c.open_
  pub high : Agrees i b.high c.high
  pub low : Agrees i b.low c.low
  pub close : Agrees i b.close c.close
  pub volume : Agrees i b.volume c.volume

pub shorter :
    {W : Type 0} (b c : Bars W) (i j : ℕ) → j ≤ i → AgreesBefore i b c → AgreesBefore j b c
shorter b c i j q h = record {
  open_ = λ t l. h.open_ t (omega arith);
  high = λ t l. h.high t (omega arith);
  low = λ t l. h.low t (omega arith);
  close = λ t l. h.close t (omega arith);
  volume = λ t l. h.volume t (omega arith);
}

-- What holds of the loop's state at the start and after each step holds at the end.
pub fold_window-keeps :
    {S : Type 0} (P : ℕ → S → Type 0) (f : S → ℕ → S) (s : S) (lo k : ℕ)
    → P lo s
    → ((a : S) (j : ℕ) → P j a → lo ≤ j → j < lo + k → P (suc j) (f a j))
    → P (lo + k) (fold_window f s lo k)
unfolding fold_window
fold_window-keeps P f s lo zero p h =
    let e : lo ≡ lo + 0 = omega arith in subst (λ (c : ℕ). P c s) e p
fold_window-keeps P f s lo (suc k) p h =
    let e : suc lo + k ≡ lo + suc k = omega arith in
    subst (λ (c : ℕ). P c (fold_window f (f s lo) (suc lo) k)) e
      (fold_window-keeps P f (f s lo) (suc lo) k (h s lo p (omega arith) (omega arith))
        (λ a j q l u. h a j q (omega arith) (omega arith)))

-- Two loops whose steps agree on the states that they reach.
pub fold_window-agree_under :
    {S : Type 0} (P : S → Type 0) (f g : S → ℕ → S) (s : S) (lo k : ℕ)
    → P s
    → ((a : S) (j : ℕ) → P a → lo ≤ j → j < lo + k → (f a j ≡ g a j) × P (g a j))
    → fold_window f s lo k ≡ fold_window g s lo k
unfolding fold_window
fold_window-agree_under P f g s lo zero p h = refl
fold_window-agree_under P f g s lo (suc k) p h =
    let now = h s lo p (omega arith) (omega arith) in
    rw now.0 (
      fold_window-agree_under P f g (g s lo) (suc lo) k now.1
        (λ a j q l u. h a j q (omega arith) (omega arith)))
