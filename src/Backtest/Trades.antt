-- ===== src/Backtest/Trades.antt =====
-- The trades of one date (internal/backtest/backtest.go).
use json_scanner.Base.{
  ℕ, ◌+◌, ◌-◌, ◌*◌, ◌/◌, ◌≤◌, String, ◌≡◌, refl, sym, ap, ◌∙◌, inl, inr, arith, Bool, true, false,
  Option, some, List, [], ◌∷◌, ◌++◌, All, leb, Bool-cases, Option-cases,
}
use mathlib.Core.Path.{subst}
use json_scanner.Base.Result.{Result, ok, err, >>=-eq-ok}
use json_scanner.Indicators.{Number, ◌-f◌, ◌/f◌}
use json_scanner.Snapshot.Store.{SnapRow, Db, SnapError, nearest_date, min_date_from, symbol_close}
use json_scanner.Backtest.Run.{Trade, trade, calculate_return, or_skip, trades_of}

min_date_from-above :
    {D : Type 0} (from d : ℕ) (rows : List (SnapRow D))
    → min_date_from from rows ≡ some d
    → from ≤ d
unfolding min_date_from
min_date_from-above from d [] h = cc
min_date_from-above from d (r ∷ rows) h = elim (Bool-cases (leb from r.date)) [
  | inr e ↦ min_date_from-above from d rows (rw e at h)
  | inl e ↦ elim (Option-cases (min_date_from from rows)) [
    | inl q ↦
        let same : some r.date ≡ some d = rw (e, q) at h in
        let p : r.date ≡ d = cc in rw (sym p) (ground arith)
    | inr (x, q) ↦
        let ih = min_date_from-above from x rows q in
        elim (Bool-cases (leb r.date x)) [
          | inl g ↦
              let same : some r.date ≡ some d = rw (e, q, g) at h in
              let p : r.date ≡ d = cc in rw (sym p) (ground arith)
          | inr g ↦
              let same : some x ≡ some d = rw (e, q, g) at h in let p : x ≡ d = cc in rw (sym p) ih
        ]
  ]
]

nearest_date-above :
    {D : Type 0} (up : Bool) (from d : ℕ) (db : Db D) → nearest_date up from db ≡ ok d → from ≤ d
unfolding nearest_date
nearest_date-above false from d db h = cc
nearest_date-above true from d db h = elim (Option-cases (min_date_from from db.rows)) [
  | inl e ↦ absurd (let t = rw (e, nearest_date) at h in cc)
  | inr (x, e) ↦
      let same : ok x ≡ ok d = rw (e, nearest_date) at h in
      let p : x ≡ d = cc in min_date_from-above from d db.rows (e ∙ ap some p)
]

module _ {D W : Type 0} ⦃num : Number W⦄ (close : D → Option W) where
  -- The trade was entered in the span, at the symbol's price, and held for the days at least.
  pub record IsHeld (start end hold : ℕ) (db : Db D) (t : Trade W) : Type 0 where
    pub from_start : start ≤ t.date
    pub by_end : t.date ≤ end
    pub entered : symbol_close close true t.symbol t.date db ≡ ok t.entry_px
    pub held : hold ≤ t.hold_days
    pub gain : t.return_ ≡ (t.exit_px -f t.entry_px) /f t.entry_px

  close_read :
      (up : Bool) (s : String) (d : ℕ) (db : Db D) (x : W)
      → symbol_close close up s d db ≡ ok x
      → symbol_close close true s d db ≡ ok x
  unfolding symbol_close
  close_read true s d db x h = h
  close_read false s d db x h = cc

  close_of_rows :
      (s : String) (d : ℕ) (db db' : Db D)
      → db.rows ≡ db'.rows
      → symbol_close close true s d db ≡ symbol_close close true s d db'
  unfolding symbol_close
  close_of_rows s d db db' h = rw h refl

  long_enough : (entry hold exit : ℕ) → entry + hold * 86400 ≤ exit → hold ≤ (exit - entry) / 86400
  long_enough entry hold exit h = omega arith

  calculate_return-IsHeld :
      (start end hold : ℕ) (up : ℕ → Bool) (s : String) (entry : ℕ) (db : Db D) (t : Trade W)
      → start ≤ entry
      → entry ≤ end
      → calculate_return close up s entry hold db ≡ ok t
      → IsHeld start end hold db t
  unfolding calculate_return
  calculate_return-IsHeld start end hold up s entry db t a b h =
      let w = >>=-eq-ok (symbol_close close (up 0) s entry db) _ h in
      let v = >>=-eq-ok (nearest_date (up 1) (entry + hold * 86400) db) _ w.2 in
      let u = >>=-eq-ok (symbol_close close (up 2) s v.0 db) _ v.2 in
      let q : trade close s entry v.0 w.0 u.0 ≡ t = same_trade u.2 in
      subst (IsHeld start end hold db) q (record {
        from_start = a;
        by_end = b;
        entered = close_read (up 0) s entry db w.0 w.1;
        held =
            long_enough entry hold v.0
              (nearest_date-above (up 1) (entry + hold * 86400) v.0 db v.1);
        gain = refl;
      })
    where
      same_trade : {x y : Trade W} → ◌≡◌ {A = Result SnapError (Trade W)} (ok x) (ok y) → x ≡ y
      same_trade e = cc

  pub trades_of-IsHeld :
      (start end hold : ℕ) (reads : String → ℕ → Bool) (ss : List String) (entry : ℕ) (db : Db D)
      → start ≤ entry
      → entry ≤ end
      → All (IsHeld start end hold db) (trades_of close reads ss entry hold db)
  unfolding trades_of
  trades_of-IsHeld start end hold reads [] entry db a b = tt
  trades_of-IsHeld start end hold reads (s ∷ ss) entry db a b =
      by_result (calculate_return close (reads s) s entry hold db) refl
        (trades_of-IsHeld start end hold reads ss entry db a b)
    where
      by_result :
          (r : Result SnapError (Trade W))
          → calculate_return close (reads s) s entry hold db ≡ r
          → All (IsHeld start end hold db) (trades_of close reads ss entry hold db)
          → All
              (IsHeld start end hold db)
              (or_skip close r (trades_of close reads ss entry hold db))
      by_result (err e) q h = h
      by_result (ok t) q h =
          (calculate_return-IsHeld start end hold (reads s) s entry db t a b q, h)

  pub IsHeld-rows :
      (start end hold : ℕ) (db db' : Db D) (ts : List (Trade W))
      → db'.rows ≡ db.rows
      → All (IsHeld start end hold db') ts
      → All (IsHeld start end hold db) ts
  IsHeld-rows start end hold db db' [] q h = tt
  IsHeld-rows start end hold db db' (t ∷ ts) q h = (
    record {
      from_start = h.0.from_start;
      by_end = h.0.by_end;
      entered = sym (close_of_rows t.symbol t.date db' db q) ∙ h.0.entered;
      held = h.0.held;
      gain = h.0.gain;
    },
    IsHeld-rows start end hold db db' ts q h.1,
  )

  pub All-append :
      (P : Trade W → Type 0) (xs ys : List (Trade W)) → All P xs → All P ys → All P (xs ++ ys)
  All-append P [] ys h g = g
  All-append P (x ∷ xs) ys h g = (h.0, All-append P xs ys h.1 g)
