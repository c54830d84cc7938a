-- ===== src/Backtest/Held.antt =====
-- What a backtest reports (internal/backtest/backtest.go).
use json_scanner.Base.{
  ℕ, suc, ◌+◌, ◌≤◌, String, ◌≡◌, refl, sym, ◌∙◌, inl, inr, arith, Bool, true, false, ◌||◌, Option,
  none, some, List, [], ◌∷◌, All, ltb, ◌==◌, length, Bool-cases,
}
use json_scanner.Base.Result.{Result, ok, err}
use json_scanner.Indicators.{Number, ◌+f◌}
use json_scanner.Snapshot.Store.{Db, SnapError, set_active, list_snapshots, date_rows}
use json_scanner.Snapshot.Query as Query
use json_scanner.Study.Access.{Study}
use json_scanner.Backtest.Run.{
  Trade, Summary, Outcomes, symbols_of, on_matches, on_active, run_date, run_dates, tally,
  calculate_summary, on_dates, run_backtest,
}
use json_scanner.Backtest.Trades.{IsHeld, trades_of-IsHeld, IsHeld-rows, All-append}

set_active-rows :
    {D : Type 0} (up : Bool) (d : ℕ) (db : Db D) → (set_active up d db).0.rows ≡ db.rows
unfolding set_active
set_active-rows false d db = refl
set_active-rows true d db = elim (Bool-cases (length (date_rows d db.rows) == 0)) [
  | inl e ↦ rw e refl
  | inr e ↦ rw e refl
]

add_nought : (n : ℕ) → 0 + 0 + n ≡ n
add_nought n = omega arith

module _ {D W : Type 0} ⦃num : Number W⦄ (close : D → Option W) where
  module _ {M : Type 0} (engine : Query.Engine D M) (symbol_of : M → String) where
    -- What a run over dates gives: the rows as they were, and trades that were held.
    record Holds (start end hold : ℕ) (db : Db D) (r : Db D × List (Trade W)) : Type 0 where
      rows : r.0.rows ≡ db.rows
      trades : All (IsHeld close start end hold db) r.1

    on_active-Holds :
        (o : Outcomes) (s : Study) (start end hold d : ℕ) (db : Db D) (r : Db D × Option SnapError)
        → r.0.rows ≡ db.rows
        → start ≤ d
        → d ≤ end
        → Holds start end hold db (on_active close engine symbol_of o s d hold r)
    on_active-Holds o s start end hold d db (db', some e) q a b = record { rows = q; trades = tt }
    on_active-Holds o s start end hold d db (db', none) q a b = record {
      rows = q;
      trades = IsHeld-rows close start end hold db db' _ q (by_matches (Query.run engine s db'));
    }
      where
        by_matches :
            (m : Result SnapError (List M))
            → All
                (IsHeld close start end hold db')
                (on_matches close engine symbol_of o d hold db' m)
        by_matches (err e) = tt
        by_matches (ok ms) =
            trades_of-IsHeld close start end hold (λ x. o.reads x d)
              (symbols_of close engine symbol_of ms) d db' a b

    run_dates-Holds :
        (o : Outcomes) (s : Study) (start end hold : ℕ) (dates : List ℕ) (db : Db D)
        → Holds start end hold db (run_dates close engine symbol_of o s start end hold dates db)
    unfolding run_dates run_date
    run_dates-Holds o s start end hold [] db = record { rows = refl; trades = tt }
    run_dates-Holds o s start end hold (d ∷ dates) db =
        let now = run_date close engine symbol_of o s start end hold d db in
        let first = one_date in
        let rest = run_dates-Holds o s start end hold dates now.0 in
        record {
          rows = Holds.rows rest ∙ Holds.rows first;
          trades =
              All-append close (IsHeld close start end hold db) now.1 _ (Holds.trades first) (
                IsHeld-rows close start end hold db now.0 _ (Holds.rows first) (Holds.trades rest));
        }
      where
        one_date : Holds start end hold db (run_date close engine symbol_of o s start end hold d db)
        one_date = elim (Bool-cases (ltb d start || ltb end d)) [
          | inl e ↦ rw e (record { rows = refl; trades = tt })
          | inr e ↦ rw e (
              on_active-Holds o s start end hold d db (set_active (o.active d) d db)
                (set_active-rows (o.active d) d db) (ground arith) (ground arith))
        ]

    tally-adds :
        (ts : List (Trade W)) (x : W) (m n : ℕ)
        → let r = tally close engine symbol_of ts x m n in r.1 + r.2 ≡ m + n + length ts
    unfolding tally
    tally-adds [] x m n = omega arith
    tally-adds (t ∷ ts) x m n = elim (Bool-cases (num.lt (num.of_nat 0) t.return_)) [
      | inl e ↦ rw e (omega (arith, tally-adds ts (x +f t.return_) (suc m) n))
      | inr e ↦ rw e (omega (arith, tally-adds ts (x +f t.return_) m (suc n)))
    ]

    -- A backtest that gives a summary leaves the rows as they were; each of its trades was entered
    -- at the symbol's price on a date of the span and held for the days asked for at least; and the
    -- trades are as many as it says, each of them won or lost.
    pub run_backtest-IsHeld :
        (o : Outcomes) (s : Study) (start end hold : ℕ) (db : Db D) (sum : Summary W)
        → (run_backtest close engine symbol_of o s start end hold db).1 ≡ ok sum
        → ((run_backtest close engine symbol_of o s start end hold db).0.rows ≡ db.rows)
          × All (IsHeld close start end hold db) sum.results
          × (sum.total_trades ≡ length sum.results)
          × (sum.winning_trades + sum.losing_trades ≡ sum.total_trades)
    unfolding run_backtest calculate_summary
    run_backtest-IsHeld o s start end hold db sum h = by_dates (list_snapshots o.list db) h
      where
        by_dates :
            (ds : Result SnapError (List ℕ))
            → (on_dates close engine symbol_of o s start end hold db ds).1 ≡ ok sum
            → ((on_dates close engine symbol_of o s start end hold db ds).0.rows ≡ db.rows)
              × All (IsHeld close start end hold db) sum.results
              × (sum.total_trades ≡ length sum.results)
              × (sum.winning_trades + sum.losing_trades ≡ sum.total_trades)
        by_dates (err e) g = cc
        by_dates (ok ds) g =
            let r = run_dates close engine symbol_of o s start end hold ds db in
            let run = run_dates-Holds o s start end hold ds db in
            let q : calculate_summary close engine symbol_of s start end r.1 ≡ sum = cc in
            rw (sym q) (
              Holds.rows run,
              Holds.trades run,
              refl,
              tally-adds r.1 (num.of_nat 0) 0 0 ∙ add_nought (length r.1),
            )
