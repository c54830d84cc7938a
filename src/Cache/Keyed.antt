-- ===== src/Cache/Keyed.antt =====
-- The primary key of the cache's table (internal/scan/cache.go).
use json_scanner.Base.{
  ℕ, ◌≡◌, Bool, true, false, Option, none, some, String, List, [], ◌∷◌, ◌++◌, All, contains, inl,
  inr, Bool-cases, suc,
}
use json_scanner.Cache.Store.{
  CacheRow, LoadOutcome, has_key_of, insert_row, insert_bars, inserted, load_symbols, committed,
  bulk_load,
}

module _ {W : Type 0} where
  -- No two rows have the same symbol and timestamp.
  abbrev pub IsKeyed : List (CacheRow W) → Type 0
  IsKeyed [] = Unit
  IsKeyed (x ∷ xs) = All (λ y. has_key_of y x ≡ false) xs × IsKeyed xs

  All-not_contains :
      (p : CacheRow W → Bool) (xs : List (CacheRow W))
      → contains p xs ≡ false
      → All (λ x. p x ≡ false) xs
  All-not_contains p [] h = tt
  All-not_contains p (x ∷ xs) h = elim (Bool-cases (p x)) [
    | inl e ↦ cc
    | inr e ↦ (e, All-not_contains p xs (simp e at h))
  ]

  IsKeyed-snoc :
      (r : CacheRow W) (xs : List (CacheRow W))
      → All (λ x. has_key_of r x ≡ false) xs
      → IsKeyed xs
      → IsKeyed (xs ++ (r ∷ []))
  IsKeyed-snoc r [] n k = (tt, tt)
  IsKeyed-snoc r (x ∷ xs) n k = (snoc xs k.0, IsKeyed-snoc r xs n.1 k.1)
    where
      snoc :
          (ys : List (CacheRow W))
          → All (λ y. has_key_of y x ≡ false) ys
          → All (λ y. has_key_of y x ≡ false) (ys ++ (r ∷ []))
      snoc [] h = (n.0, tt)
      snoc (y ∷ ys) h = (h.0, snoc ys h.1)

  insert_row-IsKeyed :
      (r : CacheRow W) (rows : List (CacheRow W)) → IsKeyed rows → IsKeyed (insert_row r rows)
  unfolding insert_row
  insert_row-IsKeyed r rows k = elim (Bool-cases (contains (has_key_of r) rows)) [
    | inl e ↦ rw e k
    | inr e ↦ rw e (IsKeyed-snoc r rows (All-not_contains (has_key_of r) rows e) k)
  ]

  insert_bars-IsKeyed :
      (inserts : CacheRow W → Bool) (bars rows : List (CacheRow W))
      → IsKeyed rows
      → IsKeyed (insert_bars inserts bars rows)
  unfolding insert_bars
  insert_bars-IsKeyed inserts [] rows k = k
  insert_bars-IsKeyed inserts (r ∷ bars) rows k = elim (Bool-cases (inserts r)) [
    | inl e ↦
        rw e (insert_bars-IsKeyed inserts bars (insert_row r rows) (insert_row-IsKeyed r rows k))
    | inr e ↦ rw e (insert_bars-IsKeyed inserts bars rows k)
  ]

  abbrev KeyedIfLoaded : Option (List (CacheRow W)) → Type 0
  KeyedIfLoaded none = Unit
  KeyedIfLoaded (some rows) = IsKeyed rows

  load_symbols-IsKeyed :
      (o : LoadOutcome W) (load : String → Option (List (CacheRow W))) (n : ℕ)
      (symbols : List String) (rows : List (CacheRow W))
      → IsKeyed rows
      → KeyedIfLoaded (load_symbols o load n symbols rows)
  unfolding load_symbols
  load_symbols-IsKeyed o load n [] rows k = k
  load_symbols-IsKeyed o load n (s ∷ symbols) rows k = elim (Bool-cases (o.has_ended n)) [
    | inl e ↦ rw e tt
    | inr e ↦ rw e (
        load_symbols-IsKeyed o load (suc n) symbols (inserted o.inserts (load s) rows)
          (after (load s)))
  ]
    where
      after : (bars : Option (List (CacheRow W))) → IsKeyed (inserted o.inserts bars rows)
      after none = k
      after (some bars) = insert_bars-IsKeyed o.inserts bars rows k

  pub bulk_load-IsKeyed :
      (days_before : ℕ → ℕ → ℕ) (load_adjusted_bars : String → ℕ → Option (List (CacheRow W)))
      (o : LoadOutcome W) (symbols : List String) (start_date lookback_days : ℕ)
      (rows : List (CacheRow W))
      → IsKeyed rows
      → IsKeyed (bulk_load days_before load_adjusted_bars o symbols start_date lookback_days rows).0
  unfolding bulk_load
  bulk_load-IsKeyed days_before load_adjusted_bars o symbols start_date lookback_days rows k =
      let since = days_before start_date lookback_days in
      let loaded = load_symbols o (λ s. load_adjusted_bars s since) 0 symbols rows in
      elim (Bool-cases o.begins) [
        | inl e ↦ elim (Bool-cases o.prepares) [
          | inl f ↦
              rw (e, f)
                (after o.commits loaded
                  (load_symbols-IsKeyed o (λ s. load_adjusted_bars s since) 0 symbols rows k))
          | inr f ↦ rw (e, f) k
        ]
        | inr e ↦ rw e k
      ]
    where
      after :
          (b : Bool) (l : Option (List (CacheRow W)))
          → KeyedIfLoaded l
          → IsKeyed (committed b l rows).0
      after b none h = k
      after true (some l) h = h
      after false (some l) h = k
