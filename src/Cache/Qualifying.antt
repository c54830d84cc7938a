-- ===== src/Cache/Qualifying.antt =====
-- The symbols that the cache finds liquid enough (internal/scan/cache.go).
use json_scanner.Base.{
  ℕ, ◌≡◌, refl, ap, ◌∙◌, ◌↔◌, Bool, true, false, String, List, [], ◌∷◌, In, select, In-select,
  In-of_select, Option, none, some, leb, ◌=s=◌, eq_iff, inl, inr, Bool-cases,
}
use json_scanner.Base.Result.{ok}
use json_scanner.Indicators.{Number}
use json_scanner.Cache.Listed.{sort_symbols-In, symbols_of-In}
use json_scanner.Cache.Store.{
  CacheRow, sort_symbols, traded, larger, max_traded, is_enough, symbols_of, qualifies,
  get_qualifying_symbols,
}

-- How the comparisons of numbers, NaN aside, pass on a lower bound.
pub record IsMonotone (W : Type 0) ⦃num : Number W⦄ : Type 0 where
  pub le_lt : (a m w : W) → num.le a m ≡ true → num.lt m w ≡ true → num.le a w ≡ true
  pub le_not_lt :
      (a w m : W)
      → num.is_nan m ≡ false
      → num.le a w ≡ true
      → num.lt m w ≡ false
      → num.le a m ≡ true
  pub le_not_nan : (a w : W) → num.le a w ≡ true → num.is_nan w ≡ false

module _ {W : Type 0} ⦃num : Number W⦄ where
  -- A row whose traded value is at least the bound.
  abbrev pub IsLiquid : W → CacheRow W → Type 0
  IsLiquid least r = num.le least (traded r) ≡ true

  max_traded-bound :
      (least : W) (rows : List (CacheRow W))
      → is_enough least (max_traded rows) ≡ true
      → (r : CacheRow W) × In r rows × IsLiquid least r
  unfolding max_traded
  max_traded-bound least [] h = cc
  max_traded-bound least (x ∷ rows) h = elim (Bool-cases (num.is_nan (traded x))) [
    | inl e ↦ later (max_traded-bound least rows (simp e at h))
    | inr e ↦ by_rest (max_traded rows) (simp e at h) (λ g. max_traded-bound least rows g)
  ]
    where
      later :
          (r : CacheRow W) × In r rows × IsLiquid least r
          → (r : CacheRow W) × In r (x ∷ rows) × IsLiquid least r
      later (r, i, l) = (r, inr i, l)

      by_rest :
          (m : Option W)
          → is_enough least (larger (traded x) m) ≡ true
          → (is_enough least m ≡ true → (r : CacheRow W) × In r rows × IsLiquid least r)
          → (r : CacheRow W) × In r (x ∷ rows) × IsLiquid least r
      by_rest none g f = (x, inl refl, g)
      by_rest (some m) g f = elim (Bool-cases (num.lt m (traded x))) [
        | inl e ↦ (x, inl refl, simp e at g)
        | inr e ↦ later (f (simp e at g))
      ]

  abbrev IsKnown : Option W → Type 0
  IsKnown none = Unit
  IsKnown (some m) = num.is_nan m ≡ false

  larger-IsKnown : (w : W) (m : Option W) → num.is_nan w ≡ false → IsKnown m → IsKnown (larger w m)
  larger-IsKnown w none e k = e
  larger-IsKnown w (some m) e k = elim (Bool-cases (num.lt m w)) [ inl l ↦ rw l e | inr l ↦ rw l k ]

  max_traded-IsKnown : (rows : List (CacheRow W)) → IsKnown (max_traded rows)
  unfolding max_traded
  max_traded-IsKnown [] = tt
  max_traded-IsKnown (x ∷ rows) = elim (Bool-cases (num.is_nan (traded x))) [
    | inl e ↦ rw e (max_traded-IsKnown rows)
    | inr e ↦ rw e (larger-IsKnown (traded x) (max_traded rows) e (max_traded-IsKnown rows))
  ]

  larger-first :
      (least w : W) (m : Option W)
      → IsMonotone W
      → IsKnown m
      → num.le least w ≡ true
      → is_enough least (larger w m) ≡ true
  larger-first least w none law k h = h
  larger-first least w (some m) law k h = elim (Bool-cases (num.lt m w)) [
    | inl e ↦ rw e h
    | inr e ↦ rw e (law.le_not_lt least w m k h e)
  ]

  larger-rest :
      (least w : W) (m : Option W)
      → IsMonotone W
      → is_enough least m ≡ true
      → is_enough least (larger w m) ≡ true
  larger-rest least w none law h = cc
  larger-rest least w (some m) law h = elim (Bool-cases (num.lt m w)) [
    | inl e ↦ rw e (law.le_lt least m w h e)
    | inr e ↦ rw e h
  ]

  max_traded-least :
      (least : W) (r : CacheRow W) (rows : List (CacheRow W))
      → IsMonotone W
      → In r rows
      → IsLiquid least r
      → is_enough least (max_traded rows) ≡ true
  unfolding max_traded
  max_traded-least least r [] law i h = elim i [ ]
  max_traded-least least r (x ∷ rows) law (inl p) h =
      let l = ap (λ y. num.le least (traded y)) p ∙ h in
      let e = law.le_not_nan least (traded x) l in
      rw e (larger-first least (traded x) (max_traded rows) law (max_traded-IsKnown rows) l)
  max_traded-least least r (x ∷ rows) law (inr j) h =
      let ih = max_traded-least least r rows law j h in
      elim (Bool-cases (num.is_nan (traded x))) [
        | inl e ↦ rw e ih
        | inr e ↦ rw e (larger-rest least (traded x) (max_traded rows) law ih)
      ]

  -- The rows up to a date.
  abbrev pub seen : ℕ → List (CacheRow W) → List (CacheRow W)
  seen up_to rows = select (λ r. leb r.bar.timestamp up_to) rows

  -- A row of the symbol, up to the date, that traded at least the value.
  abbrev pub HasLiquid : ℕ → W → List (CacheRow W) → String → Type 0
  HasLiquid up_to least rows s =
      (r : CacheRow W) × In r rows
      × (leb r.bar.timestamp up_to ≡ true)
      × (r.symbol ≡ s)
      × IsLiquid least r

  liquid_of-qualifies :
      (up_to : ℕ) (least : W) (rows : List (CacheRow W)) (s : String)
      → qualifies least (seen up_to rows) s ≡ true
      → HasLiquid up_to least rows s
  liquid_of-qualifies up_to least rows s h =
      of_row (max_traded-bound least (select (λ r. r.symbol =s= s) (seen up_to rows)) h)
    where
      of_row :
          (r : CacheRow W) × In r (select (λ q. q.symbol =s= s) (seen up_to rows))
            × IsLiquid least r
          → HasLiquid up_to least rows s
      of_row (r, i, l) =
          let of_symbol = In-of_select (λ q. q.symbol =s= s) r (seen up_to rows) i in
          let of_date = In-of_select (λ q. leb q.bar.timestamp up_to) r rows of_symbol.0 in
          (r, of_date.0, of_date.1, (eq_iff r.symbol s).0 of_symbol.1, l)

  chosen_of-liquid :
      (up_to : ℕ) (least : W) (rows : List (CacheRow W)) (s : String)
      → IsMonotone W
      → HasLiquid up_to least rows s
      → In s (select (qualifies least (seen up_to rows)) (symbols_of (seen up_to rows)))
  chosen_of-liquid up_to least rows s law (r, i, d, p, l) =
      let of_date = In-select (λ q. leb q.bar.timestamp up_to) r rows i d in
      let of_symbol =
        In-select (λ q. q.symbol =s= s) r (seen up_to rows) of_date ((eq_iff r.symbol s).1 p) in
      In-select (qualifies least (seen up_to rows)) s (symbols_of (seen up_to rows))
        (listed (symbols_of-In r (seen up_to rows) of_date))
        (max_traded-least least r (select (λ q. q.symbol =s= s) (seen up_to rows)) law of_symbol l)
    where
      listed : In r.symbol (symbols_of (seen up_to rows)) → In s (symbols_of (seen up_to rows))
      listed m = simp p at m

  -- Where the numbers' comparisons pass on a lower bound, a query whose statements succeed returns the
  -- symbols of the rows up to the date, the latest or not, that traded at least the
  -- given value, and no others.
  pub get_qualifying_symbols_iff :
      (less : String → String → Bool) (up_to : ℕ) (least : W) (rows : List (CacheRow W))
      → IsMonotone W
      → (symbols : List String) × ((get_qualifying_symbols
              (record { queries = true; scans = true; iterates = true })
              less
              up_to
              least
              rows
            ≡ ok symbols)
          × ((s : String) → In s symbols ↔ HasLiquid up_to least rows s))
  unfolding get_qualifying_symbols
  get_qualifying_symbols_iff less up_to least rows law =
      let chosen = select (qualifies least (seen up_to rows)) (symbols_of (seen up_to rows)) in
      (
        sort_symbols less chosen,
        (
          refl,
          λ s. (
            λ i.
                liquid_of-qualifies up_to least rows s
                  (In-of_select (qualifies least (seen up_to rows)) s (symbols_of (seen up_to rows))
                    ((sort_symbols-In less s chosen).0 i)).1,
            λ l. (sort_symbols-In less s chosen).1 (chosen_of-liquid up_to least rows s law l),
          ),
        ),
      )
