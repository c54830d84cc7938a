-- ===== src/Cache/Listed.antt =====
-- The lists of symbols that the cache makes (internal/scan/cache.go).
use json_scanner.Base.{
  ◌≡◌, sym, ap, ◌↔◌, Bool, true, String, List, [], ◌∷◌, In, contains, ◌=s=◌, eq_iff, inl, inr,
  Bool-cases,
}
use json_scanner.Cache.Store.{CacheRow, place_symbol, sort_symbols, symbols_of}

place_symbol-In :
    (less : String → String → Bool) (a s : String) (ts : List String)
    → In a (place_symbol less s ts) ↔ In a (s ∷ ts)
unfolding place_symbol
place_symbol-In less a s [] = (λ i. i, λ i. i)
place_symbol-In less a s (t ∷ ts) =
    let ih = place_symbol-In less a s ts in
    elim (Bool-cases (less t s)) [
      | inl e ↦ rw e (λ i. forth (ih.0) i, λ i. back (ih.1) i)
      | inr e ↦ rw e (λ i. i, λ i. i)
    ]
  where
    forth :
        (In a (place_symbol less s ts) → In a (s ∷ ts))
        → In a (t ∷ place_symbol less s ts)
        → In a (s ∷ t ∷ ts)
    forth f (inl e) = inr (inl e)
    forth f (inr i) = elim (f i) [ inl e ↦ inl e | inr j ↦ inr (inr j) ]

    back :
        (In a (s ∷ ts) → In a (place_symbol less s ts))
        → In a (s ∷ t ∷ ts)
        → In a (t ∷ place_symbol less s ts)
    back f (inl e) = inr (f (inl e))
    back f (inr (inl e)) = inl e
    back f (inr (inr j)) = inr (f (inr j))

pub sort_symbols-In :
    (less : String → String → Bool) (a : String) (ss : List String)
    → In a (sort_symbols less ss) ↔ In a ss
unfolding sort_symbols
sort_symbols-In less a [] = (λ i. i, λ i. i)
sort_symbols-In less a (s ∷ ss) =
    let step = place_symbol-In less a s (sort_symbols less ss) in
    let ih = sort_symbols-In less a ss in (λ i. forth ih.0 (step.0 i), λ i. step.1 (back ih.1 i))
  where
    forth :
        (In a (sort_symbols less ss) → In a ss) → In a (s ∷ sort_symbols less ss) → In a (s ∷ ss)
    forth f (inl e) = inl e
    forth f (inr i) = inr (f i)

    back : (In a ss → In a (sort_symbols less ss)) → In a (s ∷ ss) → In a (s ∷ sort_symbols less ss)
    back f (inl e) = inl e
    back f (inr i) = inr (f i)

In-contains : (a : String) (ss : List String) → contains (λ s. s =s= a) ss ≡ true → In a ss
In-contains a [] h = cc
In-contains a (s ∷ ss) h = elim (Bool-cases (s =s= a)) [
  | inl e ↦ inl ((eq_iff s a).0 e)
  | inr e ↦ inr (In-contains a ss (simp e at h))
]

module _ {W : Type 0} where
  pub symbols_of-In :
      (r : CacheRow W) (rows : List (CacheRow W)) → In r rows → In r.symbol (symbols_of rows)
  unfolding symbols_of
  symbols_of-In r [] i = i
  symbols_of-In r (x ∷ rows) i =
      elim (Bool-cases (contains (λ s. s =s= x.symbol) (symbols_of rows))) [
        | inl e ↦ rw e (known e i (symbols_of-In r rows))
        | inr e ↦ rw e (fresh i (symbols_of-In r rows))
      ]
    where
      known :
          contains (λ s. s =s= x.symbol) (symbols_of rows) ≡ true
          → In r (x ∷ rows)
          → (In r rows → In r.symbol (symbols_of rows))
          → In r.symbol (symbols_of rows)
      known e (inl p) f = elim (Bool-cases true) [
        | inl q ↦ rw (sym (ap (λ y. y.symbol) p)) (In-contains x.symbol (symbols_of rows) e)
        | inr q ↦ cc
      ]
      known e (inr j) f = f j

      fresh :
          In r (x ∷ rows)
          → (In r rows → In r.symbol (symbols_of rows))
          → In r.symbol (x.symbol ∷ symbols_of rows)
      fresh (inl p) f = inl (ap (λ y. y.symbol) p)
      fresh (inr j) f = inr (f j)
