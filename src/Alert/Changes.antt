-- ===== src/Alert/Changes.antt =====
-- What the detector finds, against membership in the two lists of matches.
use json_scanner.Base.{
  ℕ, String, ◌≡◌, inl, inr, refl, sym, ◌∙◌, Bool, true, false, List, [], ◌∷◌, ◌=s=◌, eq_iff, arith,
  map, contains, if◌then◌else◌, Bool-cases,
}
use json_scanner.Base.Dict.{Dict, lookup, insert, lookup-insert}
use json_scanner.Study.Access.{Study}
use json_scanner.Alert.Detect.{Change, symbols_from, symbol_set, in_set, changes_outside}

-- Is the symbol among those listed?
abbrev pub listed : List String → String → Bool
listed ss s = contains (λ x. x =s= s) ss

in_set-insert :
    (s x : String) (m : Dict Bool)
    → in_set (insert x true m) s ≡ (if x =s= s then true else in_set m s)
in_set-insert s x m = rw (lookup-insert x s true m) (ground arith)

in_set-symbols_from :
    (m : Dict Bool) (ss : List String) (s : String)
    → in_set (symbols_from m ss) s ≡ (if listed ss s then true else in_set m s)
unfolding symbols_from
in_set-symbols_from m [] s = refl
in_set-symbols_from m (x ∷ ss) s =
    ground (arith, in_set-symbols_from (insert x true m) ss s, in_set-insert s x m)

pub in_set-symbol_set : (ss : List String) (s : String) → in_set (symbol_set ss) s ≡ listed ss s
in_set-symbol_set ss s = in_set-symbols_from [] ss s ∙ (unfold lookup in ground arith)

abbrev pub symbols : List Change → List String
symbols = map (λ c. c.symbol)

-- The changes outside a set have the symbols outside it, in order.
pub listed-changes_outside :
    (m : Dict Bool) (s : Study) (d p : ℕ) (ss : List String) (x : String)
    → listed (symbols (changes_outside m s d p ss)) x ≡ (if in_set m x then false else listed ss x)
unfolding changes_outside
listed-changes_outside m s d p [] x = ground arith
listed-changes_outside m s d p (y ∷ ss) x = elim (Bool-cases (in_set m y)) [
  | inl e ↦ rw e (rw (listed-changes_outside m s d p ss x) (same y x e))
  | inr e ↦ rw e (rw (listed-changes_outside m s d p ss x) (other y x e))
]
  where
    same :
        (y x : String)
        → in_set m y ≡ true
        → (if in_set m x then false else listed ss x)
          ≡ (if in_set m x then false else listed (y ∷ ss) x)
    same y x e = elim (Bool-cases (y =s= x)) [
      | inl q ↦ rw (sym ((eq_iff y x).0 q)) (rw e refl)
      | inr q ↦ rw q refl
    ]

    other :
        (y x : String)
        → in_set m y ≡ false
        → (if y =s= x then true else if in_set m x then false else listed ss x)
          ≡ (if in_set m x then false else listed (y ∷ ss) x)
    other y x e = elim (Bool-cases (y =s= x)) [
      | inl q ↦ rw (sym ((eq_iff y x).0 q)) (rw e (ground (arith, eq_iff y y)))
      | inr q ↦ rw q refl
    ]
