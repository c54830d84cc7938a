-- ===== src/Base/Lists.antt =====
-- Lists counted by native numbers, Boolean filters, and predicates on lists by recursion.
use Prim.Native.Nat.{ℕ, suc}
use mathlib.Core.Path.{◌≡◌, refl, ap, sym, ◌∙◌}
use mathlib.Core.Logic.{◌⊎◌, inl, inr}
use mathlib.Core.Bool.{Bool, true, false}
use mathlib.Core.Option.{Option, none, some}
use mathlib.Core.List.{List, [], ◌∷◌}
use json_scanner.Base.Tests.{if◌then◌else◌, Bool-cases}

module _ {ℓ} {A : Type ℓ} where
  abbrev pub length : List A → ℕ
  length [] = 0
  length (x ∷ xs) = suc (length xs)

  -- The elements that pass a test, in order: a loop with `continue` and `append`.
  abbrev pub select : (A → Bool) → List A → List A
  select p [] = []
  select p (x ∷ xs) = let rest = select p xs in if p x then x ∷ rest else rest

  -- How many elements pass a test.
  abbrev pub count : (A → Bool) → List A → ℕ
  count p [] = 0
  count p (x ∷ xs) = let rest = count p xs in if p x then suc rest else rest

  abbrev pub find_first : (A → Bool) → List A → Option A
  find_first p [] = none
  find_first p (x ∷ xs) = let rest = find_first p xs in if p x then some x else rest

  abbrev pub contains : (A → Bool) → List A → Bool
  contains p [] = false
  contains p (x ∷ xs) = let rest = contains p xs in if p x then true else rest

module _ {A : Type 0} where
  -- Membership, by recursion.
  abbrev pub In : A → List A → Type 0
  In a [] = ⊥
  In a (x ∷ xs) = (x ≡ a) ⊎ In a xs

  abbrev pub All : (A → Type 0) → List A → Type 0
  All P [] = Unit
  All P (x ∷ xs) = P x × All P xs

module _ {A : Type 0} (p : A → Bool) where
  pub In-select : (a : A) (xs : List A) → In a xs → p a ≡ true → In a (select p xs)
  In-select a [] m h = m
  In-select a (x ∷ xs) (inl e) h = rw (ap p e ∙ h) (inl e)
  In-select a (x ∷ xs) (inr m) h = elim (Bool-cases (p x)) [
    | inl e ↦ rw e (inr (In-select a xs m h))
    | inr e ↦ rw e (In-select a xs m h)
  ]

  pub In-of_select : (a : A) (xs : List A) → In a (select p xs) → In a xs × (p a ≡ true)
  In-of_select a [] m = elim m [ ]
  In-of_select a (x ∷ xs) m = by_test (p x) refl m (In-of_select a xs)
    where
      by_test :
          (b : Bool)
          → p x ≡ b
          → In a (if b then x ∷ select p xs else select p xs)
          → (In a (select p xs) → In a xs × (p a ≡ true))
          → In a (x ∷ xs) × (p a ≡ true)
      by_test true e (inl q) ih = (inl q, ap p (sym q) ∙ e)
      by_test true e (inr i) ih = (inr (ih i).0, (ih i).1)
      by_test false e i ih = (inr (ih i).0, (ih i).1)
