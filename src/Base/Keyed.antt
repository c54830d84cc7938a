-- ===== src/Base/Keyed.antt =====
-- Lists of values with a text as key, beside a map: the loops of the stores that replace the first
-- value of a key or drop every one.
use Prim.Native.Nat.{◌+◌}
use Prim.Native.String.{String}
use mathlib.Core.Path.{◌≡◌, refl, sym}
use mathlib.Core.Logic.{inl, inr}
use mathlib.Core.Bool.{Bool, true, false}
use mathlib.Core.Option.{Option, none, some}
use mathlib.Core.List.{List, [], ◌∷◌, ◌++◌}
use native.Mathlib.Omega.{arith}
use text.Mathlib.TextEquality.{eq_iff}
use json_scanner.Base.Tests.{◌=s=◌, if◌then◌else◌, Bool-cases, Option-cases}
use json_scanner.Base.Lists.{count, find_first}
use json_scanner.Base.Dict.{is_some}

module _ {A : Type 0} (key : A → String) where
  abbrev pub has_key : String → A → Bool
  has_key k x = key x =s= k

  -- `for i := range all { if all[i].Key == x.Key { all[i] = x; break } }`
  unfoldable pub replace_first : A → List A → List A
  replace_first new [] = []
  replace_first new (x ∷ xs) =
      let rest = replace_first new xs in if key x =s= key new then new ∷ xs else x ∷ rest

  -- The loop that keeps what has another key.
  unfoldable pub drop_key : String → List A → List A
  drop_key k [] = []
  drop_key k (x ∷ xs) = let rest = drop_key k xs in if key x =s= k then rest else x ∷ rest

  pub find_first-replace :
      (new : A) (k : String) (xs : List A)
      → find_first (has_key k) (replace_first new xs) ≡ (
          if key new =s= k
          then (if is_some (find_first (has_key (key new)) xs) then some new else none)
          else find_first (has_key k) xs)
  unfolding replace_first
  find_first-replace new k [] = ground arith
  find_first-replace new k (x ∷ xs) = ground (
    arith,
    find_first-replace new k xs,
    eq_iff (key x) (key new),
    eq_iff (key x) k,
    eq_iff (key new) k,
  )

  pub count-replace :
      (new : A) (k : String) (xs : List A)
      → count (has_key k) (replace_first new xs) ≡ count (has_key k) xs
  unfolding replace_first
  count-replace new k [] = refl
  count-replace new k (x ∷ xs) = ground (
    arith,
    count-replace new k xs,
    eq_iff (key x) (key new),
    eq_iff (key x) k,
    eq_iff (key new) k,
  )

  pub find_first-snoc :
      (new : A) (k : String) (xs : List A)
      → find_first (has_key k) (xs ++ (new ∷ [])) ≡ (
          if is_some (find_first (has_key k) xs)
          then find_first (has_key k) xs
          else if key new =s= k
          then some new
          else none)
  find_first-snoc new k [] = refl
  find_first-snoc new k (x ∷ xs) = elim (Bool-cases (key x =s= k)) [
    | inl e ↦ rw e refl
    | inr e ↦ rw e (find_first-snoc new k xs)
  ]

  pub count-snoc :
      (new : A) (k : String) (xs : List A)
      → count (has_key k) (xs ++ (new ∷ []))
        ≡ count (has_key k) xs + (if key new =s= k then 1 else 0)
  count-snoc new k [] = ground arith
  count-snoc new k (x ∷ xs) = ground (arith, count-snoc new k xs)

  pub find_first-drop :
      (gone k : String) (xs : List A)
      → find_first (has_key k) (drop_key gone xs)
        ≡ (if gone =s= k then none else find_first (has_key k) xs)
  unfolding drop_key
  find_first-drop gone k [] = ground arith
  find_first-drop gone k (x ∷ xs) =
      ground
        (arith, find_first-drop gone k xs, eq_iff (key x) gone, eq_iff (key x) k, eq_iff gone k)

  pub count-drop :
      (gone k : String) (xs : List A)
      → count (has_key k) (drop_key gone xs) ≡ (if gone =s= k then 0 else count (has_key k) xs)
  unfolding drop_key
  count-drop gone k [] = ground arith
  count-drop gone k (x ∷ xs) =
      ground (arith, count-drop gone k xs, eq_iff (key x) gone, eq_iff (key x) k, eq_iff gone k)

  -- A value put in place of the first of its key, or at the end where there is none.
  abbrev pub put_in : A → Bool → List A → List A
  put_in new found xs = if found then replace_first new xs else xs ++ (new ∷ [])

  is_none : (o : Option A) → is_some o ≡ false → o ≡ none
  is_none none e = refl
  is_none (some a) e = cc

  same_key :
      (new : A) (k : String) (xs : List A)
      → (key new =s= k) ≡ true
      → find_first (has_key (key new)) xs ≡ find_first (has_key k) xs
  same_key new k xs e = rw ((eq_iff (key new) k).0 e) refl

  pub find_first-put :
      (new : A) (k : String) (xs : List A) (found : Bool)
      → is_some (find_first (has_key (key new)) xs) ≡ found
      → find_first (has_key k) (put_in new found xs)
        ≡ (if key new =s= k then some new else find_first (has_key k) xs)
  find_first-put new k xs true h = rw (find_first-replace new k xs, h) refl
  find_first-put new k xs false h = elim (Bool-cases (key new =s= k)) [
    | inl e ↦
        let q : find_first (has_key k) xs ≡ none =
          rw (sym (same_key new k xs e)) (is_none (find_first (has_key (key new)) xs) h) in
        rw (find_first-snoc new k xs, q, e) refl
    | inr e ↦ elim (Option-cases (find_first (has_key k) xs)) [
      | inl q ↦ rw (find_first-snoc new k xs, q, e) refl
      | inr (x, q) ↦ rw (find_first-snoc new k xs, q, e) refl
    ]
  ]

  pub count-put :
      (new : A) (k : String) (xs : List A) (found : Bool)
      → count (has_key (key new)) xs ≡ (if found then 1 else 0)
      → count (has_key k) (put_in new found xs)
        ≡ (if key new =s= k then 1 else count (has_key k) xs)
  count-put new k xs true h = elim (Bool-cases (key new =s= k)) [
    | inl e ↦ rw (count-replace new k xs, e, sym ((eq_iff (key new) k).0 e)) h
    | inr e ↦ rw (count-replace new k xs, e) refl
  ]
  count-put new k xs false h = elim (Bool-cases (key new =s= k)) [
    | inl e ↦ rw (count-snoc new k xs, e, sym ((eq_iff (key new) k).0 e), h) refl
    | inr e ↦ rw (count-snoc new k xs, e) (ground arith)
  ]
