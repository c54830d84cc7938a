-- ===== src/Base/Dict.antt =====
-- Go's `map[string]V` as an association list with one entry to a key.
use Prim.Native.String.{String}
use mathlib.Core.Path.{◌≡◌, refl, sym}
use mathlib.Core.Logic.{inl, inr}
use mathlib.Core.Bool.{Bool, true, false}
use mathlib.Core.Option.{Option, none, some}
use mathlib.Core.List.{List, [], ◌∷◌}
use native.Mathlib.Omega.{arith}
use text.Mathlib.TextEquality.{eq_iff}
use json_scanner.Base.Tests.{◌=s=◌, if◌then◌else◌, Bool-cases}

abbrev pub Dict {ℓ} : Type ℓ → Type ℓ
Dict V = List (String × V)

module _ {ℓ} {V : Type ℓ} where
  -- `v, ok := m[k]`
  unfoldable pub lookup : String → Dict V → Option V
  lookup k [] = none
  lookup k ((j, v) ∷ m) = if j =s= k then some v else lookup k m

  -- `m[k] = v`
  unfoldable pub insert : String → V → Dict V → Dict V
  insert k v [] = (k, v) ∷ []
  insert k v ((j, w) ∷ m) = if j =s= k then (k, v) ∷ m else (j, w) ∷ insert k v m

  -- `delete(m, k)`
  unfoldable pub delete : String → Dict V → Dict V
  delete k [] = []
  delete k ((j, w) ∷ m) = let rest = delete k m in if j =s= k then rest else (j, w) ∷ rest

  pub lookup-insert :
      (k j : String) (new : V) (m : Dict V)
      → lookup j (insert k new m) ≡ (if k =s= j then some new else lookup j m)
  unfolding lookup insert
  lookup-insert k j new [] = refl
  lookup-insert k j new ((k', old) ∷ rest) =
      ground (arith, eq_iff k' k, eq_iff k' j, lookup-insert k j new rest, eq_iff k j)

  pub lookup-delete :
      (k j : String) (m : Dict V) → lookup j (delete k m) ≡ (if k =s= j then none else lookup j m)
  unfolding lookup delete
  lookup-delete k j [] = ground arith
  lookup-delete k j ((i, w) ∷ m) =
      ground (arith, eq_iff k j, eq_iff i k, eq_iff i j, lookup-delete k j m)

pub ruleset dict_laws = (lookup-insert, lookup-delete)

abbrev pub is_some {ℓ} : {A : Type ℓ} → Option A → Bool
is_some none = false
is_some (some a) = true

pub ne_sym : (j k : String) → (j =s= k) ≡ false → (k =s= j) ≡ false
ne_sym j k e = ground (arith, eq_iff j k, eq_iff k j)

module _ {ℓ} {V : Type ℓ} where
  -- One entry to a key.
  abbrev pub IsMap : Dict V → Type 0
  IsMap [] = Unit
  IsMap ((k, v) ∷ m) = (is_some (lookup k m) ≡ false) × IsMap m

  pub insert-IsMap : (k : String) (v : V) (m : Dict V) → IsMap m → IsMap (insert k v m)
  unfolding insert lookup
  insert-IsMap k v [] h = (refl, tt)
  insert-IsMap k v ((j, w) ∷ m) h = elim (Bool-cases (j =s= k)) [
    | inl e ↦ rw e (rw (sym ((eq_iff j k).0 e)) h.0, h.1)
    | inr e ↦ rw e (rw (lookup-insert k j v m) (rw (ne_sym j k e) h.0), insert-IsMap k v m h.1)
  ]

  pub delete-IsMap : (k : String) (m : Dict V) → IsMap m → IsMap (delete k m)
  unfolding delete
  delete-IsMap k [] h = tt
  delete-IsMap k ((j, w) ∷ m) h = elim (Bool-cases (j =s= k)) [
    | inl e ↦ rw e (delete-IsMap k m h.1)
    | inr e ↦ rw e (rw (lookup-delete k j m) (rw (ne_sym j k e) h.0), delete-IsMap k m h.1)
  ]
