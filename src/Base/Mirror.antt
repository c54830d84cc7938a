-- ===== src/Base/Mirror.antt =====
-- A list and a map that hold the same values under the same keys, and a table of their rows.
use Prim.Native.Nat.{ℕ}
use Prim.Native.String.{String}
use mathlib.Core.Path.{◌≡◌, refl, sym, ◌∙◌, fun_ext}
use mathlib.Core.Logic.{inl, inr}
use mathlib.Core.Bool.{Bool, true, false}
use mathlib.Core.Option.{Option, none, some}
use mathlib.Core.List.{List}
use text.Mathlib.TextEquality.{eq_iff}
use json_scanner.Base.Tests.{◌=s=◌, if◌then◌else◌, Bool-cases}
use json_scanner.Base.Lists.{count, find_first}
use json_scanner.Base.Dict.{Dict, lookup, insert, delete, is_some, lookup-insert, lookup-delete}
use json_scanner.Base.Keyed.{
  has_key, drop_key, put_in, find_first-put, count-put, find_first-drop, count-drop,
}

-- What is held, by key.
abbrev pub Contents : Type 0 → Type 0
Contents A = String → Option A

-- A choice that both sides make.
pub if_same :
    {A : Type 0} (b : Bool) (x : A) {y z : A} → y ≡ z → (if b then x else y) ≡ (if b then x else z)
if_same true x h = refl
if_same false x h = h

module _ {A : Type 0} where
  one_if_some :
      (b : Bool) (a : A) (o : Option A) (n : ℕ)
      → n ≡ (if is_some o then 1 else 0)
      → (if b then 1 else n) ≡ (if is_some (if b then some a else o) then 1 else 0)
  one_if_some true a o n h = refl
  one_if_some false a o n h = h

  none_if_gone :
      (b : Bool) (o : Option A) (n : ℕ)
      → n ≡ (if is_some o then 1 else 0)
      → (if b then 0 else n) ≡ (if is_some (if b then none else o) then 1 else 0)
  none_if_gone true o n h = refl
  none_if_gone false o n h = h

  abbrev pub without : String → Contents A → Contents A
  without d m k = if d =s= k then none else m k

  pub without-absent : (d : String) (m : Contents A) → is_some (m d) ≡ false → without d m ≡ m
  without-absent d m h = fun_ext same
    where
      absent : (o : Option A) → is_some o ≡ false → none ≡ o
      absent none q = refl
      absent (some x) q = cc

      same : (k : String) → without d m k ≡ m k
      same k = elim (Bool-cases (d =s= k)) [
        | inl e ↦ rw (e, sym ((eq_iff d k).0 e)) (absent (m d) h)
        | inr e ↦ rw e refl
      ]

  -- The rows that a function of the values gives.
  abbrev pub mapped : {R : Type 0} → (A → R) → Option A → Option R
  mapped f none = none
  mapped f (some a) = some (f a)

  abbrev pub TableHolds : {R : Type 0} → (A → R) → Option (Dict R) → Contents A → Type 0
  TableHolds f none m = Unit
  TableHolds f (some rows) m = (k : String) → lookup k rows ≡ mapped f (m k)

module _ {A : Type 0} (key : A → String) where
  abbrev pub with_put : A → Contents A → Contents A
  with_put a m k = if key a =s= k then some a else m k

  -- The map and the list hold the same values, each key once.
  pub record Mirrors (all : List A) (index : Dict A) (m : Contents A) : Type 0 where
    pub by_key : (k : String) → lookup k index ≡ m k
    pub listed : (k : String) → find_first (has_key key k) all ≡ m k
    pub once : (k : String) → count (has_key key k) all ≡ (if is_some (m k) then 1 else 0)

  pub put-Mirrors :
      (a : A) (all : List A) (index : Dict A) (m : Contents A) (found : Bool)
      → is_some (m (key a)) ≡ found
      → Mirrors all index m
      → Mirrors (put_in key a found all) (insert (key a) a index) (with_put a m)
  put-Mirrors a all index m found e h = record {
    by_key = λ k. lookup-insert (key a) k a index ∙ if_same (key a =s= k) (some a) (h.by_key k);
    listed = λ k.
        find_first-put key a k all found (rw (h.listed (key a)) e)
        ∙ if_same (key a =s= k) (some a) (h.listed k);
    once = λ k.
        count-put key a k all found (rw (h.once (key a), e) refl)
        ∙ one_if_some (key a =s= k) a (m k) (count (has_key key k) all) (h.once k);
  }

  pub drop-Mirrors :
      (d : String) (all : List A) (index : Dict A) (m : Contents A)
      → Mirrors all index m
      → Mirrors (drop_key key d all) (delete d index) (without d m)
  drop-Mirrors d all index m h = record {
    by_key = λ k. lookup-delete d k index ∙ if_same (d =s= k) none (h.by_key k);
    listed = λ k. find_first-drop key d k all ∙ if_same (d =s= k) none (h.listed k);
    once = λ k.
        count-drop key d k all
        ∙ none_if_gone (d =s= k) (m k) (count (has_key key k) all) (h.once k);
  }

  mapped-if :
      {R : Type 0} (f : A → R) (b : Bool) (x y : Option A)
      → (if b then mapped f x else mapped f y) ≡ mapped f (if b then x else y)
  mapped-if f true x y = refl
  mapped-if f false x y = refl

  pub insert-TableHolds :
      {R : Type 0} (f : A → R) (a : A) (rows : Dict R) (m : Contents A)
      → TableHolds f (some rows) m
      → TableHolds f (some (insert (key a) (f a) rows)) (with_put a m)
  insert-TableHolds f a rows m h k =
      lookup-insert (key a) k (f a) rows
      ∙ if_same (key a =s= k) (some (f a)) (h k)
      ∙ mapped-if f (key a =s= k) (some a) (m k)

  pub delete-TableHolds :
      {R : Type 0} (f : A → R) (d : String) (rows : Dict R) (m : Contents A)
      → TableHolds f (some rows) m
      → TableHolds f (some (delete d rows)) (without d m)
  delete-TableHolds f d rows m h k =
      lookup-delete d k rows ∙ if_same (d =s= k) none (h k) ∙ mapped-if f (d =s= k) none (m k)
