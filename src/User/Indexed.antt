-- ===== src/User/Indexed.antt =====
-- A loaded registry and its index (`LoadJSONL` and `Find` of internal/user/user.go).
use json_scanner.Base.{
  ℕ, ◌+◌, String, ◌≡◌, refl, sym, inl, inr, Bool, true, false, Option, none, some, List, [], ◌∷◌,
  ◌++◌, ◌=s=◌, arith, All, if◌then◌else◌, Bool-cases,
}
use json_scanner.Base.Dict.{lookup, lookup-insert}
use json_scanner.Base.Result.{Result, ok, err}
use json_scanner.Base.Text.{trim_space}
use json_scanner.User.{User, tier_free, role_user}
use json_scanner.User.Registry.{
  Registry, LoadError, is_skipped, with_defaults, add, load_line, load_rest, load_from, load_jsonl,
  find,
}

-- The last user of the list with the id.
abbrev pub or_first : Option User → String → User → Option User
or_first (some v) id u = some v
or_first none id u = if u.id =s= id then some u else none

abbrev pub last_with : String → List User → Option User
last_with id [] = none
last_with id (u ∷ us) = or_first (last_with id us) id u

last_with-snoc :
    (id : String) (us : List User) (u : User)
    → last_with id (us ++ (u ∷ [])) ≡ (if u.id =s= id then some u else last_with id us)
last_with-snoc id [] u = refl
last_with-snoc id (v ∷ us) u = elim (Bool-cases (u.id =s= id)) [
  | inl e ↦ rw (last_with-snoc id us u) (rw e refl)
  | inr e ↦ rw (last_with-snoc id us u) (rw e refl)
]

-- Nothing that the file must give is missing.
pub record IsComplete (u : User) : Type 0 where
  pub id : (u.id =s= "") ≡ false
  pub tier : (u.tier =s= "") ≡ false
  pub role : (u.role =s= "") ≡ false

pub record IsIndexed (reg : Registry) : Type 0 where
  pub finds : (id : String) → find reg id ≡ last_with id reg.all
  pub complete : All IsComplete reg.all

snoc-All : (P : User → Type 0) (us : List User) (u : User) → All P us → P u → All P (us ++ (u ∷ []))
snoc-All P [] u h p = (p, tt)
snoc-All P (v ∷ us) u h p = (h.0, snoc-All P us u h.1 p)

default_filled : (t d : String) → (d =s= "") ≡ false → ((if t =s= "" then d else t) =s= "") ≡ false
default_filled t d h = elim (Bool-cases (t =s= "")) [ inl e ↦ rw e h | inr e ↦ rw e e ]

with_defaults-IsComplete : (u : User) → (u.id =s= "") ≡ false → IsComplete (with_defaults u)
unfolding with_defaults
with_defaults-IsComplete u h = record {
  id = h;
  tier = default_filled u.tier tier_free refl;
  role = default_filled u.role role_user refl;
}

add-IsIndexed : (reg : Registry) (u : User) → IsIndexed reg → IsComplete u → IsIndexed (add reg u)
add-IsIndexed reg u r c = record {
  finds = found;
  complete = snoc-All IsComplete reg.all u r.complete c;
}
  where
    found : (id : String) → find (add reg u) id ≡ last_with id (add reg u).all
    found id =
        unfold find in
        rw (lookup-insert u.id id u reg.by_id, last_with-snoc id reg.all u)
          (by_test (u.id =s= id) (unfold find in r.finds id))
      where
        by_test :
            (b : Bool)
            → lookup id reg.by_id ≡ last_with id reg.all
            → (if b then some u else lookup id reg.by_id)
              ≡ (if b then some u else last_with id reg.all)
        by_test true e = refl
        by_test false e = e

module _ (decode : List ℕ → Option User) where
  load_line-IsIndexed :
      (n : ℕ) (reg reg' : Registry) (found : Option User)
      → IsIndexed reg
      → load_line decode n reg found ≡ ok reg'
      → IsIndexed reg'
  unfolding load_line
  load_line-IsIndexed n reg reg' none r h = cc
  load_line-IsIndexed n reg reg' (some u) r h = elim (Bool-cases (u.id =s= "")) [
    | inl e ↦ absurd (ground arith)
    | inr e ↦
        let q : add reg (with_defaults u) ≡ reg' = cc (rw e at h) in
        rw (sym q) (add-IsIndexed reg (with_defaults u) r (with_defaults-IsComplete u e))
  ]

  load_from-IsIndexed :
      (n : ℕ) (lines : List (List ℕ)) (reg out : Registry)
      → IsIndexed reg
      → load_from decode n lines reg ≡ ok out
      → IsIndexed out
  unfolding load_from
  load_from-IsIndexed n [] reg out r h = let q : reg ≡ out = cc in rw (sym q) r
  load_from-IsIndexed n (line ∷ lines) reg out r h =
      elim (Bool-cases (is_skipped (trim_space line))) [
        | inl e ↦ load_from-IsIndexed (n + 1) lines reg out r (rw e at h)
        | inr e ↦
            by_line (λ mid. load_from-IsIndexed (n + 1) lines mid out)
              (load_line decode (n + 1) reg (decode (trim_space line))) refl (rw e at h)
      ]
    where
      by_line :
          ((mid : Registry)
            → IsIndexed mid
            → load_from decode (n + 1) lines mid ≡ ok out
            → IsIndexed out)
          → (result : Result LoadError Registry)
          → load_line decode (n + 1) reg (decode (trim_space line)) ≡ result
          → load_rest decode (load_from decode (n + 1) lines) result ≡ ok out
          → IsIndexed out
      by_line rest (err x) q g = cc
      by_line rest (ok mid) q g =
          rest mid (load_line-IsIndexed (n + 1) reg mid (decode (trim_space line)) r q) g

  -- In a registry that was loaded, looking an id up gives the last user of the file with that id,
  -- and no user lacks an id, a tier or a role.
  pub load_jsonl-IsIndexed :
      (lines : List (List ℕ)) (reg : Registry) → load_jsonl decode lines ≡ ok reg → IsIndexed reg
  unfolding load_jsonl
  load_jsonl-IsIndexed lines reg h =
      load_from-IsIndexed 0 lines (record { all = []; by_id = [] }) reg
        (record { finds = λ id. (unfold find lookup in refl); complete = tt }) h
