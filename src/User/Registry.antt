-- ===== src/User/Registry.antt =====
-- `LoadJSONL`, `Find` and `All` of internal/user/user.go.
use json_scanner.Base.{
  ℕ, ◌+◌, String, Bool, Option, none, some, List, [], ◌∷◌, ◌++◌, ◌||◌, ◌=s=◌, if◌then◌else◌,
}
use json_scanner.Base.Dict.{Dict, lookup, insert}
use json_scanner.Base.Result.{Result, ok, err}
use json_scanner.Base.Text.{codes, codes_eq, has_prefix, trim_space}
use json_scanner.User.{User, tier_free, role_user}

pub record Registry : Type 0 where
  pub all : List User
  pub by_id : Dict User

-- The line's number, and what is wrong with it.
pub data LoadError : Type 0 where
  bad_json missing_id : ℕ → LoadError

-- A blank line or a comment.
abbrev pub is_skipped : List ℕ → Bool
is_skipped t = codes_eq t [] || has_prefix t (codes "#")

-- The defaults of a missing tier and role.
unfoldable pub with_defaults : User → User
with_defaults u = record u {
  tier = if u.tier =s= "" then tier_free else u.tier;
  role = if u.role =s= "" then role_user else u.role;
}

abbrev pub add : Registry → User → Registry
add reg u = record { all = reg.all ++ (u ∷ []); by_id = insert u.id u reg.by_id }

module _ (decode : List ℕ → Option User) where
  -- One line that is not skipped: the registry grows, or the load stops.
  unfoldable pub load_line : ℕ → Registry → Option User → Result LoadError Registry
  unfolding with_defaults
  load_line n reg none = err (bad_json n)
  load_line n reg (some u) =
      if u.id =s= "" then err (missing_id n) else ok (add reg (with_defaults u))

  abbrev pub load_rest :
      (Registry → Result LoadError Registry) → Result LoadError Registry → Result LoadError Registry
  load_rest next (ok reg) = next reg
  load_rest next (err e) = err e

  -- The loop over the lines; `n` counts those read before.
  unfoldable pub load_from : ℕ → List (List ℕ) → Registry → Result LoadError Registry
  unfolding load_line
  load_from n [] reg = ok reg
  load_from n (line ∷ lines) reg =
      let t = trim_space line in
      let skipped = load_from (n + 1) lines reg in
      let read = load_rest (load_from (n + 1) lines) (load_line (n + 1) reg (decode t)) in
      if is_skipped t then skipped else read

  unfoldable pub load_jsonl : List (List ℕ) → Result LoadError Registry
  unfolding load_from
  load_jsonl lines = load_from 0 lines (record { all = []; by_id = [] })

unfoldable pub find : Registry → String → Option User
find reg id = lookup id reg.by_id
