-- ===== src/Examples/People.antt =====
-- A file of one user (internal/user/user.go).
use json_scanner.Base.{ℕ, ◌≡◌, refl, true, false, Option, none, some, List, [], ◌∷◌, if◌then◌else◌}
use json_scanner.Base.Dict.{insert}
use json_scanner.Base.Result.{ok}
use json_scanner.Base.Text.{codes, codes_eq, trim_space}
use json_scanner.User.{User}
use json_scanner.User.Registry.{Registry, load_jsonl, with_defaults}

abbrev ann : User
ann = record {
  id = "ann";
  name = "Ann";
  tier = "";
  role = "";
  role_id = "";
  groups = [];
  pass_hash = "";
  pass_sha256 = "";
  disabled = false;
  nlp_enabled = true;
  nlp_daily_limit = 10;
}

abbrev ann_filled : User
ann_filled = record ann { tier = "free"; role = "user" }

-- A decoder for the example: it knows the line "ann".
abbrev decode_user : List ℕ → Option User
decode_user t = if codes_eq t (codes "ann") then some ann else none

abbrev registry : Registry
registry = record { all = ann_filled ∷ []; by_id = ("ann", ann_filled) ∷ [] }

people_load : load_jsonl decode_user (codes "# people" ∷ codes " ann" ∷ []) ≡ ok registry
unfolding load_jsonl with_defaults trim_space insert
people_load = refl
