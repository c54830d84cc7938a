-- ===== src/Roles.antt =====
-- Roles and their limits (internal/roles/roles.go): the reading side of the store. The columns that
-- hold JSON are texts, and the decoders are parameters.
use json_scanner.Base.{
  String, Bool, false, Option, none, some, List, [], ◌=s=◌, contains, find_first, if◌then◌else◌,
}
use json_scanner.Base.Int.{ℤ, pos}
use json_scanner.Base.Result.{Result, ok, err}

pub record Limits : Type 0 where
  pub api_calls_per_minute : ℤ
  pub api_calls_per_hour : ℤ
  pub api_calls_per_day : ℤ
  pub max_studies : ℤ
  pub max_saved_results : ℤ
  pub max_groups : ℤ
  pub max_group_members : ℤ
  pub replay_days : ℤ
  pub max_symbols_per_scan : ℤ
  pub export_max_results : ℤ

-- Go's zero value.
abbrev pub zero_limits : Limits
zero_limits = record {
  api_calls_per_minute = pos 0;
  api_calls_per_hour = pos 0;
  api_calls_per_day = pos 0;
  max_studies = pos 0;
  max_saved_results = pos 0;
  max_groups = pos 0;
  max_group_members = pos 0;
  replay_days = pos 0;
  max_symbols_per_scan = pos 0;
  export_max_results = pos 0;
}

pub record RoleRow : Type 0 where
  pub id : String
  pub capabilities_json : String
  pub limits_json : String
  pub bypass_throttling : Bool

pub record Role : Type 0 where
  pub id : String
  pub capabilities : List String
  pub limits : Limits
  pub bypass_throttling : Bool

pub record Decoders : Type 0 where
  pub capabilities : String → Option (List String)
  pub limits : String → Option Limits

pub data RoleError : Type 0 where
  roles_unavailable : RoleError

abbrev pub or_else : {A : Type 0} → Option A → A → A
or_else none d = d
or_else (some a) d = a

-- A column that does not decode is left empty.
unfoldable pub role_of : Decoders → RoleRow → Role
role_of dec r = record {
  id = r.id;
  capabilities = or_else (dec.capabilities r.capabilities_json) [];
  limits = or_else (dec.limits r.limits_json) zero_limits;
  bypass_throttling = r.bypass_throttling;
}

found_role : Decoders → Option RoleRow → Option Role
unfolding role_of
found_role dec none = none
found_role dec (some r) = some (role_of dec r)

-- `Get`: a missing role is no error.
unfoldable pub get : Decoders → Bool → List RoleRow → String → Result RoleError (Option Role)
unfolding found_role
get dec up rows id =
    if up then ok (found_role dec (find_first (λ r. r.id =s= id) rows)) else err roles_unavailable

capable : String → Option Role → Bool
capable c none = false
capable c (some r) = contains (λ x. x =s= c) r.capabilities

unfoldable pub then_capable : String → Result RoleError (Option Role) → Result RoleError Bool
unfolding capable
then_capable c (ok r) = ok (capable c r)
then_capable c (err e) = err e

unfoldable pub has_capability :
    Decoders → Bool → List RoleRow → String → String → Result RoleError Bool
unfolding get then_capable
has_capability dec up rows id c = then_capable c (get dec up rows id)
