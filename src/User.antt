-- ===== src/User.antt =====
-- Identity: tiers, roles and group membership, and the JSONL registry (internal/user/user.go).
-- The JSON decoder of one line is the parameter `decode`. The digest of a password is an input.
pub mod Registry
pub mod Indexed
pub mod Store
pub mod Stored
pub mod Reopened
use json_scanner.Base.{ℕ, String, Bool, List, [], ◌∷◌, ◌=s=◌, contains, if◌then◌else◌}

pub record User : Type 0 where
  pub id : String
  pub name : String
  pub tier : String
  pub role : String
  pub role_id : String
  pub groups : List String
  pub pass_hash : String
  pub pass_sha256 : String
  pub disabled : Bool
  pub nlp_enabled : Bool
  pub nlp_daily_limit : ℕ

abbrev pub global_id : String
global_id = "global"

abbrev pub tier_free : String
tier_free = "free"

abbrev pub tier_pro : String
tier_pro = "pro"

abbrev pub role_user : String
role_user = "user"

abbrev pub role_admin : String
role_admin = "admin"

-- `Tier.Rank`
unfoldable pub rank : String → ℕ
rank t = if t =s= tier_pro then 1 else 0

unfoldable pub is_admin : User → Bool
is_admin u = u.role =s= role_admin

-- The loop of `InGroup`.
unfoldable pub in_group : User → String → Bool
in_group u g = contains (λ x. x =s= g) u.groups
