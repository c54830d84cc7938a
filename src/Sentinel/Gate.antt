-- ===== src/Sentinel/Gate.antt =====
-- `Tier0` and `Counts` of internal/sentinel/sentinel.go.
use json_scanner.Base.{
  ℕ, suc, String, Bool, true, false, not, ◌&&◌, Option, none, some, List, [], ◌∷◌, ltb, ◌==◌,
  if◌then◌else◌,
}
use json_scanner.Indicators.{Number, ◌/f◌}
use json_scanner.Screen.Row.{SnapshotRow}

pub data Severity : Type 0 where
  suspect : Severity
  watch : Severity

pub record Flag (W : Type 0) : Type 0 where
  pub symbol : String
  pub severity : Severity
  pub reason : String
  pub ret_3m : W
  pub dollar_vol : W
  pub ratio200 : W

pub record Tier0Config (W : Type 0) : Type 0 where
  pub extreme_ret : W
  pub suspect_ret : W
  pub thin_dollar_vol : W

abbrev pub is_suspect : Severity → Bool
is_suspect suspect = true
is_suspect watch = false

abbrev pub sev_rank : Severity → ℕ
sev_rank suspect = 0
sev_rank watch = 1

abbrev pub count_flag : Severity → ℕ × ℕ → ℕ × ℕ
count_flag suspect (s, w) = (suc s, w)
count_flag watch (s, w) = (s, suc w)

module _ {W : Type 0} ⦃num : Number W⦄ where
  abbrev pub default_tier0 : Tier0Config W
  default_tier0 = record {
    extreme_ret = num.of_nat 1;
    suspect_ret = num.of_nat 2;
    thin_dollar_vol = num.of_nat 5000000;
  }

  abbrev pub ratio_of : SnapshotRow W → W
  ratio_of r =
      if not (num.is_nan r.sma200) && num.lt (num.of_nat 0) r.sma200
      then r.close /f r.sma200
      else num.nan

  abbrev pub flag : Severity → String → SnapshotRow W → Flag W
  flag sev reason r = record {
    symbol = r.symbol;
    severity = sev;
    reason = reason;
    ret_3m = r.ret_3m;
    dollar_vol = r.dollar_vol;
    ratio200 = ratio_of r;
  }

  -- The cases of the loop's `switch`.
  abbrev pub is_suspect_row : Tier0Config W → SnapshotRow W → Bool
  is_suspect_row cfg r = num.le cfg.suspect_ret r.ret_3m && num.lt r.dollar_vol cfg.thin_dollar_vol

  abbrev pub is_extreme_row : Tier0Config W → SnapshotRow W → Bool
  is_extreme_row cfg r = num.le cfg.extreme_ret r.ret_3m

  unfoldable pub flag_of : Tier0Config W → SnapshotRow W → Option (Flag W)
  flag_of cfg r =
      if num.is_nan r.ret_3m
      then none
      else if is_suspect_row cfg r
      then some (
          flag suspect
            "extreme 3-mo move on thin liquidity — likely uncaught split or illiquid print" r)
      else if is_extreme_row cfg r
      then some (flag watch "extreme 3-mo move — verify catalyst / corporate action" r)
      else none

  abbrev pub add_flag : Option (Flag W) → List (Flag W) → List (Flag W)
  add_flag none flags = flags
  add_flag (some f) flags = f ∷ flags

  unfoldable pub flags_of : Tier0Config W → List (SnapshotRow W) → List (Flag W)
  unfolding flag_of
  flags_of cfg [] = []
  flags_of cfg (r ∷ rows) = add_flag (flag_of cfg r) (flags_of cfg rows)

  -- The order of the sort: whether the first flag comes before the second.
  abbrev pub is_before : Flag W → Flag W → Bool
  is_before a b =
      if sev_rank a.severity == sev_rank b.severity
      then num.lt b.ret_3m a.ret_3m
      else ltb (sev_rank a.severity) (sev_rank b.severity)

  -- The stable sort.
  unfoldable pub place : Flag W → List (Flag W) → List (Flag W)
  place x [] = x ∷ []
  place x (y ∷ ys) = let later = place x ys in if is_before y x then y ∷ later else x ∷ y ∷ ys

  unfoldable pub sort_flags : List (Flag W) → List (Flag W)
  unfolding place
  sort_flags [] = []
  sort_flags (x ∷ xs) = place x (sort_flags xs)

  unfoldable pub tier0 : List (SnapshotRow W) → Tier0Config W → List (Flag W)
  unfolding flags_of sort_flags
  tier0 rows cfg = sort_flags (flags_of cfg rows)

  abbrev pub count_from : List (Flag W) → ℕ × ℕ → ℕ × ℕ
  count_from [] n = n
  count_from (f ∷ flags) n = count_from flags (count_flag f.severity n)

  unfoldable pub counts : List (Flag W) → ℕ × ℕ
  counts flags = count_from flags (0, 0)
