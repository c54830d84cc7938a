-- ===== src/Screen/Presets.antt =====
-- The predicates, presets and breadth of internal/screen/screen.go.
use json_scanner.Base.{
  ℕ, suc, String, Bool, true, false, not, ◌&&◌, Option, none, some, List, [], ◌∷◌, ltb, ◌==◌,
  length, select, if◌then◌else◌,
}
use json_scanner.Indicators.{Number, ◌*f◌, ◌/f◌}
use json_scanner.Results.Transfer.{take}
use json_scanner.Screen.Row.{SnapshotRow}

module _ {W : Type 0} ⦃num : Number W⦄ where
  unfoldable pub above_sma200 : SnapshotRow W → Bool
  above_sma200 r = num.lt r.sma200 r.close

  unfoldable pub above_sma50 : SnapshotRow W → Bool
  above_sma50 r = num.lt r.sma50 r.close

  unfoldable pub at_52w_high : SnapshotRow W → Bool
  at_52w_high r =
      if not (num.is_nan r.high_52w)
        && (num.lt (num.of_nat 0) r.high_52w && num.le r.high_52w r.close)
      then true
      else r.is_52w_high

  unfoldable pub at_52w_low : SnapshotRow W → Bool
  at_52w_low r =
      if not (num.is_nan r.low_52w) && (num.lt (num.of_nat 0) r.low_52w && num.le r.close r.low_52w)
      then true
      else r.is_52w_low

-- The emoji of a preset is for display and is left out. No `match` takes every row.
pub record Preset (W : Type 0) : Type 0 where
  pub key : String
  pub title : String
  pub match : Option (SnapshotRow W → Bool)
  pub metric : SnapshotRow W → W
  pub limit : ℕ

module _ {W : Type 0} ⦃num : Number W⦄ where
  abbrev pub matches : Option (SnapshotRow W → Bool) → SnapshotRow W → Bool
  matches none r = true
  matches (some f) r = f r

  -- The rows that the loop keeps.
  abbrev pub is_kept : Preset W → SnapshotRow W → Bool
  is_kept p r = matches p.match r && not (num.is_nan (p.metric r))

  -- The stable sort by the metric, highest first.
  unfoldable pub place :
      (SnapshotRow W → W) → SnapshotRow W → List (SnapshotRow W) → List (SnapshotRow W)
  place metric x [] = x ∷ []
  place metric x (y ∷ ys) =
      let later = place metric x ys in
      if num.lt (metric x) (metric y) then y ∷ later else x ∷ y ∷ ys

  unfoldable pub sort_rows : (SnapshotRow W → W) → List (SnapshotRow W) → List (SnapshotRow W)
  unfolding place
  sort_rows metric [] = []
  sort_rows metric (x ∷ xs) = place metric x (sort_rows metric xs)

  abbrev pub capped : ℕ → List (SnapshotRow W) → List (SnapshotRow W)
  capped limit rows = if ltb 0 limit && ltb limit (length rows) then take limit rows else rows

  unfoldable pub run : Preset W → List (SnapshotRow W) → List (SnapshotRow W)
  unfolding sort_rows
  run p rows = capped p.limit (sort_rows p.metric (select (is_kept p) rows))

  unfoldable pub mvp_presets : ℕ → ℕ → List (Preset W)
  unfolding at_52w_high
  mvp_presets top_n momentum_n =
      record {
        key = "new_52w_high";
        title = "New 52-Week Highs";
        match = some at_52w_high;
        metric = λ r. r.dollar_vol;
        limit = top_n;
      }
      ∷ record {
        key = "golden_cross";
        title = "Golden Cross Today";
        match = some (λ r. r.golden_cross);
        metric = λ r. r.dollar_vol;
        limit = top_n;
      }
      ∷ record {
        key = "oversold_bounce";
        title = "Oversold Bounce";
        match = some (λ r. r.oversold_bounce);
        metric = λ r. r.dollar_vol;
        limit = top_n;
      }
      ∷ record {
        key = "momentum_leaders";
        title = "Momentum Leaders (3-mo)";
        match = none;
        metric = λ r. r.ret_3m;
        limit = momentum_n;
      }
      ∷ []

pub record Breadth : Type 0 where
  pub total : ℕ
  pub with_sma200 : ℕ
  pub above_sma200 : ℕ
  pub with_sma50 : ℕ
  pub above_sma50 : ℕ
  pub new_52w_high : ℕ
  pub new_52w_low : ℕ

-- `x++` where a test holds.
abbrev pub plus_if : Bool → ℕ → ℕ
plus_if true n = suc n
plus_if false n = n

module _ {W : Type 0} ⦃num : Number W⦄ where
  -- The body of the loop.
  unfoldable pub tally : SnapshotRow W → Breadth → Breadth
  unfolding above_sma200 above_sma50 at_52w_high at_52w_low
  tally r b =
      let long = not (num.is_nan r.sma200) in
      let medium = not (num.is_nan r.sma50) in
      record {
        total = b.total;
        with_sma200 = plus_if long b.with_sma200;
        above_sma200 = plus_if (long && above_sma200 r) b.above_sma200;
        with_sma50 = plus_if medium b.with_sma50;
        above_sma50 = plus_if (medium && above_sma50 r) b.above_sma50;
        new_52w_high = plus_if (at_52w_high r) b.new_52w_high;
        new_52w_low = plus_if (at_52w_low r) b.new_52w_low;
      }

  unfoldable pub tally_all : List (SnapshotRow W) → Breadth → Breadth
  unfolding tally
  tally_all [] b = b
  tally_all (r ∷ rows) b = tally_all rows (tally r b)

  unfoldable pub compute_breadth : List (SnapshotRow W) → Breadth
  unfolding tally_all
  compute_breadth rows = tally_all rows (record {
    total = length rows;
    with_sma200 = 0;
    above_sma200 = 0;
    with_sma50 = 0;
    above_sma50 = 0;
    new_52w_high = 0;
    new_52w_low = 0;
  })

  unfoldable pub pct : ℕ → ℕ → W
  pct part whole =
      if whole == 0 then num.of_nat 0 else num.of_nat 100 *f num.of_nat part /f num.of_nat whole

  abbrev pub pct_above_200 : Breadth → W
  pct_above_200 b = pct b.above_sma200 b.with_sma200

  abbrev pub pct_above_50 : Breadth → W
  pct_above_50 b = pct b.above_sma50 b.with_sma50
