-- ===== src/Predicate/Registry.antt =====
-- The closed vocabulary and the compatibility matrix (internal/predicate/registry.go).
-- A Go map built once from the registry is a `Dict`; the set of operands is a `Dict` of units.
use json_scanner.Base.{String, Bool, true, false, List, [], ◌∷◌}

pub record Feature : Type 0 where
  pub id : String
  pub label : String
  pub category : String
  pub sql_expr : String
  pub prev_expr : String
  pub sortable : Bool

pub record Operator : Type 0 where
  pub id : String
  pub label : String
  pub sql : String
  pub cross : Bool
  pub down : Bool

pub record Operand : Type 0 where
  pub id : String
  pub label : String
  pub category : String
  pub sql_expr : String
  pub prev_expr : String
  pub column : Bool

abbrev scalar_op : String → String → String → Operator
scalar_op i l s = record { id = i; label = l; sql = s; cross = false; down = false }

abbrev pub operators : List Operator
operators =
    scalar_op "above" "Is Above" ">"
    ∷ scalar_op "at_or_above" "Is At or Above" ">="
    ∷ scalar_op "below" "Is Below" "<"
    ∷ scalar_op "at_or_below" "Is At or Below" "<="
    ∷ record { id = "crossed_above"; label = "Crossed Above"; sql = ""; cross = true; down = false }
    ∷ record { id = "crossed_below"; label = "Crossed Below"; sql = ""; cross = false; down = true }
    ∷ []

abbrev pub scalar_ops : List String
scalar_ops = "above" ∷ "at_or_above" ∷ "below" ∷ "at_or_below" ∷ []

abbrev pub cross_ops : List String
cross_ops = "crossed_above" ∷ "crossed_below" ∷ []

abbrev feature : String → String → String → String → String → Bool → Feature
feature i l c s p o = record {
  id = i;
  label = l;
  category = c;
  sql_expr = s;
  prev_expr = p;
  sortable = o;
}

abbrev pub features : List Feature
features =
    feature "close" "Close" "Price" "close" "prev_close" true
    ∷ feature "high" "Day High" "Price" "high" "" false
    ∷ feature "low" "Day Low" "Price" "low" "" false
    ∷ feature "sma_50" "SMA(50)" "Trend" "sma50" "prev_sma50" true
    ∷ feature "sma_200" "SMA(200)" "Trend" "sma200" "prev_sma200" true
    ∷ feature "rsi_14" "RSI(14)" "Momentum" "rsi14" "prev_rsi14" true
    ∷ feature "ret_3m" "3-Month Return" "Performance" "ret_3m" "" true
    ∷ feature "dollar_vol" "Dollar Volume" "Liquidity" "dollar_vol" "" true
    ∷ feature "high_52w" "52-Week High" "Highs & Lows" "high_52w" "" false
    ∷ feature "low_52w" "52-Week Low" "Highs & Lows" "low_52w" "" false
    ∷ []

abbrev column : String → String → String → String → String → Operand
column i l c s p = record {
  id = i;
  label = l;
  category = c;
  sql_expr = s;
  prev_expr = p;
  column = true;
}

abbrev pub operand_columns : List Operand
operand_columns =
    column "o_close" "Close" "Price" "close" "prev_close"
    ∷ column "o_sma_50" "SMA(50)" "Trend" "sma50" "prev_sma50"
    ∷ column "o_sma_200" "SMA(200)" "Trend" "sma200" "prev_sma200"
    ∷ column "o_high_52w" "52-Week High" "Highs & Lows" "high_52w" "high_52w"
    ∷ column "o_low_52w" "52-Week Low" "Highs & Lows" "low_52w" "low_52w"
    ∷ []

pub record Preset : Type 0 where
  pub id : String
  pub label : String
  pub sql : String
  pub category : String

abbrev preset : String → String → String → String → Preset
preset i l s c = record { id = i; label = l; sql = s; category = c }

abbrev rsi_level : String → String → Preset
rsi_level i v = preset i v v "RSI Level"

abbrev pub rsi_levels : List Preset
rsi_levels =
    rsi_level "rsi_20" "20"
    ∷ rsi_level "rsi_25" "25"
    ∷ rsi_level "rsi_30" "30"
    ∷ rsi_level "rsi_35" "35"
    ∷ rsi_level "rsi_40" "40"
    ∷ rsi_level "rsi_50" "50"
    ∷ rsi_level "rsi_60" "60"
    ∷ rsi_level "rsi_65" "65"
    ∷ rsi_level "rsi_70" "70"
    ∷ rsi_level "rsi_75" "75"
    ∷ rsi_level "rsi_80" "80"
    ∷ []

abbrev pub price_levels : List Preset
price_levels =
    preset "price_1" "$1" "1" "Price"
    ∷ preset "price_2" "$2" "2" "Price"
    ∷ preset "price_5" "$5" "5" "Price"
    ∷ preset "price_10" "$10" "10" "Price"
    ∷ preset "price_20" "$20" "20" "Price"
    ∷ preset "price_50" "$50" "50" "Price"
    ∷ preset "price_100" "$100" "100" "Price"
    ∷ preset "price_200" "$200" "200" "Price"
    ∷ preset "price_500" "$500" "500" "Price"
    ∷ []

abbrev dollar_level : String → String → String → Preset
dollar_level i l v = preset i l v "Dollar Volume"

abbrev pub dollar_vol_levels : List Preset
dollar_vol_levels =
    dollar_level "dv_100k" "$100K" "100000"
    ∷ dollar_level "dv_500k" "$500K" "500000"
    ∷ dollar_level "dv_1m" "$1M" "1000000"
    ∷ dollar_level "dv_5m" "$5M" "5000000"
    ∷ dollar_level "dv_10m" "$10M" "10000000"
    ∷ dollar_level "dv_25m" "$25M" "25000000"
    ∷ dollar_level "dv_50m" "$50M" "50000000"
    ∷ dollar_level "dv_100m" "$100M" "100000000"
    ∷ dollar_level "dv_250m" "$250M" "250000000"
    ∷ dollar_level "dv_500m" "$500M" "500000000"
    ∷ dollar_level "dv_1b" "$1B" "1000000000"
    ∷ []

abbrev pub pct_levels : List Preset
pct_levels =
    preset "pct_neg50" "-50%" "-0.5" "Return"
    ∷ preset "pct_neg25" "-25%" "-0.25" "Return"
    ∷ preset "pct_neg20" "-20%" "-0.2" "Return"
    ∷ preset "pct_neg10" "-10%" "-0.1" "Return"
    ∷ preset "pct_neg5" "-5%" "-0.05" "Return"
    ∷ preset "pct_0" "0%" "0" "Return"
    ∷ preset "pct_5" "+5%" "0.05" "Return"
    ∷ preset "pct_10" "+10%" "0.1" "Return"
    ∷ preset "pct_20" "+20%" "0.2" "Return"
    ∷ preset "pct_25" "+25%" "0.25" "Return"
    ∷ preset "pct_50" "+50%" "0.5" "Return"
    ∷ preset "pct_100" "+100%" "1.0" "Return"
    ∷ []
