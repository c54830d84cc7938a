-- ===== src/Examples/Studies.antt =====
-- Study definitions, clauses, files and readers (internal/predicate, internal/study).
use json_scanner.Base.{
  ℕ, String, ◌≡◌, refl, ◌↔◌, Bool, true, false, Option, none, some, List, [], ◌∷◌, ◌++◌, In,
  if◌then◌else◌,
}
use json_scanner.Base.Text.{codes, codes_eq, to_lower, decimal, trim_space}
use json_scanner.Base.Result.{ok}
use json_scanner.Predicate.Matrix.{feature_by_id, operator_by_id, operand_by_id, allowed}
use json_scanner.Predicate.Compile.{
  Rule, Definition, Compiled, compile, compile_predicate, compile_connector, compile_rules,
  join_all, check_shape, compile_sort, sort_clause, emit, select_text, hash,
}
use json_scanner.Predicate.Vocabulary.{compile_predicate-ok_iff}
use json_scanner.Predicate.Meaning.{Sql, Prints, eval, top_to_bottom, compile_meaning}
use json_scanner.Predicate.Valid.{IsValid, compile-ok_iff}
use json_scanner.User.{User}
use json_scanner.Study.Access.{Study, accessible, load_jsonl, with_defaults}
use json_scanner.Study.Visible.{MayRun, accessible_iff}
use json_scanner.Study.Clause.{validate_clause}

abbrev above_sma : Rule
above_sma = record { left_id = "close"; operator_id = "above"; right_id = "o_sma_200" }

abbrev crossed_30 : Rule
crossed_30 = record { left_id = "rsi_14"; operator_id = "crossed_above"; right_id = "rsi_30" }

abbrev pullback : Definition
pullback = record {
  version = 1;
  name = "pullback";
  universe_id = "us";
  rules = above_sma ∷ crossed_30 ∷ [];
  connectors = "and" ∷ [];
  sort = record { feature_id = "dollar_vol"; direction = "DESC" };
}

abbrev no_hash : String → String
no_hash s = s

abbrev pullback_where : String
pullback_where = "(close > sma200 AND (rsi14 > 30 AND prev_rsi14 <= 30))"

abbrev pullback_select : String
pullback_select =
    "SELECT symbol FROM snapshot WHERE (close > sma200 AND (rsi14 > 30 AND prev_rsi14 <= 30)) ORDER BY dollar_vol DESC LIMIT 50"

abbrev pullback_compiled : Compiled
pullback_compiled = record {
  where_sql = pullback_where;
  order_by = "dollar_vol DESC";
  select_sql = pullback_select;
  digest =
      "compiler:v1\nuniverse:us\nSELECT symbol FROM snapshot WHERE (close > sma200 AND (rsi14 > 30 AND prev_rsi14 <= 30)) ORDER BY dollar_vol DESC LIMIT 50";
}

pullback_compiles : compile no_hash pullback 50 ≡ ok pullback_compiled
unfolding compile check_shape compile_rules compile_predicate feature_by_id operator_by_id
    operand_by_id allowed emit join_all compile_connector compile_sort sort_clause to_lower
    select_text hash decimal
pullback_compiles = refl

compile_meaning_example :
    (e : Sql) × Prints e pullback_where
    × ((holds : Rule → Bool)
        → eval holds e ≡ top_to_bottom holds pullback.connectors pullback.rules)
    × (pullback_select ≡ select_text pullback_where "dollar_vol DESC" 50)
    × (pullback_compiled.digest ≡ hash no_hash "us" pullback_select)
compile_meaning_example = compile_meaning no_hash pullback 50 pullback_compiled pullback_compiles

compile-ok_iff_example : ((c : Compiled) × (compile no_hash pullback 50 ≡ ok c)) ↔ IsValid pullback
compile-ok_iff_example = compile-ok_iff no_hash pullback 50

compile_predicate-ok_iff_example :
    ((s : String) × (compile_predicate crossed_30 ≡ ok s))
    ↔ (allowed "rsi_14" "crossed_above" "rsi_30" ≡ true)
compile_predicate-ok_iff_example = compile_predicate-ok_iff crossed_30

crossed_30_compiles : compile_predicate crossed_30 ≡ ok "(rsi14 > 30 AND prev_rsi14 <= 30)"
unfolding compile_predicate feature_by_id operator_by_id operand_by_id allowed emit
crossed_30_compiles = refl

abbrev study : String → String → String → String → Study
study o v g k = record {
  owner = o;
  visibility = v;
  group = g;
  tier = "free";
  key = k;
  title = "";
  emoji = "";
  where_sql = "";
  order_by = "";
  limit = 0;
}

abbrev shared : Study
shared = study "bob" "group" "desk" "shared"

abbrev hidden : Study
hidden = study "bob" "private" "" "hidden"

abbrev ann : User
ann = record {
  id = "ann";
  name = "Ann";
  tier = "free";
  role = "user";
  role_id = "";
  groups = "desk" ∷ [];
  pass_hash = "";
  pass_sha256 = "";
  disabled = false;
  nlp_enabled = true;
  nlp_daily_limit = 10;
}

accessible_iff_example :
    In shared (accessible (hidden ∷ shared ∷ []) ann)
    ↔ (In shared (hidden ∷ shared ∷ []) × MayRun ann shared)
accessible_iff_example = accessible_iff (hidden ∷ shared ∷ []) ann shared

-- A decoder for the example: the line "s" is a study with no owner, and no other line decodes.
abbrev decode_s : List ℕ → Option Study
decode_s t = if codes_eq t (codes "s") then some (study "" "" "" "s") else none

abbrev file : List (List ℕ)
file = codes "# studies" ∷ codes "  s " ∷ codes "" ∷ []

abbrev loaded : Study
loaded = study "global" "public" "" "s"

file_loads : load_jsonl decode_s file ≡ ok (loaded ∷ [])
unfolding load_jsonl trim_space with_defaults
file_loads = refl

passes : validate_clause (codes "rsi14" ++ (codes " < " ++ codes "30")) ≡ none
unfolding validate_clause to_lower
passes = refl
