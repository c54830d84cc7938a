-- ===== src/Predicate/Compile.antt =====
-- The compiler from a study definition to SQL (internal/predicate/compile.go).
-- SHA-256 with its hexadecimal print is the parameter `sha256_hex`.
use Prim.Native.String.{len}
use json_scanner.Base.{
  ℕ, ◌+◌, ◌-◌, String, not, Option, none, some, List, [], ◌∷◌, ◌||◌, ◌+s◌, ◌=s=◌, ◌==◌, ltb, length,
  if◌then◌else◌,
}
use json_scanner.Base.Result.{Result, ok, err, ◌>>=◌, ◌>>◌, require}
use json_scanner.Base.Text.{codes, codes_eq, to_lower, decimal}
use json_scanner.Predicate.Registry.{Feature, Operator, Operand}
use json_scanner.Predicate.Matrix.{feature_by_id, operator_by_id, operand_by_id, allowed}

pub record Rule : Type 0 where
  pub left_id : String
  pub operator_id : String
  pub right_id : String

pub record Sort : Type 0 where
  pub feature_id : String
  pub direction : String

pub record Definition : Type 0 where
  pub version : ℕ
  pub name : String
  pub universe_id : String
  pub rules : List Rule
  pub connectors : List String
  pub sort : Sort

pub record Compiled : Type 0 where
  pub where_sql : String
  pub order_by : String
  pub select_sql : String
  pub digest : String

-- One constructor for each message; `panic` is an index out of range.
pub data CompileError : Type 0 where
  unsupported_version : ℕ → CompileError
  name_too_long no_rules too_many_rules connectors_mismatch panic : CompileError
  unknown_feature unknown_operator unknown_operand : String → CompileError
  incompatible : String → String → String → CompileError
  no_prior_bar : String → String → CompileError
  unknown_connector : String → CompileError
  not_sortable : String → CompileError
  bad_direction : String → CompileError
  in_rule : ℕ → CompileError → CompileError

abbrev pub max_rules : ℕ
max_rules = 16

abbrev pub max_name_len : ℕ
max_name_len = 120

abbrev pub or_err : {A : Type 0} → Option A → CompileError → Result CompileError A
or_err none e = err e
or_err (some a) e = ok a

-- The SQL of a rule whose three identifiers are known and allowed together.
unfoldable pub emit : Feature → Operator → Operand → Result CompileError String
emit f op o =
    if op.cross || op.down
    then (if f.prev_expr =s= "" || o.prev_expr =s= ""
        then err (no_prior_bar f.id o.id)
        else (let now = if op.down then "<" else ">" in
            let prev = if op.down then ">=" else "<=" in
            ok (
              "(" +s f.sql_expr +s " " +s now +s " " +s o.sql_expr +s " AND " +s f.prev_expr +s " "
              +s prev +s " " +s o.prev_expr +s ")")))
    else ok (f.sql_expr +s " " +s op.sql +s " " +s o.sql_expr)

unfoldable pub compile_predicate : Rule → Result CompileError String
compile_predicate r = do
  f ← or_err (feature_by_id r.left_id) (unknown_feature r.left_id)
  op ← or_err (operator_by_id r.operator_id) (unknown_operator r.operator_id)
  o ← or_err (operand_by_id r.right_id) (unknown_operand r.right_id)
  require (allowed f.id op.id o.id) (incompatible f.id op.id o.id)
  emit f op o

unfoldable pub compile_connector : String → Result CompileError String
compile_connector c =
    if c =s= "and" then ok "AND" else if c =s= "or" then ok "OR" else err (unknown_connector c)

-- The `switch` on the direction, for a feature that is an approved sort field.
unfoldable pub sort_clause : Feature → String → Result CompileError String
sort_clause f direction =
    if codes_eq (to_lower (codes direction)) (codes "asc")
    then ok (f.sql_expr +s " ASC")
    else if codes_eq (to_lower (codes direction)) (codes "desc")
    then ok (f.sql_expr +s " DESC")
    else err (bad_direction direction)

unfoldable pub compile_sort : Sort → Result CompileError String
compile_sort s = do
  f ← or_err (feature_by_id s.feature_id) (not_sortable s.feature_id)
  require f.sortable (not_sortable s.feature_id)
  sort_clause f s.direction

-- An error of the rule at index `i` is reported with the number `i + 1`.
abbrev pub wrap_rule : {A : Type 0} → ℕ → Result CompileError A → Result CompileError A
wrap_rule i (ok p) = ok p
wrap_rule i (err e) = err (in_rule (i + 1) e)

-- The loop over the rules, from index `i`.
unfoldable pub compile_rules : ℕ → List Rule → Result CompileError (List String)
compile_rules i [] = ok []
compile_rules i (r ∷ rs) = do
  p ← wrap_rule i (compile_predicate r)
  ps ← compile_rules (i + 1) rs
  ok (p ∷ ps)

-- The loop that joins `predicates[i]` to the expression by `connectors[i - 1]`.
unfoldable pub join_rest : String → List String → List String → Result CompileError String
join_rest expr cs [] = ok expr
join_rest expr [] (p ∷ ps) = err panic
join_rest expr (c ∷ cs) (p ∷ ps) = do
  conn ← compile_connector c
  join_rest ("(" +s expr +s " " +s conn +s " " +s p +s ")") cs ps

unfoldable pub join_all : List String → List String → Result CompileError String
unfolding join_rest
join_all cs [] = err panic
join_all cs (p ∷ ps) = join_rest p cs ps

-- The tests that stand before any identifier is looked at.
unfoldable pub check_shape : Definition → Result CompileError (Unit {0})
check_shape d =
    let n = length d.rules in
    if not (d.version == 1)
    then err (unsupported_version d.version)
    else if ltb max_name_len (len d.name)
    then err name_too_long
    else if n == 0
    then err no_rules
    else if ltb max_rules n
    then err too_many_rules
    else if not (length d.connectors == n - 1)
    then err connectors_mismatch
    else ok tt

unfoldable pub select_text : String → String → ℕ → String
select_text expr order limit =
    "SELECT symbol FROM snapshot WHERE "
    +s expr
    +s " ORDER BY "
    +s order
    +s " LIMIT "
    +s decimal limit

unfoldable pub hash : (String → String) → String → String → String
hash sha256_hex universe sql = sha256_hex ("compiler:v1\nuniverse:" +s universe +s "\n" +s sql)

unfoldable pub compile : (String → String) → Definition → ℕ → Result CompileError Compiled
compile sha256_hex d limit = do
  check_shape d
  predicates ← compile_rules 0 d.rules
  expr ← join_all d.connectors predicates
  order ← compile_sort d.sort
  let sel = select_text expr order limit
  ok (record {
    where_sql = expr;
    order_by = order;
    select_sql = sel;
    digest = hash sha256_hex d.universe_id sel;
  })
