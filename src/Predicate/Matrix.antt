-- ===== src/Predicate/Matrix.antt =====
-- The operand list, the compatibility matrix and the lookup tables, which the source builds once
-- from the vocabulary (internal/predicate/registry.go).
use json_scanner.Base.{String, Bool, true, false, Option, none, some, List, [], ◌∷◌, ◌++◌, map}
use json_scanner.Base.Dict.{Dict, lookup, insert}
use json_scanner.Predicate.Registry.{
  Feature, Operator, Operand, Preset, features, operators, operand_columns, rsi_levels,
  price_levels, dollar_vol_levels, pct_levels, scalar_ops, cross_ops,
}

-- A preset as an operand: a literal does not change from bar to bar.
unfoldable pub operand_of : Preset → Operand
operand_of p = record {
  id = p.id;
  label = p.label;
  category = p.category;
  sql_expr = p.sql;
  prev_expr = p.sql;
  column = false;
}

unfoldable pub build_operands : List Operand
unfolding operand_of
build_operands =
    operand_columns
    ++ (map operand_of rsi_levels
        ++ (map operand_of price_levels
            ++ (map operand_of dollar_vol_levels ++ map operand_of pct_levels)))

-- The matrix: feature to operator to the set of operands.
abbrev pub Compat : Type 0
Compat = Dict (Dict (Dict (Unit {0})))

abbrev pub ids : List Preset → List String
ids = map (λ p. p.id)

-- `c[k]`, or the fresh map that the builder stores where it finds nil.
abbrev pub or_fresh {ℓ} : {V : Type ℓ} → Option (Dict V) → Dict V
or_fresh none = []
or_fresh (some m) = m

unfoldable pub allow_operands : List String → Dict (Unit {0}) → Dict (Unit {0})
unfolding insert
allow_operands [] set = set
allow_operands (o ∷ os) set = allow_operands os (insert o tt set)

unfoldable pub allow_ops :
    List String → List String → Dict (Dict (Unit {0})) → Dict (Dict (Unit {0}))
unfolding allow_operands lookup insert
allow_ops [] os m = m
allow_ops (op ∷ ops) os m =
    allow_ops ops os (insert op (allow_operands os (or_fresh (lookup op m))) m)

unfoldable pub allow : Compat → String → List String → List String → Compat
unfolding allow_ops lookup insert
allow c f ops os = insert f (allow_ops ops os (or_fresh (lookup f c))) c

unfoldable pub compatibility : Compat
unfolding allow
compatibility =
    let extremes = "o_sma_50" ∷ "o_sma_200" ∷ "o_high_52w" ∷ "o_low_52w" ∷ [] in
    let c1 = allow [] "close" scalar_ops (extremes ++ ids price_levels) in
    let c2 = allow c1 "close" cross_ops extremes in
    let c3 = allow c2 "high" scalar_ops ("o_high_52w" ∷ ids price_levels) in
    let c4 = allow c3 "low" scalar_ops ("o_low_52w" ∷ ids price_levels) in
    let c5 = allow c4 "sma_50" scalar_ops ("o_sma_200" ∷ "o_close" ∷ ids price_levels) in
    let c6 = allow c5 "sma_50" cross_ops ("o_sma_200" ∷ []) in
    let c7 = allow c6 "sma_200" scalar_ops ("o_sma_50" ∷ "o_close" ∷ ids price_levels) in
    let c8 = allow c7 "rsi_14" scalar_ops (ids rsi_levels) in
    let c9 = allow c8 "rsi_14" cross_ops (ids rsi_levels) in
    let c10 = allow c9 "ret_3m" scalar_ops (ids pct_levels) in
    allow c10 "dollar_vol" scalar_ops (ids dollar_vol_levels)

-- `index`: later items replace earlier ones of the same key.
module _ {A : Type 0} (key : A → String) where
  unfoldable pub index_from : Dict A → List A → Dict A
  unfolding insert
  index_from m [] = m
  index_from m (x ∷ xs) = index_from (insert (key x) x m) xs

unfoldable pub index : {A : Type 0} → List A → (A → String) → Dict A
unfolding index_from
index xs key = index_from key [] xs

unfoldable pub feature_by_id : String → Option Feature
unfolding index lookup
feature_by_id i = lookup i (index features (λ f. f.id))

unfoldable pub operator_by_id : String → Option Operator
unfolding index lookup
operator_by_id i = lookup i (index operators (λ o. o.id))

unfoldable pub operand_by_id : String → Option Operand
unfolding index lookup build_operands
operand_by_id i = lookup i (index build_operands (λ o. o.id))

-- Is a key of the set, of the set under the operator, of the matrix under the feature?
abbrev pub is_in_set : Option (Unit {0}) → Bool
is_in_set none = false
is_in_set (some u) = true

unfoldable pub allowed_operand : String → Option (Dict (Unit {0})) → Bool
unfolding lookup
allowed_operand o none = false
allowed_operand o (some set) = is_in_set (lookup o set)

unfoldable pub allowed_op : String → String → Option (Dict (Dict (Unit {0}))) → Bool
unfolding lookup allowed_operand
allowed_op op o none = false
allowed_op op o (some ops) = allowed_operand o (lookup op ops)

unfoldable pub allowed : String → String → String → Bool
unfolding lookup allowed_op compatibility
allowed f op o = allowed_op op o (lookup f compatibility)
