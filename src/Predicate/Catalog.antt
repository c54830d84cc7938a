-- ===== src/Predicate/Catalog.antt =====
-- The catalog that the browser sees (internal/predicate/catalog.go): `BuildCatalog` and
-- `sortByOrder`.
use mathlib.Core.List.{reverse}
use json_scanner.Base.{
  ℕ, ◌+◌, String, Bool, Option, none, some, List, [], ◌∷◌, ◌++◌, ◌==◌, map, length, ltb,
  if◌then◌else◌,
}
use json_scanner.Base.Dict.{Dict, lookup, insert}
use json_scanner.Predicate.Registry.{Feature, Operator, Operand, features, operators}
use json_scanner.Predicate.Matrix.{compatibility, build_operands}

pub record CatFeature : Type 0 where
  pub id : String
  pub label : String
  pub category : String
  pub sortable : Bool
  pub operator_ids : List String

pub record CatOperator : Type 0 where
  pub id : String
  pub label : String

pub record CatOperand : Type 0 where
  pub id : String
  pub label : String
  pub category : String

pub record Catalog : Type 0 where
  pub version : ℕ
  pub features : List CatFeature
  pub operators : List CatOperator
  pub operands : List CatOperand
  pub compatibility : Dict (Dict (List String))
  pub sort_features : List String

-- `order[id]`, which is 0 where the id is not there.
abbrev pub or_zero : Option ℕ → ℕ
or_zero none = 0
or_zero (some n) = n

unfoldable pub order_of : Dict ℕ → String → ℕ
order_of order id = or_zero (lookup id order)

-- The inner loop: `before` is the sorted part, its end first, and `id` sinks into it.
unfoldable pub sink : Dict ℕ → String → List String → List String
sink order id [] = id ∷ []
sink order id (last ∷ before) =
    let deeper = sink order id before in
    if ltb (order_of order id) (order_of order last) then last ∷ deeper else id ∷ last ∷ before

unfoldable pub sort_from : Dict ℕ → List String → List String → List String
sort_from order before [] = reverse before
sort_from order before (id ∷ ids) = sort_from order (sink order id before) ids

unfoldable pub sort_by_order : List String → Dict ℕ → List String
unfolding sort_from
sort_by_order ids order = sort_from order [] ids

-- `operandOrder`
unfoldable pub order_from : ℕ → List Operand → Dict ℕ → Dict ℕ
order_from i [] order = order
order_from i (o ∷ os) order = order_from (i + 1) os (insert o.id i order)

abbrev pub set_ids : Dict (Unit {0}) → List String
set_ids = map (λ e. e.0)

-- The loop over the operators: the ids it appends ...
abbrev pub with_id : String → Option (Dict (Unit {0})) → List String → List String
with_id id none rest = rest
with_id id (some set) rest = id ∷ rest

unfoldable pub operator_ids : Dict (Dict (Unit {0})) → List Operator → List String
operator_ids ops [] = []
operator_ids ops (op ∷ rest) = with_id op.id (lookup op.id ops) (operator_ids ops rest)

-- ... and `byOp`.
abbrev pub with_operands :
    Dict ℕ → String → Option (Dict (Unit {0})) → Dict (List String) → Dict (List String)
with_operands order id none by = by
with_operands order id (some set) by = insert id (sort_by_order (set_ids set) order) by

unfoldable pub by_operator :
    Dict ℕ → Dict (Dict (Unit {0})) → List Operator → Dict (List String) → Dict (List String)
by_operator order ops [] by = by
by_operator order ops (op ∷ rest) by =
    by_operator order ops rest (with_operands order op.id (lookup op.id ops) by)

abbrev pub or_none : Option (Dict (Dict (Unit {0}))) → Dict (Dict (Unit {0}))
or_none none = []
or_none (some ops) = ops

-- One feature: it is left out where no comparison is legal.
unfoldable pub add_feature : Dict ℕ → Dict (Dict (Unit {0})) → Feature → Catalog → Catalog
unfolding operator_ids by_operator
add_feature order ops f c = if length ops == 0 then c else record c {
  features =
      c.features
      ++ (record {
        id = f.id;
        label = f.label;
        category = f.category;
        sortable = f.sortable;
        operator_ids = operator_ids ops operators;
      }
          ∷ []);
  compatibility = insert f.id (by_operator order ops operators []) c.compatibility;
  sort_features = if f.sortable then c.sort_features ++ (f.id ∷ []) else c.sort_features;
}

unfoldable pub add_features : Dict ℕ → List Feature → Catalog → Catalog
unfolding add_feature
add_features order [] c = c
add_features order (f ∷ fs) c =
    add_features order fs (add_feature order (or_none (lookup f.id compatibility)) f c)

abbrev pub cat_operator : Operator → CatOperator
cat_operator op = record { id = op.id; label = op.label }

abbrev pub cat_operand : Operand → CatOperand
cat_operand o = record { id = o.id; label = o.label; category = o.category }

unfoldable pub build_catalog : Catalog
unfolding order_from add_features build_operands
build_catalog =
    let order = order_from 0 build_operands [] in
    let empty : Catalog = record {
      version = 1;
      features = [];
      operators = [];
      operands = [];
      compatibility = [];
      sort_features = [];
    } in
    record (add_features order features empty) {
      operators = map cat_operator operators;
      operands = map cat_operand build_operands;
    }
