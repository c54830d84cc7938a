-- ===== src/Predicate/Offered.antt =====
-- What the catalog offers (internal/predicate/catalog.go) against what the compiler accepts.
use json_scanner.Base.{
  String, ◌≡◌, refl, ◌↔◌, Bool, true, false, ◌&&◌, Option, none, some, List, [], ◌∷◌, ◌=s=◌, eq_iff,
  arith, contains,
}
use json_scanner.Base.Dict.{Dict, lookup}
use json_scanner.Base.Result.{ok}
use json_scanner.Predicate.Compile.{Rule, compile_predicate}
use json_scanner.Predicate.Matrix.{compatibility, allowed}
use json_scanner.Predicate.Vocabulary.{
  every, every-lookup, allowed_entries, compile_predicate-ok_iff,
}
use json_scanner.Predicate.Catalog.{Catalog, build_catalog, order_of, sink, sort_by_order}

-- The three lists that the editor steps through: features, a feature's operators, their operands.
abbrev operands_listed : String → Option (List String) → Bool
operands_listed o none = false
operands_listed o (some os) = contains (λ x. x =s= o) os

abbrev operators_listed : String → String → Option (Dict (List String)) → Bool
operators_listed op o none = false
operators_listed op o (some ops) = operands_listed o (lookup op ops)

unfoldable pub offers : Catalog → String → String → String → Bool
offers c f op o = operators_listed op o (lookup f c.compatibility)

abbrev every_id : (String → Bool) → List String → Bool
every_id p [] = true
every_id p (x ∷ xs) = p x && every_id p xs

every_id_sound :
    (p : String → Bool) (xs : List String) (o : String)
    → every_id p xs ≡ true
    → contains (λ x. x =s= o) xs ≡ true
    → p o ≡ true
every_id_sound p [] o h q = cc
every_id_sound p (x ∷ xs) o h q = ground (arith, eq_iff x o, every_id_sound p xs o)

-- Every combination of the catalog is one of the matrix, and the other way round, by running.
offered_table :
    every (λ f ops. every (λ op os. every_id (allowed f op) os) ops) build_catalog.compatibility
    ≡ true
unfolding build_catalog allowed sink sort_by_order lookup order_of
offered_table = refl

matrix_table :
    every
      (λ f ops. every (λ op os. every (λ o u. offers build_catalog f op o) os) ops)
      compatibility
    ≡ true
unfolding build_catalog compatibility sink sort_by_order lookup offers order_of
matrix_table = refl

offers-allowed : (f op o : String) → offers build_catalog f op o ≡ true → allowed f op o ≡ true
offers-allowed f op o h =
    by_feature (lookup f build_catalog.compatibility) refl (unfold offers in h)
  where
    by_operator_list :
        (ops : Dict (List String)) (found : Option (List String))
        → every (λ op' os. every_id (allowed f op') os) ops ≡ true
        → lookup op ops ≡ found
        → operands_listed o found ≡ true
        → allowed f op o ≡ true
    by_operator_list ops none t e q = cc
    by_operator_list ops (some os) t e q =
        every_id_sound (allowed f op) os o
          (every-lookup (λ x y. every_id (allowed f x) y) ops op os t e) q

    by_feature :
        (found : Option (Dict (List String)))
        → lookup f build_catalog.compatibility ≡ found
        → operators_listed op o found ≡ true
        → allowed f op o ≡ true
    by_feature none e q = cc
    by_feature (some ops) e q =
        by_operator_list ops (lookup op ops) (every-lookup _ _ f ops offered_table e) refl q

allowed-offers : (f op o : String) → allowed f op o ≡ true → offers build_catalog f op o ≡ true
allowed-offers f op o h =
    let (ops, os, u, hf, hop, ho) = allowed_entries f op o h in
    every-lookup (λ x y. offers build_catalog f op x) os o u
      (every-lookup (λ x y. every (λ z w. offers build_catalog f x z) y) ops op os
        (every-lookup _ compatibility f ops matrix_table hf) hop)
      ho

-- The editor is offered a feature, an operator and an operand together exactly when the rule made
-- of the three compiles.
pub offers-compiles_iff :
    (r : Rule)
    → (offers build_catalog r.left_id r.operator_id r.right_id ≡ true)
      ↔ ((s : String) × (compile_predicate r ≡ ok s))
offers-compiles_iff r = (
  (λ h. (compile_predicate-ok_iff r).1 (offers-allowed r.left_id r.operator_id r.right_id h)),
  (λ q. allowed-offers r.left_id r.operator_id r.right_id ((compile_predicate-ok_iff r).0 q)),
)
