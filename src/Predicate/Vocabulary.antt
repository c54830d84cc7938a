-- ===== src/Predicate/Vocabulary.antt =====
-- The lookup tables and the matrix against the compiler of one rule: which rules compile, and
-- to what (internal/predicate/registry.go, compilePredicate of internal/predicate/compile.go).
use json_scanner.Base.{
  String, ◌≡◌, refl, sym, ◌∙◌, ap, ◌↔◌, ◌⊎◌, inl, inr, Bool, true, false, ◌&&◌, Option, none, some,
  List, [], ◌∷◌, ◌=s=◌, eq_iff, arith, if◌then◌else◌, Bool-cases, In,
}
use json_scanner.Base.Dict.{Dict, lookup, insert, lookup-insert}
use json_scanner.Base.Result.{Result, ok, err, require, >>=-eq-ok}
use json_scanner.Predicate.Registry.{Feature, Operator, Operand, features, operators}
use json_scanner.Predicate.Matrix.{
  feature_by_id, operator_by_id, operand_by_id, allowed, compatibility, allowed_op, allowed_operand,
  index_from, index, build_operands, is_in_set,
}
use json_scanner.Predicate.Compile.{Rule, CompileError, compile_predicate, emit, or_err}

-- An entry of the lookup table is an item of the vocabulary, under its own key.
module _ {A : Type 0} (key : A → String) where
  insert-source :
      (k : String) (a x : A) (m : Dict A)
      → lookup k (insert (key x) x m) ≡ some a
      → ((x ≡ a) × (key a ≡ k)) ⊎ (lookup k m ≡ some a)
  insert-source k a x m h = split (Bool-cases (key x =s= k)) (sym (lookup-insert (key x) k x m) ∙ h)
    where
      split :
          ((key x =s= k) ≡ true) ⊎ ((key x =s= k) ≡ false)
          → (if key x =s= k then some x else lookup k m) ≡ some a
          → ((x ≡ a) × (key a ≡ k)) ⊎ (lookup k m ≡ some a)
      split (inl e) q =
          let p : x ≡ a = cc (rw e at q) in inl (p, ap key (sym p) ∙ (eq_iff (key x) k).0 e)
      split (inr e) q = inr (rw e at q)

  index_from-source :
      (k : String) (a : A) (m : Dict A) (xs : List A)
      → lookup k (index_from key m xs) ≡ some a
      → (In a xs × (key a ≡ k)) ⊎ (lookup k m ≡ some a)
  unfolding index_from
  index_from-source k a m [] h = inr h
  index_from-source k a m (x ∷ xs) h = elim (index_from-source k a (insert (key x) x m) xs h) [
    | inl (i, e) ↦ inl (inr i, e)
    | inr q ↦ elim (insert-source k a x m q) [ inl (p, e) ↦ inl (inl p, e) | inr old ↦ inr old ]
  ]

  pub index-source :
      (k : String) (a : A) (xs : List A) → lookup k (index xs key) ≡ some a → In a xs × (key a ≡ k)
  unfolding index lookup
  index-source k a xs h = elim (index_from-source k a [] xs h) [ inl p ↦ p | inr q ↦ cc ]

feature_by_id-source :
    (k : String) (f : Feature) → feature_by_id k ≡ some f → In f features × (f.id ≡ k)
unfolding feature_by_id
feature_by_id-source k f h = index-source (λ g. g.id) k f features h

operator_by_id-source :
    (k : String) (op : Operator) → operator_by_id k ≡ some op → In op operators × (op.id ≡ k)
unfolding operator_by_id
operator_by_id-source k op h = index-source (λ g. g.id) k op operators h

operand_by_id-source :
    (k : String) (o : Operand) → operand_by_id k ≡ some o → In o build_operands × (o.id ≡ k)
unfolding operand_by_id
operand_by_id-source k o h = index-source (λ g. g.id) k o build_operands h

-- What `compile_predicate` has looked up when it succeeds.
pub record Compiles (r : Rule) (s : String) : Type 0 where
  pub feature : Feature
  pub operator : Operator
  pub operand : Operand
  pub feature_listed : In feature features × (feature.id ≡ r.left_id)
  pub operator_listed : In operator operators × (operator.id ≡ r.operator_id)
  pub operand_listed : In operand build_operands × (operand.id ≡ r.right_id)
  pub is_allowed : allowed r.left_id r.operator_id r.right_id ≡ true
  pub emitted : emit feature operator operand ≡ ok s

or_err-eq-ok :
    {A : Type 0} (o : Option A) (e : CompileError) {a : A} → or_err o e ≡ ok a → o ≡ some a
or_err-eq-ok none e h = cc
or_err-eq-ok (some b) e h = cc

require-eq-ok : {E : Type 0} (b : Bool) (e : E) {u : Unit {0}} → require b e ≡ ok u → b ≡ true
require-eq-ok true e h = refl
require-eq-ok false e h = cc

-- A rule that compiles names entries of the vocabulary that the matrix allows together, and its
-- SQL is what those entries emit.
pub compile_predicate-Compiles : (r : Rule) (s : String) → compile_predicate r ≡ ok s → Compiles r s
unfolding compile_predicate
compile_predicate-Compiles r s h =
    let (f, hf, h1) = >>=-eq-ok (or_err (feature_by_id r.left_id) _) _ h in
    let (op, hop, h2) = >>=-eq-ok (or_err (operator_by_id r.operator_id) _) _ h1 in
    let (o, ho, h3) = >>=-eq-ok (or_err (operand_by_id r.right_id) _) _ h2 in
    let (u, hu, h4) = >>=-eq-ok (require (allowed f.id op.id o.id) _) _ h3 in
    let f_listed = feature_by_id-source r.left_id f (or_err-eq-ok _ _ hf) in
    let op_listed = operator_by_id-source r.operator_id op (or_err-eq-ok _ _ hop) in
    let o_listed = operand_by_id-source r.right_id o (or_err-eq-ok _ _ ho) in
    record {
      feature = f;
      operator = op;
      operand = o;
      feature_listed = f_listed;
      operator_listed = op_listed;
      operand_listed = o_listed;
      is_allowed =
          rw (sym f_listed.1, sym op_listed.1, sym o_listed.1)
            (require-eq-ok (allowed f.id op.id o.id) _ hu);
      emitted = h4;
    }

-- A test of every entry of a table, and its meaning.
abbrev pub every : {V : Type 0} → (String → V → Bool) → Dict V → Bool
every p [] = true
every p ((k, v) ∷ m) = p k v && every p m

pub every-lookup :
    {V : Type 0} (p : String → V → Bool) (m : Dict V) (k : String) (v : V)
    → every p m ≡ true
    → lookup k m ≡ some v
    → p k v ≡ true
unfolding lookup
every-lookup p [] k v h q = cc
every-lookup p ((j, w) ∷ m) k v h q = ground (arith, eq_iff j k, every-lookup p m k v)

abbrev is_ok : {A : Type 0} → Result CompileError A → Bool
is_ok (ok a) = true
is_ok (err e) = false

is_ok-value : {A : Type 0} (r : Result CompileError A) → is_ok r ≡ true → (a : A) × (r ≡ ok a)
is_ok-value (ok a) h = (a, refl)
is_ok-value (err e) h = cc

compiles_ids : String → String → String → Bool
compiles_ids f op o =
    is_ok (compile_predicate (record { left_id = f; operator_id = op; right_id = o }))

-- Every entry of the matrix compiles, by running the compiler on each.
matrix_compiles :
    every (λ f ops. every (λ op os. every (λ o u. compiles_ids f op o) os) ops) compatibility ≡ true
unfolding compiles_ids compile_predicate feature_by_id operator_by_id operand_by_id allowed emit
matrix_compiles = refl

-- The three nested lookups of `allowed`, taken apart.
pub allowed_entries :
    (f op o : String)
    → allowed f op o ≡ true
    → (ops : Dict (Dict (Unit {0}))) × (os : Dict (Unit {0})) × (u : Unit {0}) × (lookup f
          compatibility
        ≡ some ops)
      × (lookup op ops ≡ some os)
      × (lookup o os ≡ some u)
allowed_entries f op o h = by_ops (lookup f compatibility) refl (unfold allowed in h)
  where
    by_set :
        (set : Dict (Unit {0})) (found : Option (Unit {0}))
        → lookup o set ≡ found
        → is_in_set found ≡ true
        → (u : Unit {0}) × (lookup o set ≡ some u)
    by_set set none e q = cc
    by_set set (some u) e q = (u, e)

    by_operands :
        (ops : Dict (Dict (Unit {0}))) (found : Option (Dict (Unit {0})))
        → lookup op ops ≡ found
        → allowed_operand o found ≡ true
        → (os : Dict (Unit {0})) × (u : Unit {0}) × (lookup op ops ≡ some os)
          × (lookup o os ≡ some u)
    by_operands ops none e q = absurd (unfold allowed_operand in cc)
    by_operands ops (some os) e q =
        let (u, hu) = by_set os (lookup o os) refl (unfold allowed_operand in q) in (os, u, e, hu)

    by_ops :
        (found : Option (Dict (Dict (Unit {0}))))
        → lookup f compatibility ≡ found
        → allowed_op op o found ≡ true
        → (ops : Dict (Dict (Unit {0}))) × (os : Dict (Unit {0})) × (u : Unit {0}) × (lookup f
              compatibility
            ≡ some ops)
          × (lookup op ops ≡ some os)
          × (lookup o os ≡ some u)
    by_ops none e q = absurd (unfold allowed_op in cc)
    by_ops (some ops) e q =
        let (os, u, hos, hu) = by_operands ops (lookup op ops) refl (unfold allowed_op in q) in
        (ops, os, u, e, hos, hu)

-- Every combination that the matrix allows compiles: the catalog offers no rule that the
-- compiler refuses, and no crossing of the matrix lacks a column of the prior bar.
allowed_compiles : (f op o : String) → allowed f op o ≡ true → compiles_ids f op o ≡ true
allowed_compiles f op o h =
    let (ops, os, u, hf, hop, ho) = allowed_entries f op o h in
    every-lookup (λ x y. compiles_ids f op x) os o u
      (every-lookup (λ x y. every (λ z w. compiles_ids f x z) y) ops op os
        (every-lookup _ compatibility f ops matrix_compiles hf) hop)
      ho

-- A rule compiles exactly when the matrix allows its feature, operator and operand together.
pub compile_predicate-ok_iff :
    (r : Rule)
    → ((s : String) × (compile_predicate r ≡ ok s))
      ↔ (allowed r.left_id r.operator_id r.right_id ≡ true)
compile_predicate-ok_iff r = (
  (λ (s, h). (compile_predicate-Compiles r s h).is_allowed),
  (λ h.
      is_ok-value (compile_predicate r)
        (unfold compiles_ids in allowed_compiles r.left_id r.operator_id r.right_id h)),
)
