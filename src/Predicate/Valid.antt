-- ===== src/Predicate/Valid.antt =====
-- Which definitions compile: an independent description of a valid study, and the error order
-- of `Compile` (internal/predicate/compile.go).
use Prim.Native.String.{len}
use json_scanner.Base.{
  ℕ, ◌+◌, ◌≤◌, String, ◌≡◌, ◌↔◌, ◌⊎◌, inl, inr, refl, ◌∙◌, Bool, true, false, Option, none, some,
  List, [], ◌∷◌, ◌=s=◌, ◌+s◌, eq_iff, arith, length, All, Bool-cases,
}
use json_scanner.Base.Result.{Result, ok, err, require, >>=-eq-ok}
use json_scanner.Base.Text.{codes, codes_eq, to_lower}
use json_scanner.Predicate.Registry.{Feature}
use json_scanner.Predicate.Matrix.{feature_by_id, allowed}
use json_scanner.Predicate.Compile.{
  Rule, Sort, Definition, Compiled, CompileError, compile_predicate, compile_connector,
  compile_rules, join_rest, join_all, check_shape, sort_clause, compile_sort, compile, max_rules,
  max_name_len, or_err, wrap_rule,
}
use json_scanner.Predicate.Vocabulary.{compile_predicate-ok_iff}

abbrev pub IsConnector : String → Type 0
IsConnector c = (c ≡ "and") ⊎ (c ≡ "or")

-- The three identifiers are a legal combination of the matrix.
abbrev pub IsAllowed : Rule → Type 0
IsAllowed r = allowed r.left_id r.operator_id r.right_id ≡ true

-- The direction is "asc" or "desc" in any case, and the feature is an approved sort field.
pub record IsSort (s : Sort) : Type 0 where
  pub feature : Feature
  pub is_known : feature_by_id s.feature_id ≡ some feature
  pub is_sortable : feature.sortable ≡ true
  pub direction :
      (codes_eq (to_lower (codes s.direction)) (codes "asc") ≡ true)
      ⊎ (codes_eq (to_lower (codes s.direction)) (codes "desc") ≡ true)

pub record IsValid (d : Definition) : Type 0 where
  pub version : d.version ≡ 1
  pub name : len d.name ≤ max_name_len
  pub few_rules : length d.rules ≤ max_rules
  pub one_between : length d.rules ≡ length d.connectors + 1
  pub rules : All IsAllowed d.rules
  pub connectors : All IsConnector d.connectors
  pub sort : IsSort d.sort

abbrev Succeeds : {A : Type 0} → Result CompileError A → Type 0
Succeeds {A} m = (a : A) × (m ≡ ok a)

check_shape_iff :
    (d : Definition)
    → (check_shape d ≡ ok tt) ↔ (
        (d.version ≡ 1)
        × (len d.name ≤ max_name_len)
        × (length d.rules ≤ max_rules)
        × (length d.rules ≡ length d.connectors + 1))
unfolding check_shape
check_shape_iff d = ((λ h. ground arith), (λ h. ground arith))

compile_connector_iff : (c : String) → Succeeds (compile_connector c) ↔ IsConnector c
unfolding compile_connector
compile_connector_iff c = (
  (λ (s, h). ground (arith, eq_iff c "and", eq_iff c "or")),
  (λ h. elim (Bool-cases (c =s= "and")) [
    | inl e ↦ ("AND", rw e)
    | inr e ↦ ("OR", ground (arith, eq_iff c "and", eq_iff c "or"))
  ]),
)

wrap_rule_iff : (i : ℕ) (m : Result CompileError String) → Succeeds (wrap_rule i m) ↔ Succeeds m
wrap_rule_iff i (ok p) = ((λ h. h), (λ h. h))
wrap_rule_iff i (err e) = ((λ (a, h). absurd (cc)), (λ (a, h). absurd (cc)))

compile_rules_sound : (i : ℕ) (rs : List Rule) → Succeeds (compile_rules i rs) → All IsAllowed rs
unfolding compile_rules
compile_rules_sound i [] h = tt
compile_rules_sound i (r ∷ rs) (ps, h) =
    let (q, hq, h1) = >>=-eq-ok (wrap_rule i (compile_predicate r)) _ h in
    let (qs, hqs, h2) = >>=-eq-ok (compile_rules (i + 1) rs) _ h1 in
    (
      (compile_predicate-ok_iff r).0 ((wrap_rule_iff i (compile_predicate r)).0 (q, hq)),
      compile_rules_sound (i + 1) rs (qs, hqs),
    )

compile_rules_complete :
    (i : ℕ) (rs : List Rule)
    → All IsAllowed rs
    → (ps : List String) × (compile_rules i rs ≡ ok ps) × (length ps ≡ length rs)
unfolding compile_rules
compile_rules_complete i [] h = ([], refl, refl)
compile_rules_complete i (r ∷ rs) h =
    let (p, hp) = (wrap_rule_iff i (compile_predicate r)).1 ((compile_predicate-ok_iff r).1 h.0) in
    let (ps, hps, hl) = compile_rules_complete (i + 1) rs h.1 in
    (p ∷ ps, rw hp (rw hps), omega (arith))

length-compile_rules :
    (i : ℕ) (rs : List Rule) (ps : List String) → compile_rules i rs ≡ ok ps → length ps ≡ length rs
unfolding compile_rules
length-compile_rules i [] [] h = refl
length-compile_rules i [] (p ∷ ps) h = absurd (cc)
length-compile_rules i (r ∷ rs) ps h =
    let (q, hq, h1) = >>=-eq-ok (wrap_rule i (compile_predicate r)) _ h in
    let (qs, hqs, h2) = >>=-eq-ok (compile_rules (i + 1) rs) _ h1 in
    let ih = length-compile_rules (i + 1) rs qs hqs in ground arith

join_rest_iff :
    (expr : String) (cs ps : List String)
    → length ps ≡ length cs
    → Succeeds (join_rest expr cs ps) ↔ All IsConnector cs
unfolding join_rest
join_rest_iff expr [] [] h = ((λ s. tt), (λ s. (expr, refl)))
join_rest_iff expr [] (p ∷ ps) h = absurd (omega arith)
join_rest_iff expr (c ∷ cs) [] h = absurd (omega arith)
join_rest_iff expr (c ∷ cs) (p ∷ ps) h = (
  (λ (s, q).
      let (conn, hc, h1) = >>=-eq-ok (compile_connector c) _ q in
      (
        (compile_connector_iff c).0 (conn, hc),
        (join_rest_iff ("(" +s expr +s " " +s conn +s " " +s p +s ")") cs ps (omega arith)).0
            (s, h1),
      )),
  (λ q.
      let (conn, hc) = (compile_connector_iff c).1 q.0 in
      let (s, hs) =
        (join_rest_iff ("(" +s expr +s " " +s conn +s " " +s p +s ")") cs ps (omega arith)).1 q.1 in
      (s, rw hc hs)),
)

join_all_iff :
    (cs ps : List String)
    → length ps ≡ length cs + 1
    → Succeeds (join_all cs ps) ↔ All IsConnector cs
unfolding join_all
join_all_iff cs [] h = absurd (omega arith)
join_all_iff cs (p ∷ ps) h = join_rest_iff p cs ps (omega arith)

or_err_iff : {A : Type 0} (o : Option A) (e : CompileError) {a : A} → or_err o e ≡ ok a → o ≡ some a
or_err_iff none e h = cc
or_err_iff (some b) e h = cc

require_iff : (b : Bool) (e : CompileError) {u : Unit {0}} → require b e ≡ ok u → b ≡ true
require_iff true e h = refl
require_iff false e h = cc

compile_sort_sound : (s : Sort) → Succeeds (compile_sort s) → IsSort s
unfolding compile_sort sort_clause
compile_sort_sound s (o, h) =
    let (f, hf, h1) = >>=-eq-ok (or_err (feature_by_id s.feature_id) _) _ h in
    let (u, hu, h2) = >>=-eq-ok (require f.sortable _) _ h1 in
    record {
      feature = f;
      is_known = or_err_iff _ _ hf;
      is_sortable = require_iff _ _ hu;
      direction = ground arith;
    }

compile_sort_complete : (s : Sort) → IsSort s → Succeeds (compile_sort s)
unfolding compile_sort sort_clause
compile_sort_complete s v = rw v.is_known (
    rw v.is_sortable (elim (Bool-cases (codes_eq (to_lower (codes s.direction)) (codes "asc"))) [
      | inl e ↦ (v.feature.sql_expr +s " ASC", rw e)
      | inr e ↦ (v.feature.sql_expr +s " DESC", ground arith)
    ]))

compile-IsValid :
    (sha : String → String) (d : Definition) (limit : ℕ)
    → Succeeds (compile sha d limit)
    → IsValid d
unfolding compile
compile-IsValid sha d limit (c, h) =
    let (u, hu, h1) = >>=-eq-ok (check_shape d) _ h in
    let (ps, hps, h2) = >>=-eq-ok (compile_rules 0 d.rules) _ h1 in
    let (ex, hex, h3) = >>=-eq-ok (join_all d.connectors ps) _ h2 in
    let (order, ho, h4) = >>=-eq-ok (compile_sort d.sort) _ h3 in
    let (v, n, few, one) = (check_shape_iff d).0 hu in
    record {
      version = v;
      name = n;
      few_rules = few;
      one_between = one;
      rules = compile_rules_sound 0 d.rules (ps, hps);
      connectors =
          (join_all_iff d.connectors ps (length-compile_rules 0 d.rules ps hps ∙ one)).0 (ex, hex);
      sort = compile_sort_sound d.sort (order, ho);
    }

IsValid-compile :
    (sha : String → String) (d : Definition) (limit : ℕ)
    → IsValid d
    → Succeeds (compile sha d limit)
unfolding compile
IsValid-compile sha d limit v =
    let shape = (check_shape_iff d).1 (v.version, v.name, v.few_rules, v.one_between) in
    let (ps, hps, hl) = compile_rules_complete 0 d.rules v.rules in
    let (ex, hex) = (join_all_iff d.connectors ps (hl ∙ v.one_between)).1 v.connectors in
    let (order, ho) = compile_sort_complete d.sort v.sort in
    rw shape (rw hps (rw hex (rw ho (_, refl))))

-- A definition compiles exactly when its version is 1, its name has at most 120 bytes, it has 1
-- to 16 rules with one connector between neighbours, each rule is a legal combination of the
-- matrix, each connector is "and" or "or", and the sort is by an approved field, "asc" or "desc"
-- in any letter case.
pub compile-ok_iff :
    (sha : String → String) (d : Definition) (limit : ℕ)
    → ((c : Compiled) × (compile sha d limit ≡ ok c)) ↔ IsValid d
compile-ok_iff sha d limit = (compile-IsValid sha d limit, IsValid-compile sha d limit)
