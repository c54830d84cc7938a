-- ===== src/Predicate/Meaning.antt =====
-- What the WHERE text of a compiled study means: a syntax tree of rules that the text prints,
-- and its value against a top-to-bottom evaluation (Compile of internal/predicate/compile.go).
use json_scanner.Base.{
  ℕ, ◌+◌, String, ◌≡◌, refl, sym, ◌∙◌, Bool, true, ◌&&◌, ◌||◌, List, [], ◌∷◌, ◌+s◌, ◌=s=◌,
  if◌then◌else◌, ap, arith, inl, inr, Bool-cases,
}
use json_scanner.Base.Result.{Result, ok, err, >>=-eq-ok}
use json_scanner.Predicate.Compile.{
  Rule, Definition, Compiled, CompileError, compile_predicate, compile_connector, wrap_rule,
  compile_rules, join_rest, join_all, check_shape, compile_sort, compile, select_text, hash,
}

-- A boolean expression over rules. A join's right side is one rule: evaluation is top to bottom.
pub data Sql : Type 0 where
  atom : Rule → Sql
  conj disj : Sql → Rule → Sql

-- `Prints e s`: the text `s` is the expression `e` with a pair of parentheses for each join, a
-- conjunction written AND and a disjunction OR, and each rule in it as its own compiled text.
pub data Prints : Sql → String → Type 0 where
  prints_atom : {r : Rule} {p : String} → compile_predicate r ≡ ok p → Prints (atom r) p
  prints_conj :
      {e : Sql} {s : String} {r : Rule} {p : String}
      → Prints e s
      → compile_predicate r ≡ ok p
      → Prints (conj e r) ("(" +s s +s " " +s "AND" +s " " +s p +s ")")
  prints_disj :
      {e : Sql} {s : String} {r : Rule} {p : String}
      → Prints e s
      → compile_predicate r ≡ ok p
      → Prints (disj e r) ("(" +s s +s " " +s "OR" +s " " +s p +s ")")

-- What the identifier of a connector means.
abbrev pub connect : String → Bool → Bool → Bool
connect c a b = if c =s= "and" then a && b else a || b

pub eval : (Rule → Bool) → Sql → Bool
eval holds (atom r) = holds r
eval holds (conj e r) = eval holds e && holds r
eval holds (disj e r) = eval holds e || holds r

-- The specification: one rule after the other, each joined to all that stands above it.
pub eval_rest : (Rule → Bool) → Bool → List String → List Rule → Bool
eval_rest holds acc (c ∷ cs) (r ∷ rs) = eval_rest holds (connect c acc (holds r)) cs rs
eval_rest holds acc _ _ = acc

pub top_to_bottom : (Rule → Bool) → List String → List Rule → Bool
top_to_bottom holds cs [] = true
top_to_bottom holds cs (r ∷ rs) = eval_rest holds (holds r) cs rs

-- Each text of a list is the compiled text of the rule at its place.
abbrev pub AllCompiled : List Rule → List String → Type 0
AllCompiled [] [] = Unit
AllCompiled [] (p ∷ ps) = ⊥
AllCompiled (r ∷ rs) [] = ⊥
AllCompiled (r ∷ rs) (p ∷ ps) = (compile_predicate r ≡ ok p) × AllCompiled rs ps

wrap_rule-eq-ok :
    (i : ℕ) (m : Result CompileError String) {p : String} → wrap_rule i m ≡ ok p → m ≡ ok p
wrap_rule-eq-ok i (ok q) h = h
wrap_rule-eq-ok i (err e) h = cc

ok_inj : {a b : String} → ◌≡◌ {A = Result CompileError String} (ok a) (ok b) → a ≡ b
ok_inj h = cc

compile_rules-AllCompiled :
    (i : ℕ) (rs : List Rule) (ps : List String) → compile_rules i rs ≡ ok ps → AllCompiled rs ps
unfolding compile_rules
compile_rules-AllCompiled i [] [] h = tt
compile_rules-AllCompiled i [] (p ∷ ps) h = absurd (cc)
compile_rules-AllCompiled i (r ∷ rs) [] h =
    let (q, hq, h1) = >>=-eq-ok (wrap_rule i (compile_predicate r)) _ h in
    let (qs, hqs, h2) = >>=-eq-ok (compile_rules (i + 1) rs) _ h1 in absurd (cc)
compile_rules-AllCompiled i (r ∷ rs) (p ∷ ps) h =
    let (q, hq, h1) = >>=-eq-ok (wrap_rule i (compile_predicate r)) _ h in
    let (qs, hqs, h2) = >>=-eq-ok (compile_rules (i + 1) rs) _ h1 in
    (wrap_rule-eq-ok i _ hq ∙ (cc), compile_rules-AllCompiled (i + 1) rs ps (hqs ∙ (cc)))

abbrev join : String → Sql → Rule → Sql
join c e r = if c =s= "and" then conj e r else disj e r

eval-join :
    (holds : Rule → Bool) (c : String) (e : Sql) (r : Rule)
    → eval holds (join c e r) ≡ connect c (eval holds e) (holds r)
unfolding eval
eval-join holds c e r = elim (Bool-cases (c =s= "and")) [ inl q ↦ rw q refl | inr q ↦ rw q refl ]

Prints-join :
    (c conn : String) (e : Sql) (s : String) (r : Rule) (p : String)
    → compile_connector c ≡ ok conn
    → Prints e s
    → compile_predicate r ≡ ok p
    → Prints (join c e r) ("(" +s s +s " " +s conn +s " " +s p +s ")")
unfolding compile_connector
Prints-join c conn e s r p h pe pr = elim (Bool-cases (c =s= "and")) [
  | inl q ↦
      let is_and : conn ≡ "AND" = ok_inj (sym (rw q at h)) in rw (q, is_and) (prints_conj pe pr)
  | inr q ↦ elim (Bool-cases (c =s= "or")) [
    | inl t ↦
        let is_or : conn ≡ "OR" = ok_inj (sym (rw (q, t) at h)) in rw (q, is_or) (prints_disj pe pr)
    | inr t ↦ absurd (ground arith)
  ]
]

-- The tree that the joining loop builds from a tree and what is left.
grow : Sql → List String → List Rule → Sql
grow e (c ∷ cs) (r ∷ rs) = grow (join c e r) cs rs
grow e _ _ = e

join_rest-Prints :
    (e : Sql) (expr : String) (cs : List String) (rs : List Rule) (ps : List String) (s : String)
    → Prints e expr
    → AllCompiled rs ps
    → join_rest expr cs ps ≡ ok s
    → Prints (grow e cs rs) s
unfolding join_rest grow
join_rest-Prints e expr [] [] [] s p a h = rw (sym (ok_inj h)) p
join_rest-Prints e expr (c ∷ cs) [] [] s p a h = rw (sym (ok_inj h)) p
join_rest-Prints e expr cs [] (q ∷ qs) s p a h = elim a [ ]
join_rest-Prints e expr cs (r ∷ rs) [] s p a h = elim a [ ]
join_rest-Prints e expr [] (r ∷ rs) (q ∷ qs) s p a h = absurd (cc)
join_rest-Prints e expr (c ∷ cs) (r ∷ rs) (q ∷ qs) s p a h =
    let (conn, hc, h1) = >>=-eq-ok (compile_connector c) _ h in
    join_rest-Prints (join c e r) _ cs rs qs s (Prints-join c conn e expr r q hc p a.0) a.1 h1

eval-grow :
    (holds : Rule → Bool) (e : Sql) (cs : List String) (rs : List Rule)
    → eval holds (grow e cs rs) ≡ eval_rest holds (eval holds e) cs rs
unfolding grow eval_rest eval
eval-grow holds e [] [] = refl
eval-grow holds e (c ∷ cs) [] = refl
eval-grow holds e [] (r ∷ rs) = refl
eval-grow holds e (c ∷ cs) (r ∷ rs) =
    eval-grow holds (join c e r) cs rs ∙ ap (λ b. eval_rest holds b cs rs) (eval-join holds c e r)

join_all-Prints :
    (cs : List String) (rs : List Rule) (ps : List String) (s : String)
    → AllCompiled rs ps
    → join_all cs ps ≡ ok s
    → (e : Sql) × Prints e s × ((holds : Rule → Bool) → eval holds e ≡ top_to_bottom holds cs rs)
unfolding join_all top_to_bottom
join_all-Prints cs [] [] s a h = absurd (cc)
join_all-Prints cs [] (p ∷ ps) s a h = elim a [ ]
join_all-Prints cs (r ∷ rs) [] s a h = elim a [ ]
join_all-Prints cs (r ∷ rs) (p ∷ ps) s a h = (
  grow (atom r) cs rs,
  join_rest-Prints (atom r) p cs rs ps s (prints_atom a.0) a.1 h,
  (λ holds. unfold eval in eval-grow holds (atom r) cs rs),
)

-- What `compile` has done when it succeeds.
compile-parts :
    (sha : String → String) (d : Definition) (limit : ℕ) (c : Compiled)
    → compile sha d limit ≡ ok c
    → (ps : List String) × (compile_rules 0 d.rules ≡ ok ps)
      × (join_all d.connectors ps ≡ ok c.where_sql)
      × (compile_sort d.sort ≡ ok c.order_by)
      × (c.select_sql ≡ select_text c.where_sql c.order_by limit)
      × (c.digest ≡ hash sha d.universe_id c.select_sql)
unfolding compile
compile-parts sha d limit c h =
    let (u, hu, h1) = >>=-eq-ok (check_shape d) _ h in
    let (ps, hps, h2) = >>=-eq-ok (compile_rules 0 d.rules) _ h1 in
    let (ex, hex, h3) = >>=-eq-ok (join_all d.connectors ps) _ h2 in
    let (order, ho, h4) = >>=-eq-ok (compile_sort d.sort) _ h3 in (ps, hps, (cc), (cc), (cc), (cc))

-- The WHERE text of a study that compiles prints an expression in which each rule is its own
-- compiled text and each join is parenthesised, a conjunction with AND and a disjunction with OR;
-- for any truth of the rules the expression has
-- the value of joining the rules one after the other from the first; and the SELECT text and the
-- digest are made from that WHERE text and the ORDER BY text.
pub compile_meaning :
    (sha : String → String) (d : Definition) (limit : ℕ) (c : Compiled)
    → compile sha d limit ≡ ok c
    → (e : Sql) × Prints e c.where_sql
      × ((holds : Rule → Bool) → eval holds e ≡ top_to_bottom holds d.connectors d.rules)
      × (c.select_sql ≡ select_text c.where_sql c.order_by limit)
      × (c.digest ≡ hash sha d.universe_id c.select_sql)
compile_meaning sha d limit c h =
    let (ps, hps, hw, ho, hs, hd) = compile-parts sha d limit c h in
    let (e, pr, ev) =
      join_all-Prints d.connectors d.rules ps c.where_sql
        (compile_rules-AllCompiled 0 d.rules ps hps) hw in
    (e, pr, ev, hs, hd)
