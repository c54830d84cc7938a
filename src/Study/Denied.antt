-- ===== src/Study/Denied.antt =====
-- What the clause denylist lets through.
use json_scanner.Base.{
  ℕ, String, ◌≡◌, ◌↔◌, inl, inr, refl, true, false, none, List, [], ◌∷◌, ◌++◌, arith, All,
  Bool-cases,
}
use mathlib.Core.List.{map-append}
use json_scanner.Base.Text.{codes, has_prefix, has_infix, to_lower}
use json_scanner.Study.Clause.{denied, first_denied, validate_clause}

-- No denied word stands in the lower-cased clause, and no semicolon in the clause.
pub record IsClean (clause : List ℕ) : Type 0 where
  pub semicolon : has_infix clause (codes ";") ≡ false
  pub words : All (λ w. has_infix (to_lower clause) (codes w) ≡ false) denied

first_denied_iff :
    (lower : List ℕ) (words : List String)
    → (first_denied lower words ≡ none) ↔ All (λ w. has_infix lower (codes w) ≡ false) words
unfolding first_denied
first_denied_iff lower [] = ((λ h. tt), (λ h. refl))
first_denied_iff lower (w ∷ ws) =
    let ih = first_denied_iff lower ws in
    elim (Bool-cases (has_infix lower (codes w))) [
      | inl e ↦ ((λ h. absurd (ground arith)), (λ h. absurd (ground arith)))
      | inr e ↦ ((λ h. (e, ih.0 (rw e at h))), (λ h. rw e (ih.1 h.1)))
    ]

validate_clause-IsClean : (clause : List ℕ) → validate_clause clause ≡ none → IsClean clause
unfolding validate_clause
validate_clause-IsClean clause h = elim (Bool-cases (has_infix clause (codes ";"))) [
  | inl e ↦ absurd (ground arith)
  | inr e ↦ record {
    semicolon = e;
    words = (first_denied_iff (to_lower clause) denied).0 (ground arith);
  }
]

IsClean-validate_clause : (clause : List ℕ) → IsClean clause → validate_clause clause ≡ none
unfolding validate_clause
IsClean-validate_clause clause c =
    rw c.semicolon ((first_denied_iff (to_lower clause) denied).1 c.words)

-- A clause passes exactly when it holds no semicolon and, in lower case, none of the denied words.
pub validate_clause_iff : (clause : List ℕ) → (validate_clause clause ≡ none) ↔ IsClean clause
validate_clause_iff clause = (validate_clause-IsClean clause, IsClean-validate_clause clause)

has_prefix-append : (s t c : List ℕ) → has_prefix s t ≡ true → has_prefix (s ++ c) t ≡ true
has_prefix-append s [] c h = refl
has_prefix-append [] (y ∷ t) c h = cc
has_prefix-append (x ∷ s) (y ∷ t) c h = ground (arith, has_prefix-append s t c)

has_prefix-has_infix : (s t : List ℕ) → has_prefix s t ≡ true → has_infix s t ≡ true
has_prefix-has_infix [] t h = h
has_prefix-has_infix (x ∷ s) t h = rw h

has_infix-append_right : (s t c : List ℕ) → has_infix s t ≡ true → has_infix (s ++ c) t ≡ true
has_infix-append_right [] t c h = has_prefix-has_infix c t (has_prefix-append [] t c h)
has_infix-append_right (x ∷ s) t c h = elim (Bool-cases (has_prefix (x ∷ s) t)) [
  | inl e ↦ has_prefix-has_infix (x ∷ (s ++ c)) t (has_prefix-append (x ∷ s) t c e)
  | inr e ↦ has_infix-cons x (s ++ c) t (has_infix-append_right s t c (rw e at h))
]
  where
    has_infix-cons : (y : ℕ) (r u : List ℕ) → has_infix r u ≡ true → has_infix (y ∷ r) u ≡ true
    has_infix-cons y r u q = elim (Bool-cases (has_prefix (y ∷ r) u)) [
      | inl e ↦ rw e
      | inr e ↦ rw e q
    ]

has_infix-append_left : (a s t : List ℕ) → has_infix s t ≡ true → has_infix (a ++ s) t ≡ true
has_infix-append_left [] s t h = h
has_infix-append_left (x ∷ a) s t h = elim (Bool-cases (has_prefix (x ∷ (a ++ s)) t)) [
  | inl e ↦ rw e
  | inr e ↦ rw e (has_infix-append_left a s t h)
]

part_misses : (a b c t : List ℕ) → has_infix (a ++ (b ++ c)) t ≡ false → has_infix b t ≡ false
part_misses a b c t h = elim (Bool-cases (has_infix b t)) [
  | inl e ↦ absurd (cc (has_infix-append_left a (b ++ c) t (has_infix-append_right b t c e)))
  | inr e ↦ e
]

parts_miss :
    (a b c : List ℕ) (words : List String)
    → All (λ w. has_infix (a ++ (b ++ c)) (codes w) ≡ false) words
    → All (λ w. has_infix b (codes w) ≡ false) words
parts_miss a b c [] h = tt
parts_miss a b c (w ∷ ws) h = (part_misses a b c (codes w) h.0, parts_miss a b c ws h.1)

to_lower-append₃ :
    (a b c : List ℕ) → to_lower (a ++ (b ++ c)) ≡ to_lower a ++ (to_lower b ++ to_lower c)
unfolding to_lower
to_lower-append₃ a b c = simp map-append

-- Every part of a clause that passes would pass on its own.
pub validate_clause-part :
    (a b c : List ℕ) → validate_clause (a ++ (b ++ c)) ≡ none → validate_clause b ≡ none
validate_clause-part a b c h =
    let whole = validate_clause-IsClean (a ++ (b ++ c)) h in
    IsClean-validate_clause b (record {
      semicolon = part_misses a b c (codes ";") whole.semicolon;
      words =
          parts_miss (to_lower a) (to_lower b) (to_lower c) denied
            (rw (to_lower-append₃ a b c) at whole.words);
    })
