-- ===== src/Study/Load.antt =====
-- What `LoadJSONL` of internal/study/study.go returns.
use json_scanner.Base.{
  ℕ, ◌+◌, ◌≡◌, ◌≢◌, inl, inr, refl, sym, ap, All, ◌∙◌, Option, none, some, List, [], ◌∷◌, ◌++◌,
  eq_iff, arith, if◌then◌else◌, Bool-cases, Option-cases,
}
use mathlib.Core.List.{append-nil, append_assoc}
use mathlib.Core.Path.{subst}
use json_scanner.Base.Result.{Result, ok, err}
use json_scanner.Base.Text.{trim_space}
use json_scanner.Study.Access.{Study, with_defaults, load_from, load_jsonl, is_skipped}

-- The fields that a missing value leaves open are filled.
pub record IsFilled (s : Study) : Type 0 where
  pub owner : s.owner ≢ ""
  pub tier : s.tier ≢ ""
  pub visibility : s.visibility ≢ ""

with_defaults-IsFilled : (s : Study) → IsFilled (with_defaults s)
unfolding with_defaults
with_defaults-IsFilled s = record {
  owner = ground (arith, eq_iff s.owner "", eq_iff "global" "");
  tier = ground (arith, eq_iff s.tier "", eq_iff "free" "");
  visibility = ground (arith, eq_iff s.visibility "", eq_iff "public" "", eq_iff "private" "");
}

module _ (decode : List ℕ → Option Study) where
  -- The studies that the lines describe, in order: what a load without an error returns.
  pub studies_of : List (List ℕ) → List Study
  studies_of [] = []
  studies_of (line ∷ lines) =
      let rest = studies_of lines in
      let t = trim_space line in
      if is_skipped t
      then rest
      else elim (decode t) [ none ↦ rest | some s ↦ with_defaults s ∷ rest ]

  -- The number of the first line that is neither skipped nor decoded, if there is one.
  pub first_bad : ℕ → List (List ℕ) → Option ℕ
  first_bad n [] = none
  first_bad n (line ∷ lines) =
      let rest = first_bad (n + 1) lines in
      let t = trim_space line in
      if is_skipped t then rest else elim (decode t) [ none ↦ some (n + 1) | some s ↦ rest ]

  -- The outcome that the two describe.
  abbrev pub outcome : Option ℕ → List Study → Result ℕ (List Study)
  outcome none ss = ok ss
  outcome (some n) ss = err n

  load_from_lem :
      (n : ℕ) (lines : List (List ℕ)) (out : List Study)
      → load_from decode n lines out ≡ outcome (first_bad n lines) (out ++ studies_of lines)
  unfolding load_from first_bad studies_of
  load_from_lem n [] out = rw append-nil
  load_from_lem n (line ∷ lines) out = elim (Bool-cases (is_skipped (trim_space line))) [
    | inl e ↦ rw e (load_from_lem (n + 1) lines out)
    | inr e ↦ elim (Option-cases (decode (trim_space line))) [
      | inl q ↦ rw (e, q) refl
      | inr (s, q) ↦
          rw (e, q)
            (load_from_lem (n + 1) lines (out ++ (with_defaults s ∷ []))
              ∙ ap (outcome (first_bad (n + 1) lines))
                  (append_assoc out (with_defaults s ∷ []) (studies_of lines)))
    ]
  ]

  -- A load returns the studies of the decoded lines, in order and with their defaults filled; or,
  -- where some line that is neither blank nor a comment does not decode, the first such line's
  -- number and no study.
  pub load_jsonl_lem :
      (lines : List (List ℕ))
      → load_jsonl decode lines ≡ outcome (first_bad 0 lines) (studies_of lines)
  unfolding load_jsonl
  load_jsonl_lem lines = load_from_lem 0 lines []

  studies_of-IsFilled : (lines : List (List ℕ)) → All IsFilled (studies_of lines)
  unfolding studies_of
  studies_of-IsFilled [] = tt
  studies_of-IsFilled (line ∷ lines) =
      let ih = studies_of-IsFilled lines in
      elim (Bool-cases (is_skipped (trim_space line))) [
        | inl e ↦ rw e ih
        | inr e ↦ elim (Option-cases (decode (trim_space line))) [
          | inl q ↦ rw (e, q) ih
          | inr (s, q) ↦ rw (e, q) (with_defaults-IsFilled s, ih)
        ]
      ]

  outcome-eq-ok : (o : Option ℕ) (ss out : List Study) → outcome o ss ≡ ok out → ss ≡ out
  outcome-eq-ok none ss out h = cc
  outcome-eq-ok (some n) ss out h = cc

  -- No study of a successful load lacks an owner, a tier or a visibility.
  pub load_jsonl-IsFilled :
      (lines : List (List ℕ)) (ss : List Study) → load_jsonl decode lines ≡ ok ss → All IsFilled ss
  load_jsonl-IsFilled lines ss h =
      subst (All IsFilled)
        (outcome-eq-ok (first_bad 0 lines) (studies_of lines) ss (sym (load_jsonl_lem lines) ∙ h))
        (studies_of-IsFilled lines)
