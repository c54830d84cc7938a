-- ===== src/Subscription/Lines.antt =====
-- `splitLines` and `trimSpace` of internal/study/subscription.go, over the bytes of a text.
use json_scanner.Base.{
  ℕ, ◌≡◌, inl, inr, refl, sym, ◌∙◌, ap, Bool, true, false, ◌||◌, List, [], ◌∷◌, ◌++◌, ◌==◌,
  if◌then◌else◌, Bool-cases,
}
use mathlib.Core.List.{reverse, append-nil, append_assoc}

-- The three bytes that a line is trimmed of.
unfoldable pub is_blank : ℕ → Bool
is_blank c = c == b' ' || c == 13 || c == 9

-- `for len(s) > 0 && ... { s = s[1:] }`
unfoldable pub trim_left : List ℕ → List ℕ
trim_left [] = []
trim_left (c ∷ s) = let rest = trim_left s in if is_blank c then rest else c ∷ s

-- The two loops; the second works from the end.
unfoldable pub trim_line : List ℕ → List ℕ
unfolding trim_left
trim_line s = reverse (trim_left (reverse (trim_left s)))

abbrev pub is_empty : List ℕ → Bool
is_empty [] = true
is_empty (c ∷ s) = false

-- `lines = append(lines, line)` unless the trimmed line is empty.
unfoldable pub push_line : List ℕ → List (List ℕ) → List (List ℕ)
push_line raw lines = if is_empty (trim_line raw) then lines else lines ++ (trim_line raw ∷ [])

-- The loop over the bytes: `raw` is `s[start:i]`.
unfoldable pub split_from : List ℕ → List (List ℕ) → List ℕ → List (List ℕ)
unfolding push_line
split_from raw lines [] = if is_empty raw then lines else push_line raw lines
split_from raw lines (c ∷ s) =
    let line_ends = split_from [] (push_line raw lines) s in
    let line_goes_on = split_from (raw ++ (c ∷ [])) lines s in
    if c == 10 then line_ends else line_goes_on

unfoldable pub split_lines : List ℕ → List (List ℕ)
unfolding split_from
split_lines s = split_from [] [] s

-- The specification: the text cut at each newline.
pub extend : ℕ → List (List ℕ) → List (List ℕ)
extend c [] = (c ∷ []) ∷ []
extend c (p ∷ ps) = (c ∷ p) ∷ ps

pub pieces : List ℕ → List (List ℕ)
pieces [] = [] ∷ []
pieces (c ∷ s) = let rest = pieces s in if c == 10 then [] ∷ rest else extend c rest

-- The pieces, trimmed, without those that are empty then.
pub trimmed : List (List ℕ) → List (List ℕ)
trimmed [] = []
trimmed (p ∷ ps) =
    let rest = trimmed ps in if is_empty (trim_line p) then rest else trim_line p ∷ rest

-- `raw` stands before the first piece.
attach : List ℕ → List (List ℕ) → List (List ℕ)
attach raw [] = raw ∷ []
attach raw (p ∷ ps) = (raw ++ p) ∷ ps

attach-extend :
    (raw : List ℕ) (c : ℕ) (ps : List (List ℕ))
    → attach raw (extend c ps) ≡ attach (raw ++ (c ∷ [])) ps
unfolding attach extend
attach-extend raw c [] = refl
attach-extend raw c (p ∷ ps) = rw (append_assoc raw (c ∷ []) p)

attach-nil_extend : (c : ℕ) (ps : List (List ℕ)) → attach [] (extend c ps) ≡ extend c ps
unfolding attach extend
attach-nil_extend c [] = refl
attach-nil_extend c (p ∷ ps) = refl

attach-nil : (s : List ℕ) → attach [] (pieces s) ≡ pieces s
unfolding pieces
attach-nil [] = unfold attach in refl
attach-nil (c ∷ s) = elim (Bool-cases (c == 10)) [
  | inl e ↦ rw e (unfold attach in refl)
  | inr e ↦ rw e (attach-nil_extend c (pieces s))
]

push_line-append :
    (raw : List ℕ) (lines ps : List (List ℕ))
    → push_line raw lines ++ trimmed ps ≡ lines ++ trimmed (raw ∷ ps)
unfolding push_line trimmed
push_line-append raw lines ps = elim (Bool-cases (is_empty (trim_line raw))) [
  | inl e ↦ rw e refl
  | inr e ↦ rw e (append_assoc lines (trim_line raw ∷ []) (trimmed ps))
]

split_from_lem :
    (raw : List ℕ) (lines : List (List ℕ)) (s : List ℕ)
    → split_from raw lines s ≡ lines ++ trimmed (attach raw (pieces s))
unfolding split_from pieces trimmed
split_from_lem [] lines [] = unfold attach trimmed trim_line trim_left in sym (append-nil lines)
split_from_lem (x ∷ raw) lines [] =
    unfold attach in
    rw append-nil
      (sym (append-nil (push_line (x ∷ raw) lines)) ∙ push_line-append (x ∷ raw) lines [])
split_from_lem raw lines (c ∷ s) = elim (Bool-cases (c == 10)) [
  | inl e ↦ rw e (
      split_from_lem [] (push_line raw lines) s
      ∙ (rw (attach-nil s)
          (unfold attach in rw append-nil (push_line-append raw lines (pieces s)))))
  | inr e ↦ rw e (rw (attach-extend raw c (pieces s)) (split_from_lem (raw ++ (c ∷ [])) lines s))
]

-- The lines of a text are the pieces between its newlines, each without blanks at its ends, less
-- those that are empty then.
pub split_lines_lem : (s : List ℕ) → split_lines s ≡ trimmed (pieces s)
unfolding split_lines
split_lines_lem s = split_from_lem [] [] s ∙ ap trimmed (attach-nil s)
