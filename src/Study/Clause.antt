-- ===== src/Study/Clause.antt =====
-- `ValidateClause` of internal/study/study.go: a denylist over the letters of a clause.
use json_scanner.Base.{ℕ, String, Option, none, some, List, [], ◌∷◌, if◌then◌else◌}
use json_scanner.Base.Text.{codes, has_infix, to_lower}

abbrev pub denied : List String
denied =
    "--" ∷ "/*" ∷ "*/" ∷ "attach" ∷ "detach" ∷ "pragma" ∷ "load_extension" ∷ "union" ∷ "select"
    ∷ "insert" ∷ "delete" ∷ "update" ∷ "replace" ∷ "create" ∷ "drop" ∷ "alter" ∷ "exec" ∷ "trigger"
    ∷ "savepoint" ∷ []

-- The loop over the denied words: the first that occurs.
unfoldable pub first_denied : List ℕ → List String → Option String
first_denied lower [] = none
first_denied lower (bad ∷ words) =
    let rest = first_denied lower words in if has_infix lower (codes bad) then some bad else rest

-- `none` is no error; an error names the construct that is not allowed.
unfoldable pub validate_clause : List ℕ → Option String
unfolding first_denied
validate_clause clause =
    if has_infix clause (codes ";") then some ";" else first_denied (to_lower clause) denied
