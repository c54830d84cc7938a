-- ===== src/Snapshot/Query.antt =====
-- `Run` of internal/snapshot/snapshot.go: the SQL texts that a study makes. A text is its bytes.
-- What SQLite answers to a text, for a date and the rows of the table, is the parameter `engine`.
use json_scanner.Base.{ℕ, Bool, List, [], ◌++◌, ◌=s=◌, ltb, if◌then◌else◌}
use json_scanner.Base.Text.{codes, codes_eq, decimal, trim_space}
use json_scanner.Base.Result.{Result, err}
use json_scanner.Snapshot.Store.{SnapRow, Db, SnapError, invalid_sql}
use json_scanner.Study.Access.{Study}

pub record Engine (D M : Type 0) : Type 0 where
  pub explain : List ℕ → ℕ → List (SnapRow D) → Bool  -- does EXPLAIN accept the text?
  pub matches : List ℕ → ℕ → List (SnapRow D) → Result SnapError (List M)

unfoldable pub where_text : Study → List ℕ
unfolding trim_space
where_text s = let t = trim_space (codes s.where_sql) in if codes_eq t [] then codes "1=1" else t

unfoldable pub order_text : Study → List ℕ
order_text s = if s.order_by =s= "" then [] else codes " ORDER BY " ++ codes s.order_by

abbrev pub limit_text : ℕ → List ℕ
limit_text n = codes " LIMIT " ++ codes (decimal n)

-- The text that is only explained: it reads no row where the study has no limit.
unfoldable pub test_text : Study → List ℕ
unfolding where_text order_text
test_text s =
    codes "SELECT 1 FROM snapshot WHERE snapshot_date = ? AND ("
    ++ (where_text s
        ++ (codes ")"
            ++ (order_text s ++ (if ltb 0 s.limit then limit_text s.limit else codes " LIMIT 0"))))

unfoldable pub query_text : Study → List ℕ
unfolding where_text order_text
query_text s =
    codes
      "SELECT symbol, close, rsi14, ret_3m, dollar_vol FROM snapshot WHERE snapshot_date = ? AND ("
    ++ (where_text s
        ++ (codes ")" ++ (order_text s ++ (if ltb 0 s.limit then limit_text s.limit else []))))

unfoldable pub run : {D M : Type 0} → Engine D M → Study → Db D → Result SnapError (List M)
unfolding test_text query_text
run engine s db =
    if engine.explain (test_text s) db.active_date db.rows
    then engine.matches (query_text s) db.active_date db.rows
    else err invalid_sql
