-- ===== src/Examples/Editor.antt =====
-- The editor's catalog (internal/predicate/catalog.go).
use json_scanner.Base.{ℕ, String, ◌≡◌, ◌↔◌, true, [], ◌∷◌}
use json_scanner.Base.Dict.{Dict}
use json_scanner.Base.Result.{ok}
use json_scanner.Predicate.Compile.{Rule, compile_predicate}
use json_scanner.Predicate.Catalog.{build_catalog}
use json_scanner.Predicate.Offered.{offers, offers-compiles_iff}

abbrev golden_cross : Rule
golden_cross = record { left_id = "sma_50"; operator_id = "crossed_above"; right_id = "o_sma_200" }

offers-compiles_iff_example :
    (offers build_catalog "sma_50" "crossed_above" "o_sma_200" ≡ true)
    ↔ ((s : String) × (compile_predicate golden_cross ≡ ok s))
offers-compiles_iff_example = offers-compiles_iff golden_cross

abbrev places : Dict ℕ
places = ("a", 0) ∷ ("b", 1) ∷ ("c", 2) ∷ []
