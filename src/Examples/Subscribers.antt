-- ===== src/Examples/Subscribers.antt =====
-- A store with one subscription (internal/study/subscription.go).
use json_scanner.Base.{◌≡◌, ◌≢◌, refl, true, false, some, List, [], ◌∷◌, arith}
use json_scanner.Base.Dict.{lookup}
use json_scanner.Subscription.Store.{Row, Store, has_row, is_subscribed, subscribe, open_store}
use json_scanner.Subscription.Shape.{IsShaped, subscribing}
use json_scanner.Subscription.Synced.{Agrees, subscribe_failed_disagrees}
use json_scanner.Subscription.Opened.{run_ops, rows_after_all, open_store-synced}

abbrev table : List Row
table = record { user_id = "ann"; study_key = "momentum" } ∷ []

abbrev store : Store
store = record { rows = some table; subs = ("ann", ("momentum", true) ∷ []) ∷ [] }

store-IsShaped : IsShaped store.subs
unfolding lookup
store-IsShaped = record { one_entry = (refl, tt); has_studies = (refl, tt) }

store-Agrees : Agrees table store
unfolding is_subscribed lookup
store-Agrees u k = ground arith

not_yet : is_subscribed store "bob" "momentum" ≡ false
unfolding is_subscribed lookup
not_yet = refl

subscribe_failed_disagrees_example :
    ((subscribe false "bob" "momentum" store).1 ≡ false)
    × ((subscribe false "bob" "momentum" store).0.rows ≡ some table)
    × (is_subscribed (subscribe false "bob" "momentum" store).0 "bob" "momentum"
        ≢ has_row "bob" "momentum" table)
subscribe_failed_disagrees_example =
    subscribe_failed_disagrees "bob" "momentum" store table refl store-Agrees not_yet

open_store-synced_example :
    ((run_ops (subscribing "bob" "value" ∷ []) (open_store (λ r. true) (some table) [])).rows
      ≡ some (rows_after_all (subscribing "bob" "value" ∷ []) table))
    × Agrees
        (rows_after_all (subscribing "bob" "value" ∷ []) table)
        (run_ops (subscribing "bob" "value" ∷ []) (open_store (λ r. true) (some table) []))
open_store-synced_example =
    open_store-synced (λ r. true) (record { user_id = "ann"; study_key = "momentum" }) [] []
      (subscribing "bob" "value" ∷ [])
