-- ===== src/Examples/Teams.antt =====
-- A group of one member (internal/groups/groups.go).
use json_scanner.Base.{◌≡◌, refl, true, false, none, some, [], ◌∷◌}
use json_scanner.Groups.Store.{Group, GroupStore, statement_failed}
use json_scanner.Groups.Members.{removing, run_group_op}
use json_scanner.Groups.Modelled.{teams_of, error_of, IsDone, run_group_op-IsDone}

abbrev desk : Group
desk = record { id = "desk"; name = "Desk"; description = ""; owner_id = "bob"; created_at = 1 }

abbrev teams : GroupStore
teams = record {
  groups = desk ∷ [];
  members = record { group_id = "desk"; user_id = "ann"; role = "member"; joined_at = 2 } ∷ [];
}

run_group_op-IsDone_example :
    IsDone
      (removing "desk" "ann")
      teams
      (error_of (removing "desk" "ann") (teams_of teams))
      (run_group_op true (removing "desk" "ann") teams)
    × (run_group_op false (removing "desk" "ann") teams ≡ (teams, some statement_failed))
run_group_op-IsDone_example = run_group_op-IsDone (removing "desk" "ann") teams

ann_is_there : error_of (removing "desk" "ann") (teams_of teams) ≡ none
ann_is_there = refl
