-- ===== src/Study/Access.antt =====
-- Studies and who may run them: `Study`, `LoadJSONL`, `Accessible` and `visibleTo` of
-- internal/study/study.go. The JSON decoder of one line is the parameter `decode`.
use json_scanner.Base.{
  ℕ, ◌+◌, String, Bool, true, false, Option, none, some, List, [], ◌∷◌, ◌++◌, ◌||◌, ◌=s=◌, ltb,
  if◌then◌else◌,
}
use json_scanner.Base.Result.{Result, ok, err}
use json_scanner.Base.Text.{codes, codes_eq, has_prefix, trim_space}
use json_scanner.User.{User, global_id, tier_free, rank, is_admin, in_group}

pub record Study : Type 0 where
  pub owner : String
  pub visibility : String
  pub group : String
  pub tier : String
  pub key : String
  pub title : String
  pub emoji : String
  pub where_sql : String
  pub order_by : String
  pub limit : ℕ

abbrev pub vis_private : String
vis_private = "private"

abbrev pub vis_group : String
vis_group = "group"

abbrev pub vis_public : String
vis_public = "public"

-- `visibleTo`
unfoldable pub visible_to : Study → User → Bool
visible_to s u =
    if s.visibility =s= vis_public
    then true
    else if s.visibility =s= vis_group
    then in_group u s.group
    else if s.visibility =s= vis_private
    then false
    else s.owner =s= global_id

-- The `switch` in the loop of `Accessible`: is the study kept?
unfoldable pub may_run : User → Study → Bool
unfolding visible_to
may_run u s =
    if is_admin u
    then true
    else if s.owner =s= u.id
    then true
    else if visible_to s u
    then (if ltb (rank u.tier) (rank s.tier) then false else true)
    else false

unfoldable pub accessible : List Study → User → List Study
accessible [] u = []
accessible (s ∷ ss) u = let rest = accessible ss u in if may_run u s then s ∷ rest else rest

-- The defaults of `LoadJSONL`: owner, then tier, then visibility by owner.
unfoldable pub with_owner : Study → Study
with_owner s = record s { owner = if s.owner =s= "" then global_id else s.owner }

unfoldable pub with_visibility : Study → Study
with_visibility s = record s {
  visibility =
      if s.visibility =s= ""
      then (if s.owner =s= global_id then vis_public else vis_private)
      else s.visibility;
}

unfoldable pub with_defaults : Study → Study
unfolding with_owner with_visibility
with_defaults s =
    let t = with_owner s in
    with_visibility (record t { tier = if t.tier =s= "" then tier_free else t.tier })

abbrev pub is_skipped : List ℕ → Bool
is_skipped t = codes_eq t [] || has_prefix t (codes "#")

-- The error is the number of the line.
abbrev pub load_rest : ℕ → (Study → Result ℕ (List Study)) → Option Study → Result ℕ (List Study)
load_rest n next none = err n
load_rest n next (some s) = next s

module _ (decode : List ℕ → Option Study) where
  -- The loop over the lines; `n` lines were read before, and `out` holds their studies.
  unfoldable pub load_from : ℕ → List (List ℕ) → List Study → Result ℕ (List Study)
  load_from n [] out = ok out
  load_from n (line ∷ lines) out =
      let t = trim_space line in
      let skipped = load_from (n + 1) lines out in
      let read =
        load_rest (n + 1) (λ s. load_from (n + 1) lines (out ++ (with_defaults s ∷ [])))
          (decode t) in
      if is_skipped t then skipped else read

  unfoldable pub load_jsonl : List (List ℕ) → Result ℕ (List Study)
  unfolding load_from
  load_jsonl lines = load_from 0 lines []
