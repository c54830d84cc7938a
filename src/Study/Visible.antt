-- ===== src/Study/Visible.antt =====
-- Who may run which study, and what a loaded study is.
use json_scanner.Base.{
  ◌≤◌, ◌≡◌, ◌≢◌, ◌↔◌, ◌⊎◌, inl, inr, refl, true, List, [], ◌∷◌, ◌=s=◌, eq_iff, arith, In, select,
  In-select, In-of_select, Bool-cases,
}
use json_scanner.User.{User, global_id, rank, is_admin, in_group, role_admin}
use json_scanner.Study.Access.{
  Study, vis_private, vis_group, vis_public, visible_to, may_run, accessible,
}

-- The scope of a study that its reader does not own.
abbrev pub IsVisible : User → Study → Type 0
IsVisible u s =
    (s.visibility ≡ vis_public)
    ⊎ ((s.visibility ≡ vis_group) × (in_group u s.group ≡ true))
    ⊎ ((s.visibility ≢ vis_public)
        × (s.visibility ≢ vis_group)
        × (s.visibility ≢ vis_private)
        × (s.owner ≡ global_id))

-- The three axes of access: role, ownership, and visibility with the tier.
abbrev pub MayRun : User → Study → Type 0
MayRun u s =
    (u.role ≡ role_admin) ⊎ (s.owner ≡ u.id) ⊎ (IsVisible u s × (rank s.tier ≤ rank u.tier))

visible_to_sound : (u : User) (s : Study) → visible_to s u ≡ true → IsVisible u s
unfolding visible_to
visible_to_sound u s h = ground (
  arith,
  eq_iff s.visibility "public",
  eq_iff s.visibility "group",
  eq_iff s.visibility "private",
  eq_iff s.owner "global",
)

visible_to_complete : (u : User) (s : Study) → IsVisible u s → visible_to s u ≡ true
unfolding visible_to
visible_to_complete u s h = ground (
  arith,
  eq_iff s.visibility "public",
  eq_iff s.visibility "group",
  eq_iff s.visibility "private",
  eq_iff s.owner "global",
)

may_run_sound : (u : User) (s : Study) → may_run u s ≡ true → MayRun u s
unfolding may_run is_admin
may_run_sound u s h = elim (Bool-cases (u.role =s= "admin")) [
  | inl e ↦ inl ((eq_iff _ _).0 e)
  | inr e ↦ elim (Bool-cases (s.owner =s= u.id)) [
    | inl o ↦ inr (inl ((eq_iff _ _).0 o))
    | inr o ↦ elim (Bool-cases (visible_to s u)) [
      | inl v ↦ inr (inr (visible_to_sound u s v, ground arith))
      | inr v ↦ absurd (ground arith)
    ]
  ]
]

may_run_complete : (u : User) (s : Study) → MayRun u s → may_run u s ≡ true
unfolding may_run is_admin
may_run_complete u s (inl e) = ground (arith, eq_iff u.role "admin")
may_run_complete u s (inr (inl e)) = ground (arith, eq_iff s.owner u.id)
may_run_complete u s (inr (inr v)) =
    let h = visible_to_complete u s v.0 in let le = v.1 in ground arith

accessible-eq-select : (ss : List Study) (u : User) → accessible ss u ≡ select (may_run u) ss
unfolding accessible
accessible-eq-select [] u = refl
accessible-eq-select (s ∷ ss) u = rw (accessible-eq-select ss u)

-- A study is among those that a user may run exactly when it was offered and the user is an
-- admin, owns it, or can see it by its visibility and has at least its tier.
pub accessible_iff :
    (ss : List Study) (u : User) (s : Study) → In s (accessible ss u) ↔ (In s ss × MayRun u s)
accessible_iff ss u s = (
  (λ h.
      let (i, passes) = In-of_select (may_run u) s ss (rw (accessible-eq-select ss u) at h) in
      (i, may_run_sound u s passes)),
  (λ h. rw (accessible-eq-select ss u) (In-select (may_run u) s ss h.0 (may_run_complete u s h.1))),
)
