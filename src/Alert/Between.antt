-- ===== src/Alert/Between.antt =====
-- The detector between two dates that are both in the store, and where the earlier one is not.
use json_scanner.Base.{
  ℕ, String, ◌≡◌, inl, inr, refl, Bool, true, false, not, ◌&&◌, ◌||◌, ◌⊎◌, none, some, List, [],
  ◌∷◌, ◌==◌, arith, map, All, length, Bool-cases,
}
use json_scanner.Base.Result.{ok}
use json_scanner.Snapshot.Store.{Db, SnapError, date_rows, set_active, not_found, driver}
use json_scanner.Snapshot.Query.{Engine, run}
use json_scanner.Study.Access.{Study}
use json_scanner.Alert.Detect.{
  Change, symbol_set, in_set, change, changes_outside, matches_on, detect_entries, detect_exits,
  detect_changes,
}
use json_scanner.Alert.Changes.{listed, symbols, listed-changes_outside, in_set-symbol_set}

-- The date has rows, so that it can be made the active one.
abbrev pub HasDate : {D : Type 0} → ℕ → Db D → Type 0
HasDate d db = (length (date_rows d db.rows) == 0) ≡ false

abbrev pub at_date : {D : Type 0} → ℕ → Db D → Db D
at_date d db = record db { active_date = d }

set_active_lem :
    {D : Type 0} (d : ℕ) (db : Db D) → HasDate d db → set_active true d db ≡ (at_date d db, none)
unfolding set_active
set_active_lem d db h = rw h refl

-- What a change says besides its symbol.
abbrev pub IsAbout : Study → ℕ → ℕ → Change → Type 0
IsAbout s d p c = (c.study_key ≡ s.key) × (c.date ≡ d) × (c.prev_date ≡ p)

changes_outside-IsAbout :
    (m : _) (s : Study) (d p : ℕ) (ss : List String)
    → All (IsAbout s d p) (changes_outside m s d p ss)
unfolding changes_outside
changes_outside-IsAbout m s d p [] = tt
changes_outside-IsAbout m s d p (y ∷ ss) = elim (Bool-cases (in_set m y)) [
  | inl e ↦ rw e (changes_outside-IsAbout m s d p ss)
  | inr e ↦ rw e ((refl, refl, refl), changes_outside-IsAbout m s d p ss)
]

module _ {D M : Type 0} (symbol : M → String) (up : ℕ → Bool) (engine : Engine D M) where
  set_active_at :
      (d a : ℕ) (db : Db D)
      → up d ≡ true
      → HasDate d db
      → set_active (up d) d (at_date a db) ≡ (at_date d db, none)
  set_active_at d a db u h = rw u (set_active_lem d (at_date a db) h)

  matches_on_lem :
      (s : Study) (d a : ℕ) (db : Db D) (found : List M)
      → up d ≡ true
      → HasDate d db
      → run engine s (at_date d db) ≡ ok found
      → matches_on symbol up engine s d (at_date a db) ≡ (at_date d db, ok found)
  unfolding matches_on
  matches_on_lem s d a db found u h q = rw (set_active_at d a db u h) (rw q refl)

  -- The study has its matches on a date of the store.
  pub record Finds (s : Study) (db : Db D) (d : ℕ) (found : List M) : Type 0 where
    pub is_up : up d ≡ true
    pub has_date : HasDate d db
    pub matches : run engine s (at_date d db) ≡ ok found

  module _ (s : Study) (d p : ℕ) (db : Db D) (current prev : List M) (on_d : Finds s db d current)
      (on_p : Finds s db p prev) where
    pub entered : List Change
    entered = changes_outside (symbol_set (map symbol prev)) s d p (map symbol current)

    pub left : List Change
    left = changes_outside (symbol_set (map symbol current)) s d p (map symbol prev)

    detect_entries_lem :
        (a : ℕ) → detect_entries symbol up engine s d p (at_date a db) ≡ (at_date p db, ok entered)
    unfolding detect_entries entered
    detect_entries_lem a =
        rw (matches_on_lem s d a db current on_d.is_up on_d.has_date on_d.matches)
          (rw (set_active_at p d db on_p.is_up on_p.has_date) (rw on_p.matches refl))

    detect_exits_lem :
        (a : ℕ) → detect_exits symbol up engine s d p (at_date a db) ≡ (at_date p db, ok left)
    unfolding detect_exits left
    detect_exits_lem a =
        rw (matches_on_lem s d a db current on_d.is_up on_d.has_date on_d.matches)
          (rw (set_active_at p d db on_p.is_up on_p.has_date) (rw on_p.matches refl))

    detect_changes_lem :
        detect_changes symbol up engine s d p db ≡ (at_date p db, ok (entered, left))
    unfolding detect_changes
    detect_changes_lem = rw (detect_entries_lem db.active_date) (rw (detect_exits_lem p) refl)

    -- Between two dates of the store, on both of which the study runs, the entries are the symbols
    -- that match on the later date and not on the earlier, the exits those that match on the
    -- earlier and not on the later, each change names the study and the two dates, and the store
    -- differs only in its active date, which is left at the earlier one.
    pub detect_changes_between :
        (es : List Change) × (xs : List Change) × (detect_changes symbol up engine s d p db
          ≡ (at_date p db, ok (es, xs)))
        × All (IsAbout s d p) es
        × All (IsAbout s d p) xs
        × ((x : String)
            → listed (symbols es) x
              ≡ (listed (map symbol current) x && not (listed (map symbol prev) x)))
        × ((x : String)
            → listed (symbols xs) x
              ≡ (listed (map symbol prev) x && not (listed (map symbol current) x)))
    unfolding entered left
    detect_changes_between =
        let before = symbol_set (map symbol prev) in
        let now = symbol_set (map symbol current) in
        (
          entered,
          left,
          detect_changes_lem,
          changes_outside-IsAbout before s d p (map symbol current),
          changes_outside-IsAbout now s d p (map symbol prev),
          (λ x. ground (
            arith,
            listed-changes_outside before s d p (map symbol current) x,
            in_set-symbol_set (map symbol prev) x,
          )),
          (λ x. ground (
            arith,
            listed-changes_outside now s d p (map symbol prev) x,
            in_set-symbol_set (map symbol current) x,
          )),
        )

    -- Applying the changes to the earlier matches gives the later ones: a symbol matches on the
    -- later date exactly when it is an entry, or it matched on the earlier date and is no exit.
    pub detect_changes_replay :
        (es : List Change) × (xs : List Change) × (detect_changes symbol up engine s d p db
          ≡ (at_date p db, ok (es, xs)))
        × ((x : String)
            → listed (map symbol current) x ≡ (
                listed (symbols es) x
                || (listed (map symbol prev) x && not (listed (symbols xs) x))))
    detect_changes_replay =
        let (es, xs, e, ae, ax, he, hx) = detect_changes_between in
        (es, xs, e, (λ x. ground (arith, he x, hx x)))

  -- Where the earlier date cannot be selected every match of the later date is an entry without a
  -- previous date, there is no exit, and the later date is left active.
  pub detect_changes_first :
      (s : Study) (d p : ℕ) (db : Db D) (current : List M)
      → Finds s db d current
      → (up p ≡ false) ⊎ ((length (date_rows p db.rows) == 0) ≡ true)
      → detect_changes symbol up engine s d p db
        ≡ (at_date d db, ok (map (change s d 0) (map symbol current), []))
  unfolding detect_changes detect_entries detect_exits
  detect_changes_first s d p db current on_d missing =
      rw (matches_on_lem s d db.active_date db current on_d.is_up on_d.has_date on_d.matches) (
        let (x, e) = refused (up p) missing in
        rw e
          (rw (matches_on_lem s d d db current on_d.is_up on_d.has_date on_d.matches) (rw e refl)))
    where
      refused :
          (b : Bool)
          → (b ≡ false) ⊎ ((length (date_rows p db.rows) == 0) ≡ true)
          → (x : SnapError) × (set_active b p (at_date d db) ≡ (at_date d db, some x))
      refused false m = (driver, unfold set_active in refl)
      refused true (inl e) = absurd (cc)
      refused true (inr e) = (not_found, unfold set_active in rw e refl)
