-- ===== src/Auth/Session.antt =====
-- The session store in memory (internal/auth/session.go). The lock makes each operation one step;
-- the token that the random generator gives is an argument, and so is the clock.
use json_scanner.Base.{
  ℕ, ◌+◌, ◌≤◌, String, ◌≡◌, refl, sym, inl, inr, Bool, true, Option, none, some, ◌=s=◌, eq_iff,
  arith, ltb, if◌then◌else◌, Bool-cases, Option-cases,
}
use json_scanner.Base.Dict.{Dict, lookup, insert, delete, lookup-insert, lookup-delete}

pub record SessionEntry : Type 0 where
  pub user_id : String
  pub expiry : ℕ

pub record SessionStore : Type 0 where
  pub entries : Dict SessionEntry

unfoldable pub create : String → String → ℕ → ℕ → SessionStore → SessionStore
create tok user ttl now s = record {
  entries = insert tok (record { user_id = user; expiry = now + ttl }) s.entries;
}

-- `now.After(expiry)`
abbrev pub is_expired : ℕ → SessionEntry → Bool
is_expired now e = ltb e.expiry now

-- An expired entry is deleted.
unfoldable pub get_entry :
    String → ℕ → SessionStore → Option SessionEntry → SessionStore × Option String
get_entry tok now s none = (s, none)
get_entry tok now s (some e) =
    if is_expired now e
    then (record { entries = delete tok s.entries }, none)
    else (s, some e.user_id)

unfoldable pub get : String → ℕ → SessionStore → SessionStore × Option String
unfolding get_entry
get tok now s = get_entry tok now s (lookup tok s.entries)

unfoldable pub remove : String → SessionStore → SessionStore
remove tok s = record { entries = delete tok s.entries }

-- The specification: the user that a token stands for at a time, if any.
abbrev pub live : ℕ → Option SessionEntry → Option String
live now none = none
live now (some e) = if is_expired now e then none else some e.user_id

abbrev pub holder : String → ℕ → SessionStore → Option String
holder tok now s = live now (lookup tok s.entries)

-- A new session stands for its user up to its expiry and for nobody after, and no other token's
-- standing changes.
pub holder-create :
    (tok tok' user : String) (ttl now t : ℕ) (s : SessionStore)
    → holder tok' t (create tok user ttl now s)
      ≡ (if tok =s= tok' then (if ltb (now + ttl) t then none else some user) else holder tok' t s)
unfolding create
holder-create tok tok' user ttl now t s =
    rw (lookup-insert tok tok' (record { user_id = user; expiry = now + ttl }) s.entries)
      (ground arith)

-- `Get` answers by the standing of the token, and deleting what is expired changes no token's
-- standing at that time or later.
pub get-holder :
    (tok tok' : String) (now t : ℕ) (s : SessionStore)
    → now ≤ t
    → ((get tok now s).1 ≡ holder tok now s) × (holder tok' t (get tok now s).0 ≡ holder tok' t s)
unfolding get
get-holder tok tok' now t s h = elim (Option-cases (lookup tok s.entries)) [
  | inl e ↦ rw (e, get_entry) (refl, refl)
  | inr (x, e) ↦ rw (e, get_entry) (answer x, standing x e)
]
  where
    answer : (x : SessionEntry) → (get_entry tok now s (some x)).1 ≡ live now (some x)
    answer x = ground arith

    standing :
        (x : SessionEntry)
        → lookup tok s.entries ≡ some x
        → holder tok' t (get_entry tok now s (some x)).0 ≡ holder tok' t s
    standing x e = elim (Bool-cases (is_expired now x)) [
      | inl q ↦ rw (q, get_entry) (rw (lookup-delete tok tok' s.entries) (gone x e q))
      | inr q ↦ rw (q, get_entry) refl
    ]
      where
        gone :
            (y : SessionEntry)
            → lookup tok s.entries ≡ some y
            → is_expired now y ≡ true
            → live t (if tok =s= tok' then none else lookup tok' s.entries)
              ≡ live t (lookup tok' s.entries)
        gone y p q' = elim (Bool-cases (tok =s= tok')) [
          | inl same ↦ rw (same, sym ((eq_iff tok tok').0 same), p) (ground arith)
          | inr other ↦ rw other refl
        ]

-- A deleted session stands for nobody, and no other token's standing changes.
pub holder-remove :
    (tok tok' : String) (t : ℕ) (s : SessionStore)
    → holder tok' t (remove tok s) ≡ (if tok =s= tok' then none else holder tok' t s)
unfolding remove
holder-remove tok tok' t s = rw (lookup-delete tok tok' s.entries) (ground arith)
