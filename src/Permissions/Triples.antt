-- ===== src/Permissions/Triples.antt =====
-- Masks of three bits: the laws of the operations and of the text, by running all values.
use json_scanner.Base.{
  if◌then◌else◌, ℕ, zero, suc, ◌<◌, ◌≡◌, refl, Bool, true, false, not, ◌&&◌, ◌||◌, ◌==◌, arith,
}
use json_scanner.Permissions.Bits.{
  perm_read, perm_write, perm_delete, has_permission, add_permission, remove_permission,
  permission_string, parse_permission_string, valid_permission,
}

-- Does the test hold of every number under the bound?
sweep : (ℕ → Bool) → ℕ → Bool
sweep test zero = true
sweep test (suc bound) = if test bound then sweep test bound else false

sweep_sound : (test : ℕ → Bool) (bound x : ℕ) → x < bound → sweep test bound ≡ true → test x ≡ true
unfolding sweep
sweep_sound test zero x lt h = absurd (omega arith)
sweep_sound test (suc bound) x lt h = ground (sweep_sound test bound x, arith)

-- A test of all triples of masks.
triples : (ℕ → ℕ → ℕ → Bool) → Bool
unfolding sweep
triples test = sweep (λ a. sweep (λ b. sweep (λ c. test a b c) 8) 8) 8

triples_sound :
    (test : ℕ → ℕ → ℕ → Bool) (a b c : ℕ)
    → triples test ≡ true
    → a < 8
    → b < 8
    → c < 8
    → test a b c ≡ true
unfolding triples
triples_sound test a b c h la lb lc =
    sweep_sound (λ z. test a b z) 8 c lc
      (sweep_sound (λ y. sweep (λ z. test a y z) 8) 8 b lb
        (sweep_sound (λ x. sweep (λ y. sweep (λ z. test x y z) 8) 8) 8 a la h))

bool_eq : Bool → Bool → Bool
bool_eq true b = b
bool_eq false b = not b

bool_eq_sound : (a b : Bool) → bool_eq a b ≡ true → a ≡ b
unfolding bool_eq
bool_eq_sound true true h = refl
bool_eq_sound true false h = cc
bool_eq_sound false true h = cc
bool_eq_sound false false h = refl

parse_print_table : sweep (λ p. parse_permission_string (permission_string p) == p) 8 ≡ true
unfolding sweep parse_permission_string permission_string
parse_print_table = refl

-- Reading the text of a mask of three bits gives the mask back.
pub parse_permission_string-permission_string :
    (p : ℕ) → valid_permission p ≡ true → parse_permission_string (permission_string p) ≡ p
unfolding valid_permission
parse_permission_string-permission_string p v =
    ground (arith, sweep_sound _ 8 p (ground arith) parse_print_table)

-- A single permission: one of the three bits.
abbrev pub is_action : ℕ → Bool
is_action a = a == perm_read || a == perm_write || a == perm_delete

add_table :
    triples (λ p a b.
      not (is_action b)
      || bool_eq (has_permission (add_permission p a) b) (has_permission p b || has_permission a b))
    ≡ true
unfolding triples bool_eq has_permission add_permission
add_table = refl

remove_table :
    triples (λ p a b.
      not (is_action b)
      || bool_eq
          (has_permission (remove_permission p a) b)
          (has_permission p b && not (has_permission a b)))
    ≡ true
unfolding triples bool_eq has_permission remove_permission
remove_table = refl

implies : (a b : Bool) → (not a || b) ≡ true → a ≡ true → b ≡ true
implies true b h e = h
implies false b h e = cc

-- Over masks of three bits, adding grants exactly what either mask granted, and removing leaves
-- exactly what the first granted and the second does not, at each of the three single permissions.
pub has_permission-add_remove :
    (p a b : ℕ)
    → p < 8
    → a < 8
    → is_action b ≡ true
    → (has_permission (add_permission p a) b ≡ (has_permission p b || has_permission a b))
      × (has_permission (remove_permission p a) b
          ≡ (has_permission p b && not (has_permission a b)))
has_permission-add_remove p a b lp la ab = (
  bool_eq_sound _ _ (implies _ _ (triples_sound _ p a b add_table lp la (ground arith)) ab),
  bool_eq_sound _ _ (implies _ _ (triples_sound _ p a b remove_table lp la (ground arith)) ab),
)
