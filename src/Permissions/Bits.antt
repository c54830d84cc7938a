-- ===== src/Permissions/Bits.antt =====
-- Permission bits, and their text (internal/permissions/permissions.go).
-- A mask is a number that is not negative; a text is its bytes.
use Prim.Native.Nat.{bit_and, bit_or, bit_xor}
use json_scanner.Base.{ℕ, Bool, List, [], ◌∷◌, ◌==◌, leb, if◌then◌else◌}

abbrev pub perm_read : ℕ
perm_read = 4

abbrev pub perm_write : ℕ
perm_write = 2

abbrev pub perm_delete : ℕ
perm_delete = 1

abbrev pub perm_none : ℕ
perm_none = 0

abbrev pub perm_full : ℕ
perm_full = 7

unfoldable pub default_permissions : ℕ × ℕ × ℕ
default_permissions = (perm_full, perm_none, perm_none)

unfoldable pub has_permission : ℕ → ℕ → Bool
has_permission perms action = bit_and perms action == action

unfoldable pub add_permission : ℕ → ℕ → ℕ
add_permission perms action = bit_or perms action

-- `perms &^ action`
unfoldable pub remove_permission : ℕ → ℕ → ℕ
remove_permission perms action = bit_xor perms (bit_and perms action)

unfoldable pub permission_string : ℕ → List ℕ
unfolding has_permission
permission_string perms =
    (if has_permission perms perm_read then b'r' else b'-')
    ∷ (if has_permission perms perm_write then b'w' else b'-')
    ∷ (if has_permission perms perm_delete then b'x' else b'-')
    ∷ []

-- The bit of one place, added where the place holds its letter.
abbrev pub add_if : Bool → ℕ → ℕ → ℕ
add_if b perms bit = if b then bit_or perms bit else perms

-- The error is always nil: a text that is not three bytes long is 0.
unfoldable pub parse_permission_string : List ℕ → ℕ
parse_permission_string (a ∷ b ∷ c ∷ []) =
    add_if (c == b'x') (add_if (b == b'w') (add_if (a == b'r') 0 perm_read) perm_write) perm_delete
parse_permission_string _ = 0

unfoldable pub valid_permission : ℕ → Bool
valid_permission perms = leb perms 7
