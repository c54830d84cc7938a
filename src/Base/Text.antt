-- ===== src/Base/Text.antt =====
-- Texts as code points, for the code that walks them: `strings.ToLower`, `strings.Contains`,
-- `strings.TrimSpace`-like loops and `%d`.
use Prim.Native.Nat.{ℕ, zero, suc, ◌+◌, ◌/◌, ◌%◌}
use Prim.Native.Char.{code}
use Prim.Native.String.{String}
use mathlib.Core.Path.{◌≡◌, refl}
use mathlib.Core.Bool.{Bool, true, false, ◌&&◌, ◌||◌}
use mathlib.Core.List.{List, [], ◌∷◌, map, reverse}
use json_scanner.Base.Tests.{ltb, leb, ◌==◌, ◌+s◌, ◌=s=◌, if◌then◌else◌}

abbrev pub codes : String → List ℕ
codes String.[] = []
codes (String.◌∷◌ c s) = code c ∷ codes s

-- `unicode.ToLower` as far as it meets ASCII: the capitals, and the two letters beyond ASCII
-- whose lower case is an ASCII letter. Any other letter has a lower case beyond ASCII, which no
-- test of the program tells from the letter.
unfoldable pub lower_code : ℕ → ℕ
lower_code c =
    if leb b'A' c && leb c b'Z'
    then c + 32
    else if c == 0x130
    then b'i'
    else if c == 0x212a
    then b'k'
    else c

-- `strings.ToLower`
unfoldable pub to_lower : List ℕ → List ℕ
unfolding lower_code
to_lower s = map lower_code s

abbrev pub codes_eq : List ℕ → List ℕ → Bool
codes_eq [] [] = true
codes_eq [] (y ∷ ys) = false
codes_eq (x ∷ xs) [] = false
codes_eq (x ∷ xs) (y ∷ ys) = x == y && codes_eq xs ys

-- `strings.HasPrefix s t`
abbrev pub has_prefix : List ℕ → List ℕ → Bool
has_prefix s [] = true
has_prefix [] (y ∷ t) = false
has_prefix (x ∷ s) (y ∷ t) = x == y && has_prefix s t

-- `strings.Contains s t`
abbrev pub has_infix : List ℕ → List ℕ → Bool
has_infix [] t = has_prefix [] t
has_infix (x ∷ s) t = let later = has_infix s t in if has_prefix (x ∷ s) t then true else later

digit : ℕ → String
digit zero = "0"
digit (suc zero) = "1"
digit (suc (suc zero)) = "2"
digit (suc (suc (suc zero))) = "3"
digit (suc (suc (suc (suc zero)))) = "4"
digit (suc (suc (suc (suc (suc zero))))) = "5"
digit (suc (suc (suc (suc (suc (suc zero)))))) = "6"
digit (suc (suc (suc (suc (suc (suc (suc zero))))))) = "7"
digit (suc (suc (suc (suc (suc (suc (suc (suc zero)))))))) = "8"
digit _ = "9"

decimal_fuel : ℕ → ℕ → String
unfolding digit
decimal_fuel zero n = ""
decimal_fuel (suc f) n =
    let rest = decimal_fuel f (n / 10) in if ltb n 10 then digit n else rest +s digit (n % 10)

-- `%d` of a number that is not negative. It has at most as many digits as its successor.
unfoldable pub decimal : ℕ → String
unfolding decimal_fuel
decimal n = decimal_fuel (suc n) n

decimal_test : decimal 1050 ≡ "1050"
unfolding decimal
decimal_test = refl

-- `unicode.IsSpace`
unfoldable pub is_space : ℕ → Bool
is_space c =
    if c == 32 || (leb 9 c && leb c 13) || c == 0x85 || c == 0xa0
    then true
    else c == 0x1680
      || (leb 0x2000 c && leb c 0x200a)
      || c == 0x2028
      || c == 0x2029
      || c == 0x202f
      || c == 0x205f
      || c == 0x3000

drop_space : List ℕ → List ℕ
unfolding is_space
drop_space [] = []
drop_space (c ∷ s) = let rest = drop_space s in if is_space c then rest else c ∷ s

-- `strings.TrimSpace`
unfoldable pub trim_space : List ℕ → List ℕ
unfolding drop_space
trim_space s = reverse (drop_space (reverse (drop_space s)))

trim_front : String → String
unfolding is_space
trim_front String.[] = ""
trim_front (String.◌∷◌ c s) =
    let rest = trim_front s in if is_space (code c) then rest else String.◌∷◌ c s

trim_back : String → String
unfolding is_space
trim_back String.[] = ""
trim_back (String.◌∷◌ c s) =
    let rest = trim_back s in if is_space (code c) && rest =s= "" then "" else String.◌∷◌ c rest

-- `strings.TrimSpace` that gives a text.
unfoldable pub trim_text : String → String
unfolding trim_front trim_back
trim_text s = trim_back (trim_front s)

trim_text_test : trim_text "  a b " ≡ "a b"
unfolding trim_text is_space
trim_text_test = refl
