-- ===== src/Base/Text/Trim.antt =====
-- Trimming, case mapping and replacing of characters. A Go string that is valid UTF-8 is the text
-- of its characters.
use Prim.Native.Nat.{ℕ, zero, suc, ◌-◌}
use Prim.Native.Char.{Char, code}
use Prim.Native.String.{String, [], ◌∷◌, ◌++◌}
use mathlib.Core.Bool.{Bool, ◌&&◌, ◌||◌}
use mathlib.Core.Option.{Option, none, some}
use text.Mathlib.Text.{◌==◌}
use komari_bridge.Base.Tests.{leb, eqb, if◌then◌else◌, get_or}

-- `unicode.IsSpace`.
unfoldable pub is_space : ℕ → Bool
is_space c =
    (leb 9 c && leb c 13)
    || eqb c 32
    || eqb c 0x85
    || eqb c 0xa0
    || eqb c 0x1680
    || (leb 0x2000 c && leb c 0x200a)
    || eqb c 0x2028
    || eqb c 0x2029
    || eqb c 0x202f
    || eqb c 0x205f
    || eqb c 0x3000

unfoldable pub trim_left : String → String
trim_left [] = []
trim_left (c ∷ s) = let rest = trim_left s in if is_space (code c) then rest else c ∷ s

unfoldable pub trim_right : String → String
trim_right [] = []
trim_right (c ∷ s) =
    let rest = trim_right s in if is_space (code c) && rest == "" then [] else c ∷ rest

-- `strings.TrimSpace`.
unfoldable pub trim_space : String → String
unfolding trim_left trim_right is_space
trim_space s = trim_right (trim_left s)

-- `strings.TrimSpace(s) == ""`.
unfoldable pub is_blank : String → Bool
unfolding trim_space
is_blank s = trim_space s == ""

-- The character at a place of a text, as a text: the tables of letters.
unfoldable pub pick : ℕ → String → String
pick n [] = []
pick zero (c ∷ s) = c ∷ []
pick (suc n) (c ∷ s) = pick n s

-- `unicode.ToLower` on the characters whose lower case is an ASCII letter (U+0130 and the Kelvin
-- sign U+212A are among them); the other letters are left alone, and the program compares the
-- result to ASCII words only.
lower_char : Char → String
unfolding pick
lower_char c =
    let n = code c in
    if leb b'A' n && leb n b'Z'
    then pick (n - b'A') "abcdefghijklmnopqrstuvwxyz"
    else if eqb n 0x130
    then "i"
    else if eqb n 0x212a
    then "k"
    else c ∷ []

unfoldable pub to_lower : String → String
unfolding lower_char
to_lower [] = []
to_lower (c ∷ s) = lower_char c ++ to_lower s

-- `unicode.ToUpper` on the ASCII letters, and on the two others whose upper case is one.
upper_char : Char → String
unfolding pick
upper_char c =
    let n = code c in
    if leb b'a' n && leb n b'z'
    then pick (n - b'a') "ABCDEFGHIJKLMNOPQRSTUVWXYZ"
    else if eqb n 0x131
    then "I"
    else if eqb n 0x17f
    then "S"
    else c ∷ []

unfoldable pub to_upper : String → String
unfolding upper_char
to_upper [] = []
to_upper (c ∷ s) = upper_char c ++ to_upper s

-- The letter of an ASCII fold orbit: Unicode folds U+212A with `k` and U+017F with `s`, and no
-- other character with an ASCII letter.
fold_char : Char → String
unfolding pick
fold_char c =
    let n = code c in
    if leb b'A' n && leb n b'Z'
    then pick (n - b'A') "abcdefghijklmnopqrstuvwxyz"
    else if eqb n 0x17f
    then "s"
    else if eqb n 0x212a
    then "k"
    else c ∷ []

fold : String → String
unfolding fold_char
fold [] = []
fold (c ∷ s) = fold_char c ++ fold s

-- `strings.EqualFold` against an ASCII word.
unfoldable pub equal_fold : String → String → Bool
unfolding fold
equal_fold s t = fold s == fold t

strip_prefix : String → String → Option String
strip_prefix [] s = some s
strip_prefix (c ∷ p) [] = none
strip_prefix (c ∷ p) (d ∷ s) = if eqb (code c) (code d) then strip_prefix p s else none

-- `strings.TrimPrefix(s, p)`.
unfoldable pub trim_prefix : String → String → String
unfolding strip_prefix
trim_prefix s p = get_or (strip_prefix p s) s

-- `strings.TrimSuffix(s, p)`.
unfoldable pub trim_suffix : String → String → String
trim_suffix [] p = []
trim_suffix (c ∷ s) p = let rest = trim_suffix s p in if (c ∷ s) == p then [] else c ∷ rest

-- `strings.TrimRight(s, "/")`.
unfoldable pub trim_slashes : String → String
trim_slashes [] = []
trim_slashes (c ∷ s) =
    let rest = trim_slashes s in if eqb (code c) b'/' && rest == "" then [] else c ∷ rest

-- A replacer of single characters: `f` gives the text for each.
unfoldable pub replace_chars : (Char → Char) → String → String
replace_chars f [] = []
replace_chars f (c ∷ s) = f c ∷ replace_chars f s

-- The first characters of a text.
unfoldable pub prefix : ℕ → String → String
prefix zero s = []
prefix (suc n) [] = []
prefix (suc n) (c ∷ s) = c ∷ prefix n s
