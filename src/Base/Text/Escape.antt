-- ===== src/Base/Text/Escape.antt =====
-- `url.QueryEscape`.
pub mod Free
use Prim.Native.Nat.{ℕ, zero, suc, ◌+◌, ◌-◌, ◌/◌, ◌%◌}
use Prim.Native.Char.{Char, code}
use Prim.Native.String.{String, [], ◌∷◌, ◌++◌}
use mathlib.Core.Bool.{Bool, ◌&&◌, ◌||◌}
use komari_bridge.Base.Tests.{leb, ltb, eqb, if◌then◌else◌}
use komari_bridge.Base.Text.Trim.{pick}

-- The characters that stand for themselves.
unfoldable pub is_unreserved : ℕ → Bool
is_unreserved c =
    (leb b'a' c && leb c b'z')
    || (leb b'A' c && leb c b'Z')
    || (leb b'0' c && leb c b'9')
    || eqb c b'-'
    || eqb c b'_'
    || eqb c b'.'
    || eqb c b'~'

unfoldable pub hex_digit : ℕ → String
unfolding pick
hex_digit n = pick n "0123456789ABCDEF"

unfoldable pub escape_byte : ℕ → String
unfolding hex_digit
escape_byte b = "%" ++ (hex_digit (b / 16) ++ hex_digit (b % 16))

-- The bytes of a character's UTF-8 that follow the first, `0b10xxxxxx` each.
abbrev continuation : ℕ → String
continuation n = escape_byte (0x80 + n % 64)

unfoldable pub escape_utf8 : ℕ → String
unfolding escape_byte
escape_utf8 n =
    if ltb n 0x80
    then escape_byte n
    else if ltb n 0x800
    then escape_byte (0xc0 + n / 64) ++ continuation n
    else if ltb n 0x10000
    then escape_byte (0xe0 + n / 4096) ++ (continuation (n / 64) ++ continuation n)
    else escape_byte (0xf0 + n / 262144)
      ++ (continuation (n / 4096) ++ (continuation (n / 64) ++ continuation n))

unfoldable pub escape_char : Char → String
unfolding is_unreserved escape_utf8
escape_char c =
    if is_unreserved (code c)
    then c ∷ []
    else if eqb (code c) b' '
    then "+"
    else escape_utf8 (code c)

unfoldable pub query_escape : String → String
unfolding escape_char
query_escape [] = []
query_escape (c ∷ s) = escape_char c ++ query_escape s
