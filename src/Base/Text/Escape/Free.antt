-- ===== src/Base/Text/Escape/Free.antt =====
-- What `url.QueryEscape` leaves no place for.
use Prim.Native.Nat.{ℕ, ◌/◌, ◌%◌}
use Prim.Native.Char.{Char, code}
use Prim.Native.String.{String, [], ◌∷◌, ◌++◌}
use mathlib.Core.Path.{◌≡◌, refl}
use mathlib.Core.Logic.{inl, inr}
use mathlib.Core.Bool.{Bool, true, false}
use native.Mathlib.Omega.{arith}
use komari_bridge.Base.Tests.{eqb, if◌then◌else◌, Bool-cases}
use komari_bridge.Base.Text.Parts.{contains, contains-append, contains-pick}
use komari_bridge.Base.Text.Escape.{
  hex_digit, is_unreserved, escape_byte, escape_utf8, escape_char, query_escape,
}

free-append :
    (s t : String)
    → contains b':' s ≡ false
    → contains b':' t ≡ false
    → contains b':' (s ++ t) ≡ false
free-append s t h k = rw (contains-append b':' s t, h) k

free-hex_digit : (n : ℕ) → contains b':' (hex_digit n) ≡ false
unfolding hex_digit
free-hex_digit n = contains-pick b':' n "0123456789ABCDEF" refl

free-escape_byte : (b : ℕ) → contains b':' (escape_byte b) ≡ false
unfolding escape_byte
free-escape_byte b = free-append "%" (hex_digit (b / 16) ++ hex_digit (b % 16)) refl (
    free-append (hex_digit (b / 16)) (hex_digit (b % 16)) (free-hex_digit (b / 16))
      (free-hex_digit (b % 16)))

free-if :
    (b : Bool) (s t : String)
    → contains b':' s ≡ false
    → contains b':' t ≡ false
    → contains b':' (if b then s else t) ≡ false
free-if true s t h k = h
free-if false s t h k = k

ruleset free_rules = (free-append, free-if, free-escape_byte)

free-escape_utf8 : (n : ℕ) → contains b':' (escape_utf8 n) ≡ false
unfolding escape_utf8
free-escape_utf8 n = search free_rules depth 12 fits 3000

free-unreserved : (c : Char) → is_unreserved (code c) ≡ true → contains b':' (c ∷ []) ≡ false
unfolding is_unreserved
free-unreserved c h = ground arith

free-escape_char : (c : Char) → contains b':' (escape_char c) ≡ false
unfolding escape_char
free-escape_char c = elim (Bool-cases (is_unreserved (code c))) [
  | inl kept ↦ rw kept (free-unreserved c kept)
  | inr escaped ↦
      rw escaped
        (free-if (eqb (code c) b' ') "+" (escape_utf8 (code c)) refl (free-escape_utf8 (code c)))
]

-- A text that is escaped has no colon left.
pub query_escape-free : (s : String) → contains b':' (query_escape s) ≡ false
unfolding query_escape
query_escape-free [] = refl
query_escape-free (c ∷ s) =
    free-append (escape_char c) (query_escape s) (free-escape_char c) (query_escape-free s)
