-- ===== src/Base/Text/Number.antt =====
-- Decimal numbers: `strconv.ParseInt(s, 10, 64)`, `strconv.Atoi` and `strconv.Itoa`.
use Prim.Native.Nat.{ℕ, zero, suc, ◌+◌, ◌-◌, ◌*◌, ◌/◌, ◌%◌, ◌^◌}
use Prim.Native.Char.{code}
use Prim.Native.String.{String, [], ◌∷◌, ◌++◌}
use mathlib.Core.Bool.{Bool, true, false, ◌&&◌}
use mathlib.Core.Option
use mathlib.Core.Option.{Option, none, some}
use komari_bridge.Base.Tests.{leb, ltb, eqb, if◌then◌else◌}
use komari_bridge.Base.Int.{ℤ, pos, negsuc}
use komari_bridge.Base.Text.Trim.{pick}

-- The digits after `n`, most significant first; `none` at a character that is no digit.
digits : ℕ → String → Option ℕ
digits n [] = some n
digits n (c ∷ s) =
    let rest = digits (n * 10 + (code c - b'0')) s in
    if leb b'0' (code c) && leb (code c) b'9' then rest else none

magnitude : String → Option ℕ
unfolding digits
magnitude [] = none
magnitude (c ∷ s) = digits 0 (c ∷ s)

-- The values that an int64 holds; outside is `ErrRange`.
bounded : Bool → ℕ → Option ℤ
bounded negative zero = some (pos 0)
bounded true (suc n) = if ltb n (2 ^ 63) then some (negsuc n) else none
bounded false (suc n) = if ltb (suc n) (2 ^ 63) then some (pos (suc n)) else none

-- `none` is an error, of syntax or of range.
unfoldable pub parse_int : String → Option ℤ
unfolding magnitude bounded Option.bind
parse_int [] = none
parse_int (c ∷ s) =
    if eqb (code c) b'-'
    then Option.bind (magnitude s) (bounded true)
    else if eqb (code c) b'+'
    then Option.bind (magnitude s) (bounded false)
    else Option.bind (magnitude (c ∷ s)) (bounded false)

-- `int` has 64 bits.
abbrev pub atoi : String → Option ℤ
atoi = parse_int

print_digits : ℕ → ℕ → String
unfolding pick
print_digits zero n = ""
print_digits (suc fuel) n =
    let more = print_digits fuel (n / 10) in
    let last = pick (n % 10) "0123456789" in if ltb n 10 then last else more ++ last

-- Twenty digits hold every 64-bit number.
unfoldable pub itoa_ℕ : ℕ → String
unfolding print_digits
itoa_ℕ n = print_digits 20 n

unfoldable pub itoa : ℤ → String
unfolding itoa_ℕ
itoa (pos n) = itoa_ℕ n
itoa (negsuc n) = "-" ++ itoa_ℕ (suc n)
