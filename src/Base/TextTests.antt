-- ===== src/Base/TextTests.antt =====
-- The text operations at concrete inputs.
use komari_bridge.Base.{◌≡◌, refl, [], ◌∷◌, some, none}
use komari_bridge.Base.Int.{negsuc}
use komari_bridge.Base.Text.{
  trim_space, to_lower, trim_prefix, trim_suffix, split, join, fields, sort_strings, parse_int,
  itoa,
}

trims : trim_space " \t a b\n" ≡ "a b"
unfolding trim_space
trims = refl

lowers : to_lower "QgA" ≡ "qga"
unfolding to_lower
lowers = refl

splits : split b'.' "a.b..c" ≡ "a" ∷ "b" ∷ "" ∷ "c" ∷ []
unfolding split
splits = refl

joins : join ";" (sort_strings ("b" ∷ "a" ∷ "c" ∷ [])) ≡ "a;b;c"
unfolding join sort_strings
joins = refl

splits_fields : fields "MemTotal:   12 kB" ≡ "MemTotal:" ∷ "12" ∷ "kB" ∷ []
unfolding fields
splits_fields = refl

cuts : trim_prefix "node/a" "node/" ≡ "a"
unfolding trim_prefix
cuts = refl

cuts_suffix : trim_suffix "MemTotal:" ":" ≡ "MemTotal"
unfolding trim_suffix
cuts_suffix = refl

parses : parse_int "-120" ≡ some (negsuc 119)
unfolding parse_int
parses = refl

overflows : parse_int "9223372036854775808" ≡ none
unfolding parse_int
overflows = refl

prints : itoa (negsuc 119) ≡ "-120"
unfolding itoa
prints = refl
