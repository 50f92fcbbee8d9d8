-- ===== src/Base/Text/Split.antt =====
-- Splitting, joining and sorting of texts.
use Prim.Native.Nat.{ℕ}
use Prim.Native.Char.{Char, code}
use Prim.Native.String.{String, compare, ◌++◌ as ◌<>◌}
use mathlib.Core.List.{List, [], ◌∷◌}
use text.Mathlib.Text.{◌==◌, is_le}
use komari_bridge.Base.Tests.{eqb, if◌then◌else◌}
use komari_bridge.Base.Text.Trim.{is_space}

-- A character in front of the first part.
abbrev pub push_front : Char → List String → List String
push_front c [] = String.◌∷◌ c String.[] ∷ []
push_front c (part ∷ parts) = String.◌∷◌ c part ∷ parts

-- `strings.Split` at a single character, given by its code. There is always a part.
unfoldable pub split : ℕ → String → List String
split sep String.[] = "" ∷ []
split sep (String.◌∷◌ c s) =
    let rest = split sep s in if eqb (code c) sep then "" ∷ rest else push_front c rest

-- `strings.Join`.
unfoldable pub join : String → List String → String
join sep [] = ""
join sep (part ∷ []) = part
join sep (part ∷ other ∷ parts) = part <> sep <> join sep (other ∷ parts)

abbrev drop_empty : List String → List String
drop_empty [] = []
drop_empty (part ∷ parts) = let rest = drop_empty parts in if part == "" then rest else part ∷ rest

split_space : String → List String
unfolding is_space
split_space String.[] = "" ∷ []
split_space (String.◌∷◌ c s) =
    let rest = split_space s in if is_space (code c) then "" ∷ rest else push_front c rest

-- `strings.Fields`.
unfoldable pub fields : String → List String
unfolding split_space
fields s = drop_empty (split_space s)

insert_sorted : String → List String → List String
insert_sorted s [] = s ∷ []
insert_sorted s (t ∷ ts) =
    let rest = insert_sorted s ts in if is_le (compare s t) then s ∷ t ∷ ts else t ∷ rest

-- `sort.Strings`: the order of the bytes.
unfoldable pub sort_strings : List String → List String
unfolding insert_sorted
sort_strings [] = []
sort_strings (s ∷ ss) = insert_sorted s (sort_strings ss)

-- The packages' `firstNonEmpty`.
unfoldable pub first_non_empty : List String → String
first_non_empty [] = ""
first_non_empty (value ∷ values) =
    let rest = first_non_empty values in if value == "" then rest else value
