-- ===== src/Base/Text/Parts.antt =====
-- The parts of a text between separators: `split` undoes a join.
use Prim.Native.Nat.{ℕ, zero, suc}
use Prim.Native.Char.{Char, code}
use Prim.Native.String.{String, [], ◌∷◌, ◌++◌}
use mathlib.Core.Path.{◌≡◌, refl}
use mathlib.Core.Logic.{inl, inr}
use mathlib.Core.Bool.{Bool, false, ◌||◌}
use mathlib.Core.List
use native.Mathlib.Omega.{arith}
use text.Mathlib.TextLemmas.{nil-append, cons-append}
use komari_bridge.Base.Tests.{eqb, Bool-cases}
use komari_bridge.Base.Text.Trim.{pick}
use komari_bridge.Base.Text.Split.{split}

abbrev pub contains : ℕ → String → Bool
contains sep [] = false
contains sep (c ∷ s) = eqb (code c) sep || contains sep s

pub contains-append :
    (sep : ℕ) (s t : String) → contains sep (s ++ t) ≡ (contains sep s || contains sep t)
contains-append sep [] t = rw (nil-append t) refl
contains-append sep (c ∷ s) t = rw (cons-append c s t) (ground (arith, contains-append sep s t))

pub contains-pick :
    (sep n : ℕ) (s : String) → contains sep s ≡ false → contains sep (pick n s) ≡ false
unfolding pick
contains-pick sep n [] h = refl
contains-pick sep zero (c ∷ s) h = ground arith
contains-pick sep (suc n) (c ∷ s) h = ground (arith, contains-pick sep n s)

pub split-alone : (sep : ℕ) (s : String) → contains sep s ≡ false → split sep s ≡ List.◌∷◌ s List.[]
unfolding split
split-alone sep [] h = refl
split-alone sep (c ∷ s) h = elim (Bool-cases (eqb (code c) sep)) [
  | inl same ↦ cc
  | inr other ↦ rw (other, split-alone sep s (ground arith)) refl
]

-- A first part without the separator is what `split` gives first.
pub split-append :
    (c : Char) (s t : String)
    → contains (code c) s ≡ false
    → split (code c) (s ++ (c ∷ t)) ≡ List.◌∷◌ s (split (code c) t)
unfolding split
split-append c [] t h = rw (nil-append (c ∷ t)) (ground arith)
split-append c (d ∷ s) t h =
    rw (cons-append d s (c ∷ t)) (elim (Bool-cases (eqb (code d) (code c))) [
      | inl same ↦ cc
      | inr other ↦ rw (other, split-append c s t (ground arith)) refl
    ])
