-- ===== src/Base/Dict.antt =====
-- Go's maps as association lists with string keys. A `range` over a map visits the entries in an
-- order that Go leaves open: here it is the order of the list, and statements are about every list.
use Prim.Native.String.{String}
use mathlib.Core.Path.{◌≡◌, refl, subst}
use mathlib.Core.Bool.{Bool, false, ◌||◌}
use mathlib.Core.Logic.{inl, inr}
use mathlib.Core.Option.{Option, none, some}
use mathlib.Core.List.{List, [], ◌∷◌}
use native.Mathlib.Omega.{arith}
use text.Mathlib.Text.{◌==◌}
use text.Mathlib.TextEquality.{eq_iff}
use komari_bridge.Base.Tests.{if◌then◌else◌, is_some, Bool-cases}

abbrev pub Dict {ℓ} : Type ℓ → Type ℓ
Dict V = List (String × V)

module _ {ℓ} {V : Type ℓ} where
  unfoldable pub lookup : String → Dict V → Option V
  lookup k [] = none
  lookup k ((j, v) ∷ d) = if j == k then some v else lookup k d

  -- `m[k] = v`
  unfoldable pub insert : String → V → Dict V → Dict V
  insert k v [] = (k, v) ∷ []
  insert k v ((j, w) ∷ d) = if j == k then (k, v) ∷ d else (j, w) ∷ insert k v d

  -- `delete(m, k)`. Every entry of the key goes; a real map has at most one.
  unfoldable pub erase : String → Dict V → Dict V
  erase k [] = []
  erase k ((j, w) ∷ d) = let rest = erase k d in if j == k then rest else (j, w) ∷ rest

  -- A range over `from` that writes each entry into `onto`.
  unfoldable pub insert_all : Dict V → Dict V → Dict V
  insert_all [] onto = onto
  insert_all ((k, v) ∷ from) onto = insert_all from (insert k v onto)

  abbrev pub NodupKeys : Dict V → Type 0
  NodupKeys [] = Unit
  NodupKeys ((k, _) ∷ d) = (is_some (lookup k d) ≡ false) × NodupKeys d

  pub lookup-cons :
      (j k : String) (v : V) (d : Dict V)
      → lookup j ((k, v) ∷ d) ≡ (if k == j then some v else lookup j d)
  unfolding lookup
  lookup-cons j k v d = refl

  pub lookup-insert :
      (k j : String) (v : V) (d : Dict V)
      → lookup j (insert k v d) ≡ (if k == j then some v else lookup j d)
  unfolding lookup insert
  lookup-insert k j v [] = refl
  lookup-insert k j v ((i, w) ∷ d) =
      ground (arith, eq_iff k j, eq_iff i k, eq_iff i j, lookup-insert k j v d)

  pub lookup-erase :
      (k j : String) (d : Dict V) → lookup j (erase k d) ≡ (if k == j then none else lookup j d)
  unfolding lookup erase
  lookup-erase k j [] = ground arith
  lookup-erase k j ((i, w) ∷ d) =
      ground (arith, eq_iff k j, eq_iff i k, eq_iff i j, lookup-erase k j d)

  pub insert-NodupKeys : (k : String) (v : V) (d : Dict V) → NodupKeys d → NodupKeys (insert k v d)
  unfolding insert lookup
  insert-NodupKeys k v [] _ = (refl, tt)
  insert-NodupKeys k v ((j, w) ∷ d) (fresh, u) =
      ground (arith, insert-NodupKeys k v d u, lookup-insert k j v d, eq_iff j k, eq_iff k j)

  pub erase-NodupKeys : (k : String) (d : Dict V) → NodupKeys d → NodupKeys (erase k d)
  unfolding erase
  erase-NodupKeys k [] _ = tt
  erase-NodupKeys k ((j, w) ∷ d) (fresh, u) =
      ground (arith, erase-NodupKeys k d u, lookup-erase k j d, eq_iff k j)

  -- With one entry for each key, the range writes each key's entry, and leaves the other keys.
  pub lookup-insert_all :
      (k : String) (from onto : Dict V)
      → NodupKeys from
      → lookup k (insert_all from onto)
        ≡ elim (lookup k from) [ some v ↦ some v | none ↦ lookup k onto ]
  unfolding insert_all lookup
  lookup-insert_all k [] onto _ = refl
  lookup-insert_all k ((j, v) ∷ from) onto (fresh, u) =
      ground
        (arith, lookup-insert_all k from (insert j v onto) u, lookup-insert j k v onto, eq_iff j k)

-- A set of strings is a map to the one value.
abbrev pub StringSet : Type 0
StringSet = List String

unfoldable pub member : String → StringSet → Bool
member k [] = false
member k (j ∷ s) = (j == k) || member k s

-- Every value that a dictionary holds.
abbrev pub AllValues {ℓ} : {V : Type ℓ} → (V → Type 0) → Dict V → Type 0
AllValues P [] = Unit
AllValues P ((_, v) ∷ d) = P v × AllValues P d

abbrev pub AllSome {ℓ} : {V : Type ℓ} → (V → Type 0) → Option V → Type 0
AllSome P none = Unit
AllSome P (some v) = P v

pub lookup-AllValues {ℓ} :
    {V : Type ℓ} (P : V → Type 0) (k : String) (d : Dict V) → AllValues P d → AllSome P (lookup k d)
unfolding lookup
lookup-AllValues P k [] h = tt
lookup-AllValues P k ((j, w) ∷ d) (first, rest) = elim (Bool-cases (j == k)) [
  | inl same ↦ rw same first
  | inr other ↦ rw other (lookup-AllValues P k d rest)
]

pub insert-AllValues {ℓ} :
    {V : Type ℓ} (P : V → Type 0) (k : String) (v : V) (d : Dict V)
    → P v
    → AllValues P d
    → AllValues P (insert k v d)
unfolding insert
insert-AllValues P k v [] new h = (new, tt)
insert-AllValues P k v ((j, w) ∷ d) new (first, rest) = elim (Bool-cases (j == k)) [
  | inl same ↦ rw same (new, rest)
  | inr other ↦ rw other (first, insert-AllValues P k v d new rest)
]

-- Every entry that a dictionary holds, with its key.
abbrev pub AllEntries {ℓ} : {V : Type ℓ} → (String → V → Type 0) → Dict V → Type 0
AllEntries P [] = Unit
AllEntries P ((k, v) ∷ d) = P k v × AllEntries P d

pub lookup-AllEntries {ℓ} :
    {V : Type ℓ} (P : String → V → Type 0) (k : String) (d : Dict V)
    → AllEntries P d
    → AllSome (P k) (lookup k d)
unfolding lookup
lookup-AllEntries P k [] h = tt
lookup-AllEntries P k ((j, w) ∷ d) (head, rest) = elim (Bool-cases (j == k)) [
  | inl same ↦ let e = (eq_iff j k).0 same in rw same (subst (λ (i : String). P i w) e head)
  | inr other ↦ rw other (lookup-AllEntries P k d rest)
]

pub insert-AllEntries {ℓ} :
    {V : Type ℓ} (P : String → V → Type 0) (k : String) (v : V) (d : Dict V)
    → P k v
    → AllEntries P d
    → AllEntries P (insert k v d)
unfolding insert
insert-AllEntries P k v [] new h = (new, tt)
insert-AllEntries P k v ((j, w) ∷ d) new (head, rest) = elim (Bool-cases (j == k)) [
  | inl same ↦ rw same (new, rest)
  | inr other ↦ rw other (head, insert-AllEntries P k v d new rest)
]
