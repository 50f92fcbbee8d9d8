-- ===== src/Bridge/Gather/Saved.antt =====
-- What the owners of metrics have said last, as the cache of a cycle has it.
use komari_bridge.Base.{
  ◌+◌, ◌∙◌, inr, inl, Bool-cases, Option-cases, ℕ, ◌≡◌, ◌≢◌, refl, sym, ap, String, ◌==◌, eq_iff,
  Bool, true, false, Option, none, some, List, [], ◌∷◌, ◌++◌, arith, if◌then◌else◌, ok, err, ◌&&◌,
  length,
}
use komari_bridge.Base.Dict.{Dict, lookup, member, lookup-insert}
use komari_bridge.Base.Floats.{Float64}
use komari_bridge.Model.{Snapshot}
use komari_bridge.Bridge.Validate.{Check, validate_snapshot}
use komari_bridge.Bridge.Merge.{resource_key, swapped, merge_snapshots}
use komari_bridge.Bridge.Gather.{
  Cached, Collected, Gathered, adjust, share, write_tags, target_keys, put_merged,
}
use komari_bridge.Bridge.Gather.Authority.{lookup-adjust}

-- A snapshot, and when it was saved.
abbrev pub Saved : Type 0 → Type 0
Saved F = Option (Snapshot F × ℕ)

abbrev pub is_valid : Check → Bool
is_valid (ok _) = true
is_valid (err _) = false

module _ {F : Type 0} where
  abbrev pub saved_of : Cached F → Snapshot F × ℕ
  saved_of c = (c.snapshot, c.saved_at)

  -- All but the tags, which a snapshot shares with its merge, are the same.
  abbrev pub IsLike : Snapshot F → Snapshot F → Type 0
  IsLike s t = t ≡ record s { tags = t.tags }

  -- The cache has the snapshot, saved at its time, or has none where there is none.
  abbrev pub Holds : Option (Cached F) → Saved F → Type 0
  Holds none none = Unit
  Holds (some c) (some (s, at)) = (c.saved_at ≡ at) × IsLike s c.snapshot
  Holds _ _ = ⊥

module _ {F : Type 0} ⦃fl : Float64 F⦄ where
  -- The valid ones of a provider's snapshots whose metrics it owns.
  unfoldable pub owned_by : Collected F → List (Snapshot F) → List (Snapshot F)
  owned_by p [] = []
  owned_by p (s ∷ ss) =
      let rest = owned_by p ss in
      if member (resource_key s.identity) (target_keys p.targets) && is_valid (validate_snapshot s)
      then s ∷ rest
      else rest

  -- What the owners say in a cycle, in order: the valid snapshots of their targets.
  unfoldable pub said : List (Collected F) → List (Snapshot F)
  said [] = []
  said (p ∷ ps) = elim p.snapshots [ none ↦ said ps | some ss ↦ owned_by p ss ++ said ps ]

pub length-append : {A : Type 0} (xs ys : List A) → length (xs ++ ys) ≡ length xs + length ys
length-append [] ys = omega arith
length-append (x ∷ xs) ys = omega (arith, length-append xs ys)

module _ {F : Type 0} (clock : ℕ → ℕ) (key : String) where
  -- The last of the snapshots that are of the resource, with the time it is saved at, or else the one
  -- from before: each snapshot that is saved reads the clock once.
  unfoldable pub last_said : ℕ → Saved F → List (Snapshot F) → Saved F
  last_said t before [] = before
  last_said t before (s ∷ ss) =
      last_said (t + 1) (if resource_key s.identity == key then some (s, clock t) else before) ss

  pub last_said-append :
      (t : ℕ) (before : Saved F) (xs ys : List (Snapshot F))
      → last_said t before (xs ++ ys) ≡ last_said (t + length xs) (last_said t before xs) ys
  unfolding last_said
  last_said-append t before [] ys = ap (λ n. last_said n before ys) (omega arith)
  last_said-append t before (x ∷ xs) ys =
      let before' = if resource_key x.identity == key then some (x, clock t) else before in
      last_said-append (t + 1) before' xs ys
      ∙ ap (λ n. last_said n (last_said (t + 1) before' xs) ys) (omega arith)

module _ {F : Type 0} where
  share-Holds :
      (own : Bool) (current s : Snapshot F) (c : Cached F) (e : Saved F)
      → Holds (some c) e
      → Holds (some (share own current s c)) e
  share-Holds own current s c none h = h
  share-Holds own current s c (some (t, at)) (time, like) =
      let tags = (merge_snapshots current s).tags in
      let written : IsLike t (write_tags tags c).snapshot =
        ap (λ (u : Snapshot F). record u { tags = tags }) like in
      elim (Bool-cases (swapped current s)) [
        | inl e ↦ elim (Bool-cases own) [
          | inl o ↦ rw (e, o) (time, written)
          | inr o ↦ rw (e, o) (time, like)
        ]
        | inr e ↦ elim (Bool-cases c.aliased) [
          | inl a ↦ rw (e, a) (time, written)
          | inr a ↦ rw (e, a) (time, like)
        ]
      ]

  mark-Holds :
      (own : Bool) (c : Cached F) (e : Saved F)
      → Holds (some c) e
      → Holds (some (record c { aliased = own })) e
  mark-Holds own c none h = h
  mark-Holds own c (some saved) h = h

  adjust-Holds :
      (key k : String) (change : Cached F → Cached F) (cache : Dict (Cached F)) (e : Saved F)
      → ((c : Cached F) → Holds (some c) e → Holds (some (change c)) e)
      → Holds (lookup k cache) e
      → Holds (lookup k (adjust key change cache)) e
  unfolding adjust
  adjust-Holds key k change cache e keep h = elim (Bool-cases (key == k)) [
    | inr other ↦
        let ne : key ≢ k = λ e. cc ((eq_iff key k).1 e, other) in
        rw (lookup-adjust key k change cache ne) h
    | inl same ↦ elim (Option-cases (lookup key cache)) [
      | inl n ↦ rw (n, adjust) h
      | inr (c, y) ↦
          let here = (eq_iff key k).0 same in
          rw (y, adjust, lookup-insert key k (change c) cache, same)
            (keep c (rw (sym here, y) at h))
    ]
  ]

  pub put_merged-Holds :
      (own : Bool) (key k : String) (s : Snapshot F) (g : Gathered F) (e : Saved F)
      → Holds (lookup k g.cache) e
      → Holds (lookup k (put_merged own key s g).cache) e
  unfolding put_merged
  put_merged-Holds own key k s g e h = elim (Option-cases (lookup key g.merged)) [
    | inl n ↦
        rw (n, put_merged)
          (adjust-Holds key k (λ c. record c { aliased = own }) g.cache e (λ c. mark-Holds own c e)
            h)
    | inr (current, y) ↦
        rw (y, put_merged)
          (adjust-Holds key k (share own current s) g.cache e (λ c. share-Holds own current s c e)
            h)
  ]

  pub ticks-put_merged :
      (own : Bool) (key : String) (s : Snapshot F) (g : Gathered F)
      → (put_merged own key s g).ticks ≡ g.ticks
  unfolding put_merged
  ticks-put_merged own key s g = elim (Option-cases (lookup key g.merged)) [
    | inl n ↦ rw (n, put_merged) refl
    | inr (current, y) ↦ rw (y, put_merged) refl
  ]
