-- ===== src/Bridge/Gather/Authority.antt =====
-- What the authorities decide: whose metrics a target reports, and when it reports none.
use komari_bridge.Base.{
  ◌∙◌, ◌≤◌, inr, inl, Bool-cases, Option-cases, ℕ, ◌+◌, ◌<◌, ◌≡◌, ◌≢◌, refl, String, ◌==◌, eq_iff,
  eq_refl, Bool, true, false, Option, none, some, List, [], ◌∷◌, arith, if◌then◌else◌,
}
use komari_bridge.Base.Int.{◌≤ℤ◌}
use komari_bridge.Base.Time.{minute, is_older, is_older_iff}
use komari_bridge.Base.Dict.{Dict, lookup, member, lookup-insert, lookup-erase}
use komari_bridge.Model.{Snapshot}
use komari_bridge.Bridge.Merge.{merge_snapshots}
use komari_bridge.Bridge.Merge.Laws.{IsPayload, merge_cases}
use komari_bridge.Bridge.Gather.{
  Cached, Gathered, adjust, share, put_merged, apply_authority, apply_authorities,
}

module _ {F : Type 0} where
  pub lookup-adjust :
      (key k : String) (change : Cached F → Cached F) (cache : Dict (Cached F))
      → key ≢ k
      → lookup k (adjust key change cache) ≡ lookup k cache
  unfolding adjust
  lookup-adjust key k change cache ne = elim (Option-cases (lookup key cache)) [
    | inl e ↦ rw (e, adjust)
    | inr (c, e) ↦
        rw (e, adjust) (ground (arith, lookup-insert key k (change c) cache, eq_iff key k))
  ]

  -- A write under one key leaves the other keys.
  lookup-put_ne :
      (own : Bool) (key k : String) (s : Snapshot F) (g : Gathered F)
      → key ≢ k
      → (lookup k (put_merged own key s g).merged ≡ lookup k g.merged)
        × (lookup k (put_merged own key s g).cache ≡ lookup k g.cache)
  unfolding put_merged
  lookup-put_ne own key k s g ne = elim (Option-cases (lookup key g.merged)) [
    | inl e ↦
        rw (e, put_merged)
          (
            ground (arith, lookup-insert key k s g.merged, eq_iff key k),
            lookup-adjust key k (λ c. record c { aliased = own }) g.cache ne,
          )
    | inr (current, e) ↦
        rw (e, put_merged)
          (
            ground (arith, lookup-insert key k (merge_snapshots current s) g.merged, eq_iff key k),
            lookup-adjust key k (share own current s) g.cache ne,
          )
  ]

  -- What is under the key after a write: the snapshot, or its merge with what was there.
  abbrev pub onto : Option (Snapshot F) → Snapshot F → Snapshot F
  onto none s = s
  onto (some current) s = merge_snapshots current s

  lookup-put_self :
      (own : Bool) (key : String) (s : Snapshot F) (g : Gathered F)
      → lookup key (put_merged own key s g).merged ≡ some (onto (lookup key g.merged) s)
  unfolding put_merged
  lookup-put_self own key s g = elim (Option-cases (lookup key g.merged)) [
    | inl e ↦ rw (e, put_merged) (ground (arith, lookup-insert key key s g.merged, eq_refl key))
    | inr (current, e) ↦
        rw (e, put_merged)
          (ground (arith, lookup-insert key key (merge_snapshots current s) g.merged, eq_refl key))
  ]

-- The targets, each once.
abbrev pub Once : List String → Type 0
Once [] = Unit
Once (key ∷ keys) = (member key keys ≡ false) × Once keys

module _ {F : Type 0} (now : ℕ) where
  -- What an authority makes of the merged snapshot of its target: with no cached snapshot, or one
  -- that is older than a minute, the target is not reported.
  abbrev pub authority_result : Option (Cached F) → Option (Snapshot F) → Option (Snapshot F)
  authority_result none current = none
  authority_result (some c) current =
      if is_older now c.saved_at minute then none else some (onto current c.snapshot)

  lookup-apply_ne :
      (key k : String) (g : Gathered F)
      → key ≢ k
      → (lookup k (apply_authority now key g).merged ≡ lookup k g.merged)
        × (lookup k (apply_authority now key g).cache ≡ lookup k g.cache)
  unfolding apply_authority
  lookup-apply_ne key k g ne = elim (Option-cases (lookup key g.cache)) [
    | inl e ↦
        rw (e, apply_authority) (ground (arith, lookup-erase key k g.merged, eq_iff key k), refl)
    | inr (c, e) ↦
        rw (e, apply_authority)
          (ground (
            arith,
            lookup-erase key k g.merged,
            eq_iff key k,
            lookup-put_ne true key k c.snapshot g ne,
          ))
  ]

  lookup-apply_self :
      (key : String) (g : Gathered F)
      → lookup key (apply_authority now key g).merged
        ≡ authority_result (lookup key g.cache) (lookup key g.merged)
  unfolding apply_authority
  lookup-apply_self key g = elim (Option-cases (lookup key g.cache)) [
    | inl e ↦ rw (e, apply_authority) (ground (arith, lookup-erase key key g.merged, eq_refl key))
    | inr (c, e) ↦
        rw (e, apply_authority)
          (ground (
            arith,
            lookup-erase key key g.merged,
            eq_refl key,
            lookup-put_self true key c.snapshot g,
          ))
  ]

  -- After the loop over targets that each stand once, in whatever order, a target has what its
  -- authority makes of it, and a resource that is no target has what it had.
  pub lookup-apply_authorities :
      (keys : List String) (k : String) (g : Gathered F)
      → Once keys
      → lookup k (apply_authorities now keys g).merged ≡ (
          if member k keys
          then authority_result (lookup k g.cache) (lookup k g.merged)
          else lookup k g.merged)
  unfolding apply_authorities member
  lookup-apply_authorities [] k g _ = refl
  lookup-apply_authorities (key ∷ keys) k g (fresh, once) = elim (Bool-cases (key == k)) [
    | inl here ↦
        let e = (eq_iff key k).0 here in
        rw (here, lookup-apply_authorities keys k (apply_authority now key g) once)
          (ground (arith, e, lookup-apply_self key g))
    | inr other ↦
        let ne : key ≢ k = λ e. cc ((eq_iff key k).1 e, other) in
        rw (other, lookup-apply_authorities keys k (apply_authority now key g) once)
          (ground (arith, lookup-apply_ne key k g ne))
  ]

  -- Where each target stands once, a target with no cached snapshot of at most a minute of age is not
  -- reported, whatever the other providers say of it.
  pub authority_silences :
      (keys : List String) (k : String) (g : Gathered F)
      → Once keys
      → member k keys ≡ true
      → ((c : Cached F) → lookup k g.cache ≡ some c → c.saved_at + minute < now)
      → lookup k (apply_authorities now keys g).merged ≡ none
  authority_silences keys k g once target stale =
      lookup-apply_authorities keys k g once ∙ rw target (no_result (lookup k g.cache) stale)
    where
      no_result :
          (o : Option (Cached F))
          → ((c : Cached F) → o ≡ some c → c.saved_at + minute < now)
          → authority_result o (lookup k g.merged) ≡ none
      no_result none h = refl
      no_result (some c) h =
          ground (arith, h c refl, is_older_iff now c.saved_at minute (omega arith))

  -- Where each target stands once, a target with a cached snapshot of at most a minute of age reports
  -- that snapshot's payload, if no snapshot of a higher priority has been merged.
  pub authority_decides :
      (keys : List String) (k : String) (g : Gathered F) (c : Cached F)
      → Once keys
      → member k keys ≡ true
      → lookup k g.cache ≡ some c
      → now ≤ c.saved_at + minute
      → ((m : Snapshot F) → lookup k g.merged ≡ some m → m.priority ≤ℤ c.snapshot.priority)
      → (m : Snapshot F) × (lookup k (apply_authorities now keys g).merged ≡ some m)
        × IsPayload c.snapshot m
  authority_decides keys k g c once target cached fresh top = (
    onto (lookup k g.merged) c.snapshot,
    lookup-apply_authorities keys k g once
        ∙ rw (target, cached) (ground (arith, is_older_iff now c.saved_at minute (omega arith))),
    payload (lookup k g.merged) top,
  )
    where
      payload :
          (o : Option (Snapshot F))
          → ((m : Snapshot F) → o ≡ some m → m.priority ≤ℤ c.snapshot.priority)
          → IsPayload c.snapshot (onto o c.snapshot)
      payload none h = ground arith
      payload (some m) h = (merge_cases m c.snapshot).0 (h m refl)
