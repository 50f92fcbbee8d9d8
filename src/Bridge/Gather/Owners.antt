-- ===== src/Bridge/Gather/Owners.antt =====
-- The loop over what the providers collect, and what it saves of the owners' snapshots.
use komari_bridge.Base.{
  ◌+◌, ◌∙◌, inr, inl, Bool-cases, Option-cases, ℕ, ◌≡◌, refl, String, ◌==◌, Bool, true, false, List,
  [], ◌∷◌, ◌++◌, arith, if◌then◌else◌, ok, err, ◌&&◌, length,
}
use komari_bridge.Base.Dict.{lookup, insert, member, lookup-insert}
use komari_bridge.Base.Floats.{Float64}
use komari_bridge.Model.{Snapshot}
use komari_bridge.Bridge.Validate.{Check, validate_snapshot}
use komari_bridge.Bridge.Merge.{resource_key}
use komari_bridge.Bridge.Gather.{
  Collected, Gathered, target_keys, put_merged, gather_authoritative, gather_snapshot,
  gather_snapshots, gather_provider, gather, add_error, collect_failed,
}
use komari_bridge.Bridge.Gather.Saved.{
  Saved, Holds, is_valid, owned_by, said, last_said, length-append, last_said-append,
  put_merged-Holds, ticks-put_merged,
}

module _ {F : Type 0} ⦃fl : Float64 F⦄ (clock : ℕ → ℕ) (key : String) where
  -- After a part of a cycle, in which the owners said the snapshots, the cache has the last one of
  -- the resource.
  pub record IsSaved (g : Gathered F) (before : Saved F) (ss : List (Snapshot F)) (g' : Gathered F)
      : Type 0 where
    pub holds : Holds (lookup key g'.cache) (last_said clock key g.ticks before ss)
    pub ticks : g'.ticks ≡ g.ticks + length ss

  append-IsSaved :
      (g g' g'' : Gathered F) (before : Saved F) (xs ys : List (Snapshot F))
      → IsSaved g before xs g'
      → IsSaved g' (last_said clock key g.ticks before xs) ys g''
      → IsSaved g before (xs ++ ys) g''
  append-IsSaved g g' g'' before xs ys h k = record {
    holds = rw (last_said-append clock key g.ticks before xs ys, ← h.ticks) k.holds;
    ticks = omega (arith, h.ticks, k.ticks, length-append xs ys);
  }

  -- A write to the merged snapshots leaves what was saved.
  put_merged-IsSaved :
      (own : Bool) (k : String) (s : Snapshot F) (g g' : Gathered F) (before : Saved F)
      (ss : List (Snapshot F))
      → IsSaved g before ss g'
      → IsSaved g before ss (put_merged own k s g')
  put_merged-IsSaved own k s g g' before ss h = record {
    holds = put_merged-Holds own k key s g' _ h.holds;
    ticks = ticks-put_merged own k s g' ∙ h.ticks;
  }

  stays :
      (g : Gathered F) (before : Saved F)
      → Holds (lookup key g.cache) before
      → IsSaved g before [] g
  unfolding last_said
  stays g before h = record { holds = h; ticks = omega arith }

  cached_now : Snapshot F → Gathered F → Gathered F
  cached_now s g = record g {
    cache =
        insert (resource_key s.identity)
          (record { snapshot = s; saved_at = clock g.ticks; aliased = false }) g.cache;
    ticks = g.ticks + 1;
  }

  cached_now-IsSaved :
      (s : Snapshot F) (g : Gathered F) (before : Saved F)
      → Holds (lookup key g.cache) before
      → IsSaved g before (s ∷ []) (cached_now s g)
  unfolding last_said cached_now
  cached_now-IsSaved s g before h = record {
    holds = elim (Bool-cases (resource_key s.identity == key)) [
      | inl same ↦ rw (lookup-insert (resource_key s.identity) key _ g.cache, same) (refl, refl)
      | inr other ↦ rw (lookup-insert (resource_key s.identity) key _ g.cache, other) h
    ];
    ticks = refl;
  }

  said_by : Collected F → Snapshot F → List (Snapshot F)
  said_by p s =
      if member (resource_key s.identity) (target_keys p.targets) && is_valid (validate_snapshot s)
      then s ∷ []
      else []

  authoritative-IsSaved :
      (p : Collected F) (s : Snapshot F) (check : Check) (g : Gathered F) (before : Saved F)
      → Holds (lookup key g.cache) before
      → IsSaved g before
          (if is_valid check then s ∷ [] else [])
          (gather_authoritative clock p (resource_key s.identity) s check g)
  unfolding gather_authoritative cached_now
  authoritative-IsSaved p s (err e) g before h =
      let same = stays g before h in record { holds = same.holds; ticks = same.ticks }
  authoritative-IsSaved p s (ok _) g before h =
      put_merged-IsSaved true (resource_key s.identity) s g (cached_now s g) before (s ∷ [])
        (cached_now-IsSaved s g before h)

  gather_snapshot-IsSaved :
      (p : Collected F) (s : Snapshot F) (g : Gathered F) (before : Saved F)
      → Holds (lookup key g.cache) before
      → IsSaved g before (said_by p s) (gather_snapshot clock p s g)
  unfolding gather_snapshot said_by
  gather_snapshot-IsSaved p s g before h =
      elim (Bool-cases (member (resource_key s.identity) (target_keys p.targets))) [
        | inl owner ↦ rw owner (authoritative-IsSaved p s (validate_snapshot s) g before h)
        | inr other ↦
            rw other (
              put_merged-IsSaved false (resource_key s.identity) s g g before [] (stays g before h))
      ]

  owned_by_cons :
      (p : Collected F) (s : Snapshot F) (ss : List (Snapshot F))
      → owned_by p (s ∷ ss) ≡ said_by p s ++ owned_by p ss
  unfolding owned_by said_by
  owned_by_cons p s ss = ground arith

  gather_snapshots-IsSaved :
      (p : Collected F) (ss : List (Snapshot F)) (g : Gathered F) (before : Saved F)
      → Holds (lookup key g.cache) before
      → IsSaved g before (owned_by p ss) (gather_snapshots clock p ss g)
  unfolding gather_snapshots owned_by
  gather_snapshots-IsSaved p [] g before h = stays g before h
  gather_snapshots-IsSaved p (s ∷ ss) g before h =
      let first = gather_snapshot-IsSaved p s g before h in
      rw owned_by_cons (
        append-IsSaved g (gather_snapshot clock p s g) _ before (said_by p s) (owned_by p ss) first
          (gather_snapshots-IsSaved p ss (gather_snapshot clock p s g) _ first.holds))

  -- What the cache of a cycle has of a resource after the last provider: the last valid snapshot of
  -- its owner in the cycle, with the time it was saved at, or else what it had before.
  pub gather-IsSaved :
      (ps : List (Collected F)) (g : Gathered F) (before : Saved F)
      → Holds (lookup key g.cache) before
      → IsSaved g before (said ps) (gather clock ps g)
  unfolding gather gather_provider said
  gather-IsSaved [] g before h = stays g before h
  gather-IsSaved (p ∷ ps) g before h = elim (Option-cases p.snapshots) [
    | inl silent ↦
        let failed = add_error (collect_failed p.source_type p.id) g in
        let rest = gather-IsSaved ps failed before h in
        rw silent (record { holds = rest.holds; ticks = rest.ticks })
    | inr (ss, told) ↦
        let first = gather_snapshots-IsSaved p ss g before h in
        rw told (
          append-IsSaved g (gather_snapshots clock p ss g) _ before (owned_by p ss) (said ps) first
            (gather-IsSaved ps (gather_snapshots clock p ss g) _ first.holds))
  ]
