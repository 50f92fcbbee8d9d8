-- ===== src/Bridge/Gather.antt =====
-- internal/bridge/runner.go: the first half of `Cycle`, which merges what the providers collect,
-- and `applyMetricAuthorities`. A Go map of tags is shared by the snapshots that are copies of one
-- another, and a merge writes into its base's map: `aliased` says that the merged snapshot of a key
-- has the map of the key's cached snapshot, so that the cached one sees the write too. A base without
-- a map is given a new one in the source, and shares it here: no provider returns such a snapshot.
pub mod Authority
pub mod Saved
pub mod Owners
use komari_bridge.Base.{
  ℕ, ◌+◌, String, Bool, true, false, not, ◌&&◌, Option, none, some, List, [], ◌∷◌, ◌++◌,
  if◌then◌else◌, Result, ok, err,
}
use komari_bridge.Base.Dict.{Dict, lookup, insert, erase, member}
use komari_bridge.Base.Time.{minute, is_older}
use komari_bridge.Base.Floats.{Float64}
use komari_bridge.Model.{Identity, valid, Snapshot}
use komari_bridge.Bridge.Validate.{Invalid, Check, validate_snapshot}
use komari_bridge.Bridge.Merge.{resource_key, merge_snapshots, swapped}

pub data GatherError : Type 0 where
  collect_failed : String → String → GatherError
  invalid_authoritative : String → String → String → Invalid → GatherError

-- `cachedSnapshot`.
pub record Cached (F : Type 0) : Type 0 where
  pub snapshot : Snapshot F
  pub saved_at : ℕ
  pub aliased : Bool

-- What one provider says in a cycle: its metric targets, none if it is no `MetricAuthority`, and
-- what `Collect` returns.
pub record Collected (F : Type 0) : Type 0 where
  pub source_type : String
  pub id : String
  pub targets : List Identity
  pub snapshots : Option (List (Snapshot F))

pub record Gathered (F : Type 0) : Type 0 where
  pub merged : Dict (Snapshot F)
  pub cache : Dict (Cached F)
  pub errors : List GatherError
  pub ticks : ℕ

-- The keys of the valid targets, each once.
unfoldable pub target_keys : List Identity → List String
unfolding valid resource_key member
target_keys [] = []
target_keys (i ∷ targets) =
    let rest = target_keys targets in
    if valid i && not (member (resource_key i) rest) then resource_key i ∷ rest else rest

module _ {F : Type 0} where
  -- `cache[key]` changed in place, if it is there.
  unfoldable pub adjust : String → (Cached F → Cached F) → Dict (Cached F) → Dict (Cached F)
  adjust key change cache = elim (lookup key cache) [
    | none ↦ cache
    | some c ↦ insert key (change c) cache
  ]

  abbrev pub write_tags : Dict String → Cached F → Cached F
  write_tags tags c = record c { snapshot = record c.snapshot { tags = tags } }

  -- A merge writes into the map of its base. `own` says that `s` is the key's cached snapshot.
  abbrev pub share : Bool → Snapshot F → Snapshot F → Cached F → Cached F
  share own current s c =
      let tags = (merge_snapshots current s).tags in
      if swapped current s
      then (if own
          then record (write_tags tags c) { aliased = true }
          else record c { aliased = false })
      else if c.aliased
      then write_tags tags c
      else c

  -- `merged[key] = …` with the merge, where the key is there already.
  unfoldable pub put_merged : Bool → String → Snapshot F → Gathered F → Gathered F
  unfolding merge_snapshots adjust
  put_merged own key s g = elim (lookup key g.merged) [
    | none ↦ record g {
      merged = insert key s g.merged;
      cache = adjust key (λ c. record c { aliased = own }) g.cache;
    }
    | some current ↦ record g {
      merged = insert key (merge_snapshots current s) g.merged;
      cache = adjust key (share own current s) g.cache;
    }
  ]

  -- One target of the loop of `applyMetricAuthorities`.
  unfoldable pub apply_authority : ℕ → String → Gathered F → Gathered F
  unfolding put_merged
  apply_authority now key g = elim (lookup key g.cache) [
    | none ↦ record g { merged = erase key g.merged }
    | some c ↦
        if is_older now c.saved_at minute
        then record g { merged = erase key g.merged }
        else put_merged true key c.snapshot g
  ]

  unfoldable pub apply_authorities : ℕ → List String → Gathered F → Gathered F
  unfolding apply_authority
  apply_authorities now [] g = g
  apply_authorities now (key ∷ keys) g = apply_authorities now keys (apply_authority now key g)

  abbrev pub add_error : GatherError → Gathered F → Gathered F
  add_error e g = record g { errors = g.errors ++ (e ∷ []) }

module _ {F : Type 0} ⦃fl : Float64 F⦄ (clock : ℕ → ℕ) where
  -- The body of the loop over a provider's snapshots.
  unfoldable pub gather_authoritative :
      Collected F → String → Snapshot F → Check → Gathered F → Gathered F
  unfolding put_merged
  gather_authoritative p key s (err e) g =
      add_error (invalid_authoritative p.source_type p.id s.identity.external_id e) g
  gather_authoritative p key s (ok _) g =
      let cached : Cached F = record { snapshot = s; saved_at = clock g.ticks; aliased = false } in
      put_merged true key s (record g { cache = insert key cached g.cache; ticks = g.ticks + 1 })

  unfoldable pub gather_snapshot : Collected F → Snapshot F → Gathered F → Gathered F
  unfolding gather_authoritative
  gather_snapshot p s g =
      let key = resource_key s.identity in
      if member key (target_keys p.targets)
      then gather_authoritative p key s (validate_snapshot s) g
      else put_merged false key s g

  unfoldable pub gather_snapshots : Collected F → List (Snapshot F) → Gathered F → Gathered F
  unfolding gather_snapshot
  gather_snapshots p [] g = g
  gather_snapshots p (s ∷ ss) g = gather_snapshots p ss (gather_snapshot p s g)

  -- A provider that fails contributes its error and nothing else.
  unfoldable pub gather_provider : Collected F → Gathered F → Gathered F
  unfolding gather_snapshots
  gather_provider p g = elim p.snapshots [
    | none ↦ add_error (collect_failed p.source_type p.id) g
    | some ss ↦ gather_snapshots p ss g
  ]

  unfoldable pub gather : List (Collected F) → Gathered F → Gathered F
  unfolding gather_provider
  gather [] g = g
  gather (p ∷ ps) g = gather ps (gather_provider p g)
