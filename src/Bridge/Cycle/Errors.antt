-- ===== src/Bridge/Cycle/Errors.antt =====
-- The errors of a cycle: none of them is lost.
use komari_bridge.Base.{
  ℕ, ◌+◌, ◌≡◌, refl, String, Bool, true, false, Option, none, some, List, [], ◌∷◌, ◌++◌, All, map,
  Result, ok, err, arith, is_some,
}
use komari_bridge.Base.Floats.{Float64}
use komari_bridge.Buildinfo.{Build}
use komari_bridge.Model.{Snapshot}
use komari_bridge.Bridge.Validate.{Check, Invalid, validate_snapshot}
use komari_bridge.Bridge.Merge.{resource_key}
use komari_bridge.Bridge.Topology.{with_version}
use komari_bridge.Bridge.Gather.{
  Collected, Gathered, collect_failed, put_merged, apply_authority, apply_authorities,
  gather_authoritative, gather_snapshot, gather_snapshots, gather_provider, gather,
}
use komari_bridge.Bridge.Process.{Env, Reporter, ProcessError, process}
use komari_bridge.Bridge.Cycle.{
  gather_error, Runner, failure, submit_checked, submit, submit_all, to_submit, gathered, cycle,
}

append-nil-first : {A : Type 0} (xs ys : List A) → xs ++ ys ≡ [] → xs ≡ []
append-nil-first [] ys h = refl
append-nil-first (x ∷ xs) ys h = cc

append-nil-second : {A : Type 0} (xs ys : List A) → xs ++ ys ≡ [] → ys ≡ []
append-nil-second [] ys h = h
append-nil-second (x ∷ xs) ys h = cc

map-nil : {A B : Type 0} (f : A → B) (xs : List A) → map f xs ≡ [] → xs ≡ []
map-nil f [] h = refl
map-nil f (x ∷ xs) h = cc

module _ {F : Type 0} where
  -- Did `Collect` return snapshots?
  pub record HasCollected (p : Collected F) : Type 0 where
    pub returned : is_some p.snapshots ≡ true

  errors-put_merged :
      (own : Bool) (key : String) (s : Snapshot F) (g : Gathered F)
      → (put_merged own key s g).errors ≡ g.errors
  unfolding put_merged
  errors-put_merged own key s g = ground arith

  errors-apply_authority :
      (now : ℕ) (key : String) (g : Gathered F) → (apply_authority now key g).errors ≡ g.errors
  unfolding apply_authority
  errors-apply_authority now key g = grind (arith, errors-put_merged)

  errors-apply_authorities :
      (now : ℕ) (keys : List String) (g : Gathered F)
      → (apply_authorities now keys g).errors ≡ g.errors
  unfolding apply_authorities
  errors-apply_authorities now [] g = refl
  errors-apply_authorities now (key ∷ keys) g =
      rw (errors-apply_authorities now keys (apply_authority now key g))
        (errors-apply_authority now key g)

module _ {F : Type 0} ⦃fl : Float64 F⦄ (clock : ℕ → ℕ) where
  gather_authoritative_quiet :
      (p : Collected F) (key : String) (s : Snapshot F) (v : Check) (g : Gathered F)
      → (gather_authoritative clock p key s v g).errors ≡ []
      → g.errors ≡ []
  unfolding gather_authoritative
  gather_authoritative_quiet p key s (err e) g h = append-nil-first g.errors _ h
  gather_authoritative_quiet p key s (ok _) g h = rw (errors-put_merged true key s _) at h

  gather_snapshot_quiet :
      (p : Collected F) (s : Snapshot F) (g : Gathered F)
      → (gather_snapshot clock p s g).errors ≡ []
      → g.errors ≡ []
  unfolding gather_snapshot
  gather_snapshot_quiet p s g h = grind (
    arith,
    errors-put_merged false (resource_key s.identity) s g,
    gather_authoritative_quiet p (resource_key s.identity) s (validate_snapshot s) g,
  )

  gather_snapshots_quiet :
      (p : Collected F) (ss : List (Snapshot F)) (g : Gathered F)
      → (gather_snapshots clock p ss g).errors ≡ []
      → g.errors ≡ []
  unfolding gather_snapshots
  gather_snapshots_quiet p [] g h = h
  gather_snapshots_quiet p (s ∷ ss) g h =
      gather_snapshot_quiet p s g (gather_snapshots_quiet p ss (gather_snapshot clock p s g) h)

  gather_snapshots_of :
      (p : Collected F) (found : Option (List (Snapshot F))) (g : Gathered F)
      → p.snapshots ≡ found
      → (gather_provider clock p g).errors ≡ []
      → HasCollected p × (g.errors ≡ [])
  unfolding gather_provider
  gather_snapshots_of p none g e h =
      let alone = append-nil-second g.errors (collect_failed p.source_type p.id ∷ []) (rw e at h) in
      cc
  gather_snapshots_of p (some ss) g e h =
      (record { returned = rw e refl }, gather_snapshots_quiet p ss g (rw e at h))

  gather_quiet :
      (ps : List (Collected F)) (g : Gathered F)
      → (gather clock ps g).errors ≡ []
      → All HasCollected ps × (g.errors ≡ [])
  unfolding gather
  gather_quiet [] g h = (tt, h)
  gather_quiet (p ∷ ps) g h =
      let rest = gather_quiet ps (gather_provider clock p g) h in
      let first = gather_snapshots_of p p.snapshots g refl rest.1 in ((first.0, rest.0), first.1)

module _ {F : Type 0} ⦃fl : Float64 F⦄ (env : Env F) (build : Build) where
  -- The snapshot passes the checks with the version of the build, and is processed without an error.
  pub record IsProcessed (s : Snapshot F) (r : Reporter F) : Type 0 where
    pub valid : validate_snapshot (with_version build s) ≡ ok tt
    pub processed : (process env (with_version build s) r).0 ≡ ok tt

  -- Each snapshot in order, from what the ones before it left.
  abbrev pub AllProcessed : List (Snapshot F) → Reporter F → Type 0
  AllProcessed [] r = Unit
  AllProcessed (s ∷ ss) r = IsProcessed s r × AllProcessed ss (submit env build s r).1

  failure_none :
      (s : Snapshot F) (p : Result ProcessError (Unit {0})) → failure env build s p ≡ [] → p ≡ ok tt
  failure_none s (ok tt) h = refl
  failure_none s (err e) h = cc

  submit_checked_quiet :
      (s : Snapshot F) (v : Result Invalid (Unit {0})) (r : Reporter F)
      → (submit_checked env build s v r).0 ≡ []
      → (v ≡ ok tt) × ((process env s r).0 ≡ ok tt)
  unfolding submit_checked
  submit_checked_quiet s (err e) r h = cc
  submit_checked_quiet s (ok tt) r h = (refl, failure_none s (process env s r).0 h)

  submit_quiet : (s : Snapshot F) (r : Reporter F) → (submit env build s r).0 ≡ [] → IsProcessed s r
  unfolding submit
  submit_quiet s r h =
      let v = with_version build s in
      let both = submit_checked_quiet v (validate_snapshot v) r h in
      record { valid = both.0; processed = both.1 }

  submit_all_quiet :
      (ss : List (Snapshot F)) (r : Reporter F)
      → (submit_all env build ss r).0 ≡ []
      → AllProcessed ss r
  unfolding submit_all
  submit_all_quiet [] r h = tt
  submit_all_quiet (s ∷ ss) r h =
      let first = submit env build s r in
      (
        submit_quiet s r (append-nil-first first.0 _ h),
        submit_all_quiet ss first.1 (append-nil-second first.0 _ h),
      )

  -- A cycle that returns no error has lost none: every provider returned its snapshots, and every
  -- merged snapshot, in the order of the range, passed the checks and was processed without an error.
  pub cycle_quiet :
      (order : List (Snapshot F) → List (Snapshot F)) (authorities : List String)
      (collected : List (Collected F)) (r : Runner F)
      → (cycle env build order authorities collected r).0 ≡ []
      → let g = gathered env build authorities collected r in
        All HasCollected collected
        × AllProcessed (to_submit env build order g.merged) (record r.reporter { ticks = g.ticks })
  unfolding cycle gathered
  cycle_quiet order authorities collected r h =
      let g = gathered env build authorities collected r in
      let quiet : g.errors ≡ [] =
        map-nil gather_error g.errors (append-nil-first (map gather_error g.errors) _ h) in
      let start : Gathered F = record {
        merged = [];
        cache = map (λ (key, c). (key, record c { aliased = false })) r.cache;
        errors = [];
        ticks = r.reporter.ticks;
      } in
      let all = gather env.clock collected start in
      (
        (gather_quiet env.clock collected start
            (rw (errors-apply_authorities _ _ (record all { ticks = all.ticks + 1 })) at quiet)).0,
        submit_all_quiet _ _ (append-nil-second (map gather_error g.errors) _ h),
      )
