-- ===== src/Bridge/Cycle.antt =====
-- internal/bridge/runner.go: `NewRunner`'s authoritative targets and `Cycle`, which gathers what the
-- providers collect, applies the authorities, decorates the merged snapshots and processes them.
pub mod Sound
pub mod Isolation
pub mod Run
pub mod Errors
pub mod Delivery
pub mod Authority
use komari_bridge.Base.{
  ℕ, ◌+◌, String, Bool, true, false, Option, none, some, List, [], ◌∷◌, ◌++◌, map, Result, ok, err,
}
use komari_bridge.Base.Dict.{Dict}
use komari_bridge.Base.Floats.{Float64}
use komari_bridge.Buildinfo.{Build}
use komari_bridge.Model.{Identity, Snapshot}
use komari_bridge.Bridge.Validate.{Invalid, validate_snapshot}
use komari_bridge.Bridge.Gather.{
  GatherError, Cached, Collected, Gathered, target_keys, apply_authorities, gather,
}
use komari_bridge.Bridge.Topology.{decorate_topology, with_version}
use komari_bridge.Bridge.Process.{ProcessError, Env, Reporter, process}

pub data CycleError : Type 0 where
  gather_error : GatherError → CycleError
  invalid_merged : String → Invalid → CycleError
  process_error : String → ProcessError → CycleError

-- The runner: the reporter's state, and the cache of authoritative snapshots.
pub record Runner (F : Type 0) : Type 0 where
  pub reporter : Reporter F
  pub cache : Dict (Cached F)

abbrev pub concat : List (List Identity) → List Identity
concat [] = []
concat (is ∷ iss) = is ++ concat iss

-- The authoritative targets, which are fixed when the runner is made.
unfoldable pub authoritative_targets : List (List Identity) → List String
unfolding target_keys
authoritative_targets targets = target_keys (concat targets)

module _ {F : Type 0} ⦃fl : Float64 F⦄ (env : Env F) (build : Build) where
  abbrev pub failure : Snapshot F → Result ProcessError (Unit {0}) → List CycleError
  failure s (ok _) = []
  failure s (err e) = process_error s.identity.external_id e ∷ []

  unfoldable pub submit_checked :
      Snapshot F → Result Invalid (Unit {0}) → Reporter F → List CycleError × Reporter F
  submit_checked s (err e) r = (invalid_merged s.identity.external_id e ∷ [], r)
  submit_checked s (ok _) r = let done = process env s r in (failure s done.0, done.1)

  -- The body of the loop over the merged snapshots.
  unfoldable pub submit : Snapshot F → Reporter F → List CycleError × Reporter F
  unfolding submit_checked with_version
  submit s r =
      let versioned = with_version build s in
      submit_checked versioned (validate_snapshot versioned) r

  unfoldable pub submit_all : List (Snapshot F) → Reporter F → List CycleError × Reporter F
  unfolding submit
  submit_all [] r = ([], r)
  submit_all (s ∷ ss) r =
      let first = submit s r in let rest = submit_all ss first.1 in (first.0 ++ rest.0, rest.1)

  -- The merged snapshots of a cycle, before they are decorated.
  unfoldable pub gathered : List String → List (Collected F) → Runner F → Gathered F
  unfolding gather apply_authorities
  gathered authorities collected r =
      let start : Gathered F = record {
        merged = [];
        cache = map (λ (key, c). (key, record c { aliased = false })) r.cache;
        errors = [];
        ticks = r.reporter.ticks;
      } in
      let g = gather env.clock collected start in
      apply_authorities (env.clock g.ticks) authorities (record g { ticks = g.ticks + 1 })

  -- One cycle. `order` is the order in which the range over the map finds its snapshots.
  abbrev pub to_submit :
      (List (Snapshot F) → List (Snapshot F)) → Dict (Snapshot F) → List (Snapshot F)
  to_submit order merged = order (map (λ (_, s). s) (decorate_topology merged))

  unfoldable pub cycle :
      (List (Snapshot F) → List (Snapshot F))
      → List String
      → List (Collected F)
      → Runner F
      → List CycleError × Runner F
  unfolding gathered decorate_topology submit_all
  cycle order authorities collected r =
      let g = gathered authorities collected r in
      let done = submit_all (to_submit order g.merged) (record r.reporter { ticks = g.ticks }) in
      (map gather_error g.errors ++ done.0, record { reporter = done.1; cache = g.cache })
