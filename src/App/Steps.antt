-- ===== src/App/Steps.antt =====
-- The bridge as it runs: internal/bridge/runner.go's `Run` and `Cycle` in small steps, between any of
-- which the HTTP API may be asked. A step is a collection of one provider, or the submission of one
-- snapshot; the range over the merged snapshots is in the order that `merges` names. `Run` makes its
-- first cycle without waiting for the ticker, which is a cycle like the others here.
use komari_bridge.Base.{false, ◌+◌, String, List, [], ◌∷◌, ◌++◌, map}
use komari_bridge.Base.Dict.{Dict}
use komari_bridge.Base.Floats.{Float64}
use komari_bridge.Buildinfo.{Build}
use komari_bridge.Model.{Snapshot}
use komari_bridge.Slurm.{Clusters}
use komari_bridge.Bridge.Gather.{Cached, Gathered, gather_provider, apply_authorities}
use komari_bridge.Bridge.Process.{Env, Reporter}
use komari_bridge.Bridge.Cycle.{Runner, submit, to_submit}
use komari_bridge.App.{Live, World, collect_live, learned}

-- Where the program is: waiting for the ticker, in the loop over the providers (those that have
-- collected and those that have not), in the loop over the merged snapshots, or at its end.
pub data State (F : Type 0) : Type 0 where
  waiting : Clusters → List (Live F) → Runner F → State F
  gathering : Clusters → List (Live F) → List (Live F) → Gathered F → Reporter F → State F
  submitting : Clusters → List (Live F) → Dict (Cached F) → List (Snapshot F) → Reporter F → State F
  returned : Clusters → List (Live F) → Runner F → State F

module _ {F : Type 0} where
  abbrev pub stored_in : State F → Clusters
  stored_in (waiting c ps r) = c
  stored_in (gathering c ps todo g r) = c
  stored_in (submitting c ps cache todo r) = c
  stored_in (returned c ps r) = c

  abbrev pub reporter_in : State F → Reporter F
  reporter_in (waiting c ps r) = r.reporter
  reporter_in (gathering c ps todo g r) = r
  reporter_in (submitting c ps cache todo r) = r
  reporter_in (returned c ps r) = r.reporter

  abbrev pub providers_in : State F → List (Live F)
  providers_in (waiting c ps r) = ps
  providers_in (gathering c ps todo g r) = ps ++ todo
  providers_in (submitting c ps cache todo r) = ps
  providers_in (returned c ps r) = ps

  -- What a cycle starts from: nothing merged, and no cached snapshot shared.
  abbrev pub begun : Runner F → Gathered F
  begun r = record {
    merged = [];
    cache = map (λ (key, c). (key, record c { aliased = false })) r.cache;
    errors = [];
    ticks = r.reporter.ticks;
  }

module _ {F : Type 0} ⦃fl : Float64 F⦄ (env : Env F) (build : Build)
    (authorities : List String) where
  -- The gathered snapshots after the last provider, with the authorities applied.
  abbrev pub settled : Gathered F → Gathered F
  settled g = apply_authorities (env.clock g.ticks) authorities (record g { ticks = g.ticks + 1 })

  pub data Step : State F → State F → Type 0 where
    begins :
        {c : Clusters} {ps : List (Live F)} {r : Runner F}
        → Step (waiting c ps r) (gathering c [] ps (begun r) r.reporter)
    collects :
        (w : World F) {c : Clusters} {ps todo : List (Live F)} {p : Live F} {g : Gathered F}
        {r : Reporter F}
        → Step (gathering c ps (p ∷ todo) g r) (
            gathering
              (collect_live w p c).stored
              (ps ++ (collect_live w p c).live ∷ [])
              todo
              (gather_provider env.clock (learned p (collect_live w p c)) g)
              r)
    merges :
        (order : List (Snapshot F) → List (Snapshot F)) {c : Clusters} {ps : List (Live F)}
        {g : Gathered F} {r : Reporter F}
        → Step (gathering c ps [] g r) (
            submitting c ps
              (settled g).cache
              (to_submit env build order (settled g).merged)
              (record r { ticks = (settled g).ticks }))
    submits :
        {c : Clusters} {ps : List (Live F)} {cache : Dict (Cached F)} {s : Snapshot F}
        {todo : List (Snapshot F)} {r : Reporter F}
        → Step
            (submitting c ps cache (s ∷ todo) r)
            (submitting c ps cache todo (submit env build s r).1)
    ends :
        {c : Clusters} {ps : List (Live F)} {cache : Dict (Cached F)} {r : Reporter F}
        → Step (submitting c ps cache [] r) (waiting c ps (record { reporter = r; cache = cache }))
    stops :
        {c : Clusters} {ps : List (Live F)} {r : Runner F} → Step (waiting c ps r) (returned c ps r)

  -- A run of steps.
  pub data Steps (s : State F) : State F → Type 0 where
    none_yet : Steps s s
    then : {t u : State F} → Steps s t → Step t u → Steps s u
