-- ===== src/App/Refines.antt =====
-- The small steps of the bridge and its whole cycles: internal/bridge/runner.go's `Cycle` as the
-- function of what all the providers collected, and as the steps that it takes one after another.
use komari_bridge.Base.{ℕ, ◌+◌, ◌≡◌, refl, String, List, [], ◌∷◌, ◌++◌}
use mathlib.Core.List.{append_assoc, append-nil}
use komari_bridge.Base.Dict.{Dict}
use komari_bridge.Base.Floats.{Float64}
use komari_bridge.Buildinfo.{Build}
use komari_bridge.Model.{Snapshot}
use komari_bridge.Slurm.{Clusters}
use komari_bridge.Bridge.Gather.{Collected, Cached, Gathered, gather_provider, gather}
use komari_bridge.Bridge.Process.{Env, Reporter}
use komari_bridge.Bridge.Cycle.{Runner, submit_all, gathered, cycle}
use komari_bridge.App.{Live, World, collect_live, learned}
use komari_bridge.App.Cycle.{collect_each}
use komari_bridge.App.Steps.{
  State, waiting, gathering, submitting, returned, begun, Step, begins, collects, merges, submits,
  ends, stops, Steps, none_yet, then,
}

module _ {F : Type 0} ⦃fl : Float64 F⦄ where
  -- From the providers and the clusters of a cycle's start: those that have collected and those that
  -- have not, the clusters now, and what was collected.
  pub data Collects (start : List (Live F)) (first : Clusters)
      : List (Live F) → List (Live F) → Clusters → List (Collected F) → Type 0 where
    at_start : Collects start first [] start first []
    one_more :
        (w : World F) {ps todo : List (Live F)} {p : Live F} {c : Clusters}
        {seen : List (Collected F)}
        → Collects start first ps (p ∷ todo) c seen
        → Collects start first
            (ps ++ (collect_live w p c).live ∷ [])
            todo
            (collect_live w p c).stored
            (seen ++ learned p (collect_live w p c) ∷ [])

  pub gather-append :
      (clock : ℕ → ℕ) (ps : List (Collected F)) (p : Collected F) (g : Gathered F)
      → gather clock (ps ++ p ∷ []) g ≡ gather_provider clock p (gather clock ps g)
  unfolding gather
  gather-append clock [] p g = refl
  gather-append clock (q ∷ ps) p g = gather-append clock ps p (gather_provider clock q g)

  -- The function's collections are such collections.
  pub collect_each-Collects :
      (world : ℕ → World F) (n : ℕ) {start ps : List (Live F)} {first c : Clusters}
      {seen : List (Collected F)} (todo : List (Live F))
      → Collects start first ps todo c seen
      → let round = collect_each world n todo c in
        Collects start first (ps ++ round.providers) [] round.stored (seen ++ round.collected)
  unfolding collect_each
  collect_each-Collects world n {ps = ps} {seen = seen} [] h = rw (append-nil ps, append-nil seen) h
  collect_each-Collects world n {ps = ps} {c = c} {seen = seen} (p ∷ todo) h =
      let next = collect_live (world n) p c in
      let all = collect_each-Collects world (n + 1) todo (one_more (world n) h) in
      rw⁻¹
        (append_assoc ps (next.live ∷ []) (collect_each world (n + 1) todo next.stored).providers)
        (rw⁻¹
          (append_assoc seen (learned p next ∷ [])
            (collect_each world (n + 1) todo next.stored).collected)
          all)

module _ {F : Type 0} ⦃fl : Float64 F⦄ (env : Env F) (build : Build)
    (authorities : List String) where
  -- What the bridge can be between two cycles, after any number of whole ones.
  pub data Cycles (c₀ : Clusters) (ps₀ : List (Live F)) (r₀ : Runner F)
      : Clusters → List (Live F) → Runner F → Type 0 where
    no_cycle : Cycles c₀ ps₀ r₀ c₀ ps₀ r₀
    one_cycle :
        (order : List (Snapshot F) → List (Snapshot F)) {c c' : Clusters} {ps ps' : List (Live F)}
        {r : Runner F} {seen : List (Collected F)}
        → Cycles c₀ ps₀ r₀ c ps r
        → Collects ps c ps' [] c' seen
        → Cycles c₀ ps₀ r₀ c' ps' (cycle env build order authorities seen r).1

  module _ (c₀ : Clusters) (ps₀ : List (Live F)) (r₀ : Runner F) where
    -- A cycle that has begun after whole cycles, and what it has gathered.
    record IsGathering (c : Clusters) (ps todo : List (Live F)) (g : Gathered F) (r : Reporter F)
        : Type 0 where
      first : Clusters
      start : List (Live F)
      runner : Runner F
      seen : List (Collected F)
      before : Cycles c₀ ps₀ r₀ first start runner
      so_far : Collects start first ps todo c seen
      merged : g ≡ gather env.clock seen (begun runner)
      reporter : r ≡ runner.reporter

    -- A cycle that has collected: its end is what is left to submit.
    record IsSubmitting (c : Clusters) (ps : List (Live F)) (cache : Dict (Cached F))
        (todo : List (Snapshot F)) (r : Reporter F) : Type 0 where
      first : Clusters
      start : List (Live F)
      runner : Runner F
      seen : List (Collected F)
      order : List (Snapshot F) → List (Snapshot F)
      before : Cycles c₀ ps₀ r₀ first start runner
      so_far : Collects start first ps [] c seen
      kept : (cycle env build order authorities seen runner).1.cache ≡ cache
      left :
          (cycle env build order authorities seen runner).1.reporter
          ≡ (submit_all env build todo r).1

    abbrev IsInCycle : State F → Type 0
    IsInCycle (waiting c ps r) = Cycles c₀ ps₀ r₀ c ps r
    IsInCycle (gathering c ps todo g r) = IsGathering c ps todo g r
    IsInCycle (submitting c ps cache todo r) = IsSubmitting c ps cache todo r
    IsInCycle (returned c ps r) = Cycles c₀ ps₀ r₀ c ps r

    Step-IsInCycle : {s t : State F} → Step env build authorities s t → IsInCycle s → IsInCycle t
    unfolding gather cycle gathered submit_all
    Step-IsInCycle (begins {c = c} {ps = ps} {r = r}) h = record {
      first = c;
      start = ps;
      runner = r;
      seen = [];
      before = h;
      so_far = at_start;
      merged = refl;
      reporter = refl;
    }
    Step-IsInCycle (collects w {c = c} {p = p}) h = record {
      first = h.first;
      start = h.start;
      runner = h.runner;
      seen = h.seen ++ learned p (collect_live w p c) ∷ [];
      before = h.before;
      so_far = one_more w h.so_far;
      merged =
          rw
            (
              gather-append env.clock h.seen (learned p (collect_live w p c)) (begun h.runner),
              h.merged,
            )
            refl;
      reporter = h.reporter;
    }
    Step-IsInCycle (merges order) h = record {
      first = h.first;
      start = h.start;
      runner = h.runner;
      seen = h.seen;
      order = order;
      before = h.before;
      so_far = h.so_far;
      kept = rw h.merged refl;
      left = rw (h.merged, h.reporter) refl;
    }
    Step-IsInCycle submits h = record {
      first = h.first;
      start = h.start;
      runner = h.runner;
      seen = h.seen;
      order = h.order;
      before = h.before;
      so_far = h.so_far;
      kept = h.kept;
      left = h.left;
    }
    Step-IsInCycle ends h = rw⁻¹ (h.kept, h.left) (one_cycle h.order h.before h.so_far)
    Step-IsInCycle stops h = h

    Steps-IsInCycle :
        {t : State F} → Steps env build authorities (waiting c₀ ps₀ r₀) t → IsInCycle t
    Steps-IsInCycle none_yet = no_cycle
    Steps-IsInCycle (then before step) = Step-IsInCycle step (Steps-IsInCycle before)

    pub Steps-Cycles :
        (c : Clusters) (ps : List (Live F)) (r : Runner F)
        → Steps env build authorities (waiting c₀ ps₀ r₀) (waiting c ps r)
        → Cycles c₀ ps₀ r₀ c ps r
    Steps-Cycles c ps r run = Steps-IsInCycle run
