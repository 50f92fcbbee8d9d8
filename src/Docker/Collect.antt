-- ===== src/Docker/Collect.antt =====
-- providers/docker/docker.go: `Collect`.
use komari_bridge.Base.{
  ℕ, ◌+◌, String, Bool, true, false, ◌&&◌, Option, none, some, List, [], ◌∷◌, if◌then◌else◌, Result,
  ok, err,
}
use Prim.Native.String.{compare}
use text.Mathlib.Text.{is_le}
use komari_bridge.Base.Int.{pos}
use komari_bridge.Base.Dict.{Dict}
use komari_bridge.Base.Floats.{Float64}
use komari_bridge.Config.{DockerConfig}
use komari_bridge.Model.{Snapshot}
use komari_bridge.Docker.Selection.{ContainerSummary, selected_containers}
use komari_bridge.Docker.Usage.{StatsResponse, CpuStats}
use komari_bridge.Docker.Workload.{workload_identity}
use komari_bridge.Docker.Samples.{NetworkSample}
use komari_bridge.Docker.Snapshot.{InspectResponse, CollectedStats, is_running, snapshot}

pub data CollectError : Type 0 where
  list_failed : CollectError

-- What the engine answers about the container at a place: whether its requests started before the
-- context was done, and each request's decoded part and whether it failed.
pub record Answers : Type 0 where
  pub admitted : Bool
  pub stats : StatsResponse × Bool
  pub inspect : InspectResponse × Bool

-- The engine in one collection, asked for all containers or for the running ones.
pub record Engine : Type 0 where
  pub containers : Bool → Option (List ContainerSummary)
  pub answers : ℕ → Answers
  pub now : ℕ
  pub parse_time : String → Option ℕ

-- `logicalIdentity`
unfoldable pub logical_identity : ContainerSummary → String
unfolding workload_identity
logical_identity c = (workload_identity c).external_id

abbrev comes_first : ContainerSummary → ContainerSummary → Bool
comes_first a b = is_le (compare (logical_identity a) (logical_identity b))

unfoldable pub insert_container : ContainerSummary → List ContainerSummary → List ContainerSummary
unfolding logical_identity
insert_container c [] = c ∷ []
insert_container c (d ∷ ds) =
    let rest = insert_container c ds in if comes_first c d then c ∷ d ∷ ds else d ∷ rest

-- The order by identity; Go leaves the order of containers with one identity open.
unfoldable pub sort_containers : List ContainerSummary → List ContainerSummary
unfolding insert_container
sort_containers [] = []
sort_containers (c ∷ cs) = insert_container c (sort_containers cs)

abbrev no_cpu : CpuStats
no_cpu = record { total_usage = 0; system_cpu_usage = 0; online_cpus = pos 0 }

-- The zero values of the answers.
abbrev pub no_stats : StatsResponse
no_stats = record {
  cpu_stats = no_cpu;
  precpu_stats = no_cpu;
  memory_stats = record { usage = 0; limit = 0; stats = [] };
  networks = [];
  pids = pos 0;
}

abbrev pub no_inspect : InspectResponse
no_inspect = record {
  host_config = record {
    nano_cpus = pos 0;
    cpu_quota = pos 0;
    cpu_period = pos 0;
    cpuset_cpus = "";
  };
  started_at = "";
  exit_code = pos 0;
  oom_killed = false;
  health = none;
  restart_count = pos 0;
}

-- The body of the goroutine of one container.
unfoldable pub gather_container : Answers → ContainerSummary → CollectedStats
gather_container a c =
    if a.admitted
    then record {
      stats = if is_running c then a.stats.0 else no_stats;
      inspect = a.inspect.0;
      failed = is_running c && a.stats.1;
      inspect_failed = a.inspect.1;
    }
    else record { stats = no_stats; inspect = no_inspect; failed = true; inspect_failed = false }

module _ {F : Type 0} ⦃fl : Float64 F⦄ where
  -- The snapshots in order, each with the samples that the ones before it left.
  unfoldable pub snapshots :
      DockerConfig
      → Engine
      → ℕ
      → List ContainerSummary
      → Dict NetworkSample
      → List (Snapshot F) × Dict NetworkSample
  unfolding snapshot gather_container
  snapshots cfg engine n [] samples = ([], samples)
  snapshots cfg engine n (c ∷ cs) samples =
      let first =
        snapshot engine.parse_time cfg c (gather_container (engine.answers n) c) engine.now
          samples in
      let rest = snapshots cfg engine (n + 1) cs first.1 in (first.0 ∷ rest.0, rest.1)

  abbrev pub collect_from :
      DockerConfig
      → Engine
      → Option (List ContainerSummary)
      → Dict NetworkSample
      → Result CollectError (List (Snapshot F)) × Dict NetworkSample
  collect_from cfg engine none samples = (err list_failed, samples)
  collect_from cfg engine (some containers) samples =
      let chosen = sort_containers (selected_containers containers cfg.include_all) in
      let all = snapshots cfg engine 0 chosen samples in (ok all.0, all.1)

  unfoldable pub collect :
      DockerConfig
      → Engine
      → Dict NetworkSample
      → Result CollectError (List (Snapshot F)) × Dict NetworkSample
  unfolding snapshots sort_containers selected_containers
  collect cfg engine samples =
      collect_from cfg engine (engine.containers cfg.include_stopped) samples
