-- ===== src/Docker/Snapshot.antt =====
-- providers/docker/docker.go: `snapshot`.
pub mod Sound
use komari_bridge.Base.{
  ℕ, String, ◌<>◌, ◌==◌, Bool, true, false, not, ◌&&◌, Option, none, some, [], ◌∷◌, if◌then◌else◌,
}
use komari_bridge.Base.Int.{ℤ, pos}
use komari_bridge.Base.Dict.{Dict, insert, insert_all}
use komari_bridge.Base.Floats.{Float64}
use komari_bridge.Base.Text.{itoa}
use komari_bridge.Config.{DockerConfig}
use komari_bridge.Model.{Snapshot, Report, Usage, empty_basic_info, empty_report}
use komari_bridge.Docker.Selection.{ContainerSummary}
use komari_bridge.Docker.Usage.{
  StatsResponse, HostConfig, signed, network_totals, effective_cpu_cores, normalized_cpu, memory_of,
}
use komari_bridge.Docker.Samples.{NetworkSample, network_rates, uptime_since}
use komari_bridge.Docker.Workload.{short_id, workload_identity}

pub record InspectResponse : Type 0 where
  pub host_config : HostConfig
  pub started_at : String
  pub exit_code : ℤ
  pub oom_killed : Bool
  pub health : Option String
  pub restart_count : ℤ

-- The engine's answers about one container; a part is decoded also where its request failed.
pub record CollectedStats : Type 0 where
  pub stats : StatsResponse
  pub inspect : InspectResponse
  pub failed : Bool
  pub inspect_failed : Bool

abbrev pub is_running : ContainerSummary → Bool
is_running c = c.state == "running"

abbrev health_tag : Option String → Dict String → Dict String
health_tag none tags = tags
health_tag (some status) tags = insert "docker_health" status tags

abbrev insert_if : Bool → String → String → Dict String → Dict String
insert_if b key value tags = if b then insert key value tags else tags

unfoldable pub inspect_tags : ContainerSummary → InspectResponse → Dict String → Dict String
unfolding insert itoa
inspect_tags c r tags = insert_if (not (is_running c)) "docker_exit_code" (itoa r.exit_code) (
    insert_if r.oom_killed "docker_oom_killed" "true"
      (health_tag r.health (insert "docker_restart_count" (itoa r.restart_count) tags)))

unfoldable pub container_tags : DockerConfig → ContainerSummary → CollectedStats → Dict String
unfolding inspect_tags workload_identity insert_all short_id
container_tags cfg c r =
    let tags = insert_all (workload_identity c).tags (
      ("source", "docker")
      ∷ ("docker_engine", cfg.id)
      ∷ ("docker_container_id", short_id c.id)
      ∷ ("docker_image", c.image)
      ∷ ("docker_state", c.state)
      ∷ ("docker_status", c.status)
      ∷ []) in
    if r.inspect_failed then tags else inspect_tags c r.inspect tags

module _ {F : Type 0} ⦃fl : Float64 F⦄ where
  open fl use {of_int}

  -- The snapshot before the statistics.
  unfoldable pub base_snapshot :
      DockerConfig → ContainerSummary → CollectedStats → ℕ → Bool → Snapshot F
  unfolding container_tags workload_identity
  base_snapshot cfg c r now online =
      let w = workload_identity c in
      record {
        identity = record {
          source_type = "docker";
          source_id = cfg.id;
          external_id = w.external_id;
        };
        parent_external_id = cfg.attach_to.external_id;
        name = w.name;
        resource_type = w.resource_type;
        group = cfg.group;
        tags = container_tags cfg c r;
        basic_info = record empty_basic_info {
          cpu_name = "Docker workload";
          os = "Container: " <> c.image;
          virtualization = "docker";
          version = "komari-bridge/docker";
        };
        report = empty_report (of_int (pos 0));
        collected_at = now;
        online = online;
        priority = pos 20;
      }

  unfoldable pub container_report : StatsResponse → HostConfig → Usage → ℤ × ℤ → ℤ → Report F
  unfolding effective_cpu_cores normalized_cpu network_totals signed
  container_report stats h memory rates uptime =
      let cores = effective_cpu_cores fl stats h in
      let totals = network_totals stats.networks in
      let empty = empty_report (of_int (pos 0)) in
      record empty {
        cpu = record empty.cpu { cores = cores; usage = normalized_cpu fl stats cores };
        ram = memory;
        network = record {
          up = rates.0;
          down = rates.1;
          total_up = signed totals.0;
          total_down = signed totals.1;
        };
        uptime = uptime;
        process = stats.pids;
        message = "Container metrics observed through the Docker Engine API.";
      }

  unfoldable pub with_report : Snapshot F → Report F → Snapshot F
  with_report s report = record s {
    basic_info = record s.basic_info {
      cpu_cores = report.cpu.cores;
      memory_total = report.ram.total;
    };
    report = report;
  }

  -- With no memory to show, the container is offline and its network is not sampled.
  unfoldable pub measured :
      (String → Option ℕ)
      → DockerConfig
      → ContainerSummary
      → CollectedStats
      → ℕ
      → Option Usage
      → Dict NetworkSample
      → Snapshot F × Dict NetworkSample
  unfolding network_rates network_totals uptime_since base_snapshot container_report with_report
      workload_identity
  measured parse_time cfg c r now none samples = (base_snapshot cfg c r now false, samples)
  measured parse_time cfg c r now (some memory) samples =
      let totals = network_totals r.stats.networks in
      let sample : NetworkSample = record { up = totals.0; down = totals.1; at = now } in
      let sampled = network_rates fl (workload_identity c).external_id sample samples in
      let uptime = uptime_since fl (parse_time r.inspect.started_at) now in
      (
        with_report (base_snapshot cfg c r now true)
            (container_report r.stats r.inspect.host_config memory sampled.0 uptime),
        sampled.1,
      )

  -- `parse_time` is `time.Parse` of the RFC 3339 layout.
  unfoldable pub snapshot :
      (String → Option ℕ)
      → DockerConfig
      → ContainerSummary
      → CollectedStats
      → ℕ
      → Dict NetworkSample
      → Snapshot F × Dict NetworkSample
  unfolding measured base_snapshot memory_of
  snapshot parse_time cfg c r now samples =
      if is_running c && not r.failed
      then measured parse_time cfg c r now (memory_of r.stats.memory_stats) samples
      else (base_snapshot cfg c r now false, samples)
