-- ===== src/Tests/Whole.antt =====
-- The properties of the whole bridge, at a configuration with a Proxmox cluster, a Docker engine, an
-- agentless host and a Slurm cluster.
use komari_bridge.Store.Opening.{open_store_handles, open_store}
use komari_bridge.Base.{◌+◌, ◌≡◌, ◌↔◌, refl, true, false, none, some, [], ◌∷◌, ok, err, arith}
use komari_bridge.App.Start.{no_handles, Setup, start_bridge, start_bridge-IsHealthy}
use komari_bridge.App.Steps.{waiting, Steps, reporter_in}
use komari_bridge.Config.{Config, LinuxSshConfig, is_empty, apply_defaults}
use komari_bridge.Config.Load.{load}
use komari_bridge.Config.Validate.{validate}
use komari_bridge.Config.Authorities.{authority_key, validate_unique_metric_authorities}
use komari_bridge.Docker.Requests as Docker
use komari_bridge.App.{World}
use komari_bridge.App.Cycle.{Bridge, targets_of_all, bridge_cycle}
use komari_bridge.Bridge.Validate.{validate_snapshot}
use komari_bridge.Ssh.Counters.{bytes_of}
use komari_bridge.Base.Int.{◌*ℤ◌}
use komari_bridge.Bridge.Process.{process}
use komari_bridge.Store.{observe, binding, same, bind, mark_reported}
use komari_bridge.Komari.{register, upload_basic_info, send_report}
use komari_bridge.App.Stable.{Steps-IsBound}
use komari_bridge.Bridge.Process.Bindings.{IsBound}
use komari_bridge.Tests.Samples.{
  row, machine, binding_1, Sample, Sample-Float64, env, build, runner,
}
use komari_bridge.App.Refines.{Cycles}
use komari_bridge.App.Main.{Flags, main, exit_status, HasRun, main-HasRun}
use komari_bridge.Windows.Bootstrap.{units_of, little_endian, units_of-little_endian}
use komari_bridge.Tests.Hosts.{host, down, unreachable}
use komari_bridge.App.Healthy.{IsHealthy}
use komari_bridge.App.Runs.{Steps-bridge_cycle, Steps-Cycles_iff}
use komari_bridge.App.Owners.{owned, start_bridge-AreDistinct}
use komari_bridge.Command.Owners.{AreDistinct}
use komari_bridge.Command.{build_providers}
use komari_bridge.Tests.Sources.{agent, providers, sample_config}
use komari_bridge.Tests.Fleet.{
  parsed, library, keys, first_api, docker_config, cluster_config, web, busy,
}

-- A Slurm cluster describes no host.
abbrev pub slurm_config : LinuxSshConfig
slurm_config = record agent {
  id = "hpc";
  attach_to = record { source_type = ""; source_id = ""; external_id = "" };
}

abbrev whole_config : Config
whole_config = record sample_config {
  providers = record providers {
    proxmox = record cluster_config { token_id = "id"; token_secret = "secret" } ∷ [];
    docker = docker_config ∷ [];
    slurm = slurm_config ∷ [];
    linux_ssh = [];
  };
}

abbrev setup : Setup
setup = record {
  source = record {
    read_file = λ path. some "text";
    expand_env = λ text. text;
    unmarshal = λ text. some whole_config;
  };
  disk = record {
    directory = λ path. path;
    makes_directory = λ path. true;
    opens = λ path. true;
    rows = λ path. none;
    migrates = true;
    secures = λ path. true;
  };
  parse_url = parsed;
  library = library;
  keys = keys;
}

-- A cluster and an engine that answer, and hosts that cannot be reached.
abbrev pub world : World Sample
world = record {
  proxmox_api = first_api;
  docker_engine = record {
    containers = λ all. Docker.response 200 (Docker.decoded (web ∷ []));
    admitted = λ n. true;
    stats = λ n. Docker.response 200 (Docker.decoded busy);
    inspect = λ n. Docker.failed;
    now = 9;
    parse_time = λ text. none;
  };
  linux_host = (down, 5);
  windows_host = (record { remote = unreachable; decode = λ text. none }, 5);
}

abbrev none_started : Bridge Sample
none_started = record { stored = []; providers = []; runner = runner }

abbrev started : Bridge Sample
started = elim (start_bridge setup "config.yaml") [ ok b ↦ b | err e ↦ none_started ]

abbrev after_one : Bridge Sample
after_one =
    (bridge_cycle env build (targets_of_all started.providers) (λ ss. ss) (λ n. world) started).1

start_bridge-AreDistinct_example : AreDistinct (owned started.providers)
unfolding start_bridge load open_store build_providers validate_unique_metric_authorities is_empty
    authority_key validate apply_defaults
start_bridge-AreDistinct_example = start_bridge-AreDistinct setup "config.yaml" started refl

start_bridge-IsHealthy_example :
    IsHealthy env (waiting after_one.stored after_one.providers after_one.runner)
unfolding start_bridge load open_store build_providers validate_unique_metric_authorities is_empty
    authority_key validate apply_defaults
start_bridge-IsHealthy_example =
    start_bridge-IsHealthy env build setup "config.yaml" started _ (λ file rows e. cc) refl
      (Steps-bridge_cycle env build (targets_of_all started.providers) (λ ss. ss) (λ n. world)
        started)

Steps-Cycles_iff_example :
    Steps env build []
      (waiting [] started.providers runner)
      (waiting after_one.stored after_one.providers after_one.runner)
    ↔ Cycles env build [] [] started.providers runner after_one.stored after_one.providers
        after_one.runner
Steps-Cycles_iff_example =
    Steps-Cycles_iff env build [] [] after_one.stored started.providers after_one.providers runner
      after_one.runner

open_store_handles_example :
    let opened = (open_store (record setup.disk { secures = λ path. false }) "db" no_handles).1 in
    opened.opened ≡ opened.closed + 0
unfolding open_store
open_store_handles_example =
    open_store_handles (record setup.disk { secures = λ path. false }) "db" no_handles refl

units_of-little_endian_example : units_of (little_endian (36 ∷ 8364 ∷ [])) ≡ 36 ∷ 8364 ∷ []
units_of-little_endian_example =
    units_of-little_endian (36 ∷ 8364 ∷ [])
      (record { below = omega arith }, (record { below = omega arith }, tt))

-- Where every host answers.
abbrev up_world : World Sample
up_world = record world { linux_host = (host, 5) }

abbrev small_config : Config
small_config = record whole_config {
  providers = record whole_config.providers { docker = []; agentless_ssh = [] };
}

abbrev small : Setup
small = record setup { source = record setup.source { unmarshal = λ text. some small_config } }

abbrev once_flags : Flags
once_flags = record { config = "config.yaml"; once = true; show_version = false }

main-HasRun_example : HasRun env build (λ ss. ss) (λ n. up_world) small once_flags
unfolding exit_status main start_bridge load open_store build_providers
    validate_unique_metric_authorities is_empty authority_key validate apply_defaults bridge_cycle
    targets_of_all validate_snapshot bytes_of ◌*ℤ◌ process observe binding same register bind
    upload_basic_info send_report mark_reported
main-HasRun_example =
    main-HasRun env build (λ ss. ss) (λ n. up_world) small once_flags refl refl refl

-- The machine has a client before the cycle.
abbrev bound_bridge : Bridge Sample
bound_bridge = record started {
  runner = record runner {
    reporter = record runner.reporter {
      table = record row { komari_uuid = "uuid-1"; komari_token = "token-1" } ∷ [];
    };
  };
}

abbrev after_bound : Bridge Sample
after_bound = (bridge_cycle env build [] (λ ss. ss) (λ n. world) bound_bridge).1

Steps-IsBound_example :
    IsBound env machine binding_1
      (reporter_in (waiting after_bound.stored after_bound.providers after_bound.runner))
unfolding binding same
Steps-IsBound_example =
    Steps-IsBound env build [] machine binding_1
      (Steps-bridge_cycle env build [] (λ ss. ss) (λ n. world) bound_bridge) refl
