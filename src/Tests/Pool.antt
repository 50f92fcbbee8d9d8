-- ===== src/Tests/Pool.antt =====
-- The goroutines of a Docker collection, at two containers, and an engine's transport.
use komari_bridge.Base.{some, ◌≤◌, ◌+◌, ◌*◌, ◌≡◌, refl, true, false, List, [], ◌∷◌, length, arith}
use komari_bridge.Docker.Snapshot.{CollectedStats}
use komari_bridge.Docker.Collect.{no_inspect, snapshots}
use komari_bridge.Docker.Pool.{
  Job, Pool, waiting, running, finished, places, taken, started, result_of, Steps, none_yet, then,
  enters, returns, gives_up, jobs_for, snapshots_of, got_place,
}
use komari_bridge.Docker.Pool.Runs.{jobs_of, left, results, Steps-taken}
use komari_bridge.Docker.Pool.Progress.{Next, results-Next}
use komari_bridge.Docker.Pool.Refines.{admitting, Steps-snapshots}
use komari_bridge.Tests.Samples.{Sample, Sample-Float64}
use komari_bridge.Config.{DockerConfig}
use komari_bridge.Docker.Client.{Library, docker_http_client, docker_http_client_plain}
use komari_bridge.Tests.Fleet.{library, engine, docker_config, web, busy}

abbrev first : Job
first = record {
  container = web;
  answers = record { admitted = true; stats = (busy, false); inspect = (no_inspect, false) };
}

abbrev second : Job
second = record first { container = record web { id = "fedcba9876543210" } }

abbrev midway : Pool
midway = (first, running) ∷ (second, waiting) ∷ []

abbrev over : Pool
over = (first, finished (result_of first true)) ∷ (second, finished (result_of second false)) ∷ []

-- The second one gives up while the first one asks the engine.
together : Steps (started (first ∷ second ∷ [])) over 3
unfolding taken
together =
    then
      (then (then none_yet (enters [] ((second, waiting) ∷ []) first (omega arith)))
        (gives_up ((first, running) ∷ []) [] second))
      (returns [] ((second, finished (result_of second false)) ∷ []) first)

abbrev written : List CollectedStats
written = result_of first true ∷ result_of second false ∷ []

Steps-taken_example :
    (taken over ≤ places)
    × (jobs_of over ≡ first ∷ second ∷ [])
    × (3 + left over ≤ length (first ∷ second ∷ []) * 2)
Steps-taken_example = Steps-taken (first ∷ second ∷ []) over 3 together

Steps-snapshots_example :
    snapshots_of {F = Sample} docker_config engine (web ∷ second.container ∷ []) written []
    ≡ snapshots docker_config
        (admitting (got_place together) engine)
        0
        (web ∷ second.container ∷ [])
        []
unfolding results jobs_for
Steps-snapshots_example =
    Steps-snapshots docker_config engine (web ∷ second.container ∷ []) over 3 written [] together
      refl

results-Next_example : Next midway
unfolding results
results-Next_example = results-Next midway refl

-- An engine that is reached over the network without TLS, as its configuration allows.
abbrev over_tcp : Library
over_tcp = record library {
  parse_url = λ text. some (record { scheme = "tcp"; host = "engine:2375"; path = "" });
}

abbrev tcp_config : DockerConfig
tcp_config = record docker_config { insecure_allow_http = true }

docker_http_client_plain_example : tcp_config.insecure_allow_http ≡ true
unfolding docker_http_client
docker_http_client_plain_example =
    docker_http_client_plain over_tcp tcp_config "http://engine:2375" refl
