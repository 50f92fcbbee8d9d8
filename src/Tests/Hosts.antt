-- ===== src/Tests/Hosts.antt =====
-- The properties of the SSH providers, at sample hosts.
use komari_bridge.Base.{ℕ, ◌<◌, ◌≤◌, ◌≡◌, refl, true, false, some, [], ◌∷◌, ltb, arith, ok}
use komari_bridge.Base.Int.{pos}
use komari_bridge.Bridge.Validate.Sound.{IsTotalled}
use komari_bridge.Ssh.Connection.{
  Remote, printed, session_failed, Session, new_session, run, run_with_reconnect,
}
use komari_bridge.Ssh.Connection.Recovery.{IsUp, run_with_reconnect_recovers}
use komari_bridge.Linux.Report.{RemoteReport, validate_remote_report, kilobytes, has_key}
use komari_bridge.Linux.Provider as Linux
use komari_bridge.Linux.Provider.{new_linux, new_slurm}
use komari_bridge.Linux.Snapshot.{snapshot_of}
use komari_bridge.Linux.Snapshot.Sound.{snapshot_of-IsTotalled}
use komari_bridge.Linux.Collect.{Host}
use komari_bridge.Tests.Samples.{Sample, Sample-Float64}
use komari_bridge.Tests.Sources.{agent}

-- A host whose first connection answers to the keepalive and opens no session, and whose later ones
-- work.
abbrev flaky : Remote
flaky = record {
  dials = λ n. true;
  shakes_hands = λ n. true;
  keeps_alive = λ connection n. true;
  opens_session = λ connection n. ltb 1 connection;
  outcome = λ connection n. printed "{}";
  is_context = λ e. false;
  done = λ n. false;
}

abbrev pub unreachable : Remote
unreachable = record flaky { keeps_alive = λ connection n. false; dials = λ n. false }

abbrev connected : Session
connected = record { connected = true; opened = 1; closed = 0; ticks = 0 }

flaky-IsUp : (connection n : ℕ) → 1 < connection → 2 ≤ n → IsUp flaky "{}" connection n
flaky-IsUp connection n new h = record {
  dials = refl;
  shakes_hands = refl;
  opens_session = ground arith;
  outcome = refl;
}

run_with_reconnect_recovers_example :
    ((run_with_reconnect flaky connected).0 ≡ ok "{}")
    × ((run_with_reconnect flaky connected).1.connected ≡ true)
    × ((run_with_reconnect flaky connected).1.opened ≡ 2)
unfolding run
run_with_reconnect_recovers_example =
    run_with_reconnect_recovers flaky "{}" connected session_failed refl refl refl flaky-IsUp

abbrev raw : RemoteReport Sample
raw = record {
  cpu_name = "Xeon";
  cpu_cores = pos 8;
  cpu_physical_cores = pos 4;
  arch = "x86_64";
  os = "Debian";
  kernel = "6.1";
  cpu = record { total = 1000; idle = 900 };
  memory =
      ("MemTotal", 2048) ∷ ("MemAvailable", 1024) ∷ ("SwapTotal", 512) ∷ ("SwapFree", 512) ∷ [];
  load = [];
  disk_total = pos 4096;
  disk_used = pos 1024;
  disks = [];
  network = record { up = 10; down = 20 };
  tcp = pos 1;
  udp = pos 1;
  uptime = pos 60;
  processes = pos 9;
  gpus = [];
  gpu_ok = false;
  slurm = record {
    available = false;
    controller_up = false;
    node_daemon_up = false;
    partitions = [];
    jobs = [];
    gpus_configured = pos 0;
    gpus_allocated = pos 0;
  };
}

abbrev steady : Remote
steady = record flaky { opens_session = λ connection n. true }

abbrev pub host : Host Sample
host = record { remote = steady; decode = λ text. some raw; error_text = λ e. "failed" }

abbrev pub down : Host Sample
down = record host { remote = unreachable }

abbrev start : Linux.State
start = record {
  session = new_session;
  previous_cpu = record { total = 0; idle = 0 };
  previous_net = record { up = 0; down = 0 };
  previous_at = 0;
  clusters = [];
}

snapshot_of-IsTotalled_example :
    IsTotalled
      (snapshot_of (new_linux agent) 5 raw start).basic_info
      (snapshot_of (new_linux agent) 5 raw start).report
unfolding validate_remote_report kilobytes has_key
snapshot_of-IsTotalled_example =
    snapshot_of-IsTotalled (new_linux agent) 5 raw start refl (omega arith) (omega arith)
