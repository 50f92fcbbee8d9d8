-- ===== src/Tests/Samples.antt =====
-- Sample values: a machine with a report that passes the checks, a server that accepts everything,
-- and float64 values that are whole numbers, NaN or infinite.
use komari_bridge.Base.{◌*◌, ◌/◌, String, Bool, true, false, none, some, List, [], ◌∷◌}
use komari_bridge.Base.Int.{ℤ, pos, ◌+ℤ◌, ◌*ℤ◌, ltb_ℤ}
use komari_bridge.Base.Time.{second}
use komari_bridge.Base.Floats.{Float64}
use komari_bridge.Buildinfo.{Build}
use komari_bridge.Model.{Identity, Snapshot, Binding, BasicInfo, empty_basic_info, empty_report}
use komari_bridge.Komari.{Server, Request, Reply, Registration, response, decoded}
use komari_bridge.Store.{Row}
use komari_bridge.Bridge.Gather.{Cached, Collected, Gathered}
use komari_bridge.Bridge.Process.{Env, Reporter}
use komari_bridge.Bridge.Cycle.{Runner}

pub data Sample : Type 0 where
  nan infinite : Sample
  num : ℤ → Sample

abbrev int_part : Sample → ℤ
int_part (num n) = n
int_part _ = pos 0

abbrev add_sample : Sample → Sample → Sample
add_sample (num a) (num b) = num (a +ℤ b)
add_sample _ _ = nan

abbrev mul_sample : Sample → Sample → Sample
mul_sample (num a) (num b) = num (a *ℤ b)
mul_sample _ _ = nan

abbrev div_sample : Sample → Sample → Sample
div_sample (num (pos a)) (num (pos b)) = num (pos (a / b))
div_sample _ _ = nan

abbrev below : Sample → Sample → Bool
below (num a) (num b) = ltb_ℤ a b
below (num a) infinite = true
below _ _ = false

abbrev is_nan_sample : Sample → Bool
is_nan_sample nan = true
is_nan_sample _ = false

abbrev is_infinite : Sample → Bool
is_infinite infinite = true
is_infinite _ = false

instance abbrev pub Sample-Float64 : Float64 Sample
Sample-Float64 = record {
  of_int = num;
  truncate = int_part;
  fadd = add_sample;
  fmul = mul_sample;
  fdiv = div_sample;
  flt = below;
  is_nan = is_nan_sample;
  is_inf = is_infinite;
}

abbrev pub machine : Identity
machine = record { source_type = "proxmox"; source_id = "lab"; external_id = "qemu:100" }

abbrev pub machine_info : BasicInfo
machine_info = record empty_basic_info { cpu_cores = pos 4; memory_total = pos 1024; os = "Linux" }

abbrev pub running : Snapshot Sample
running = record {
  identity = machine;
  parent_external_id = "node:pve";
  name = "vm";
  resource_type = "qemu";
  group = "";
  tags = ("source", "proxmox") ∷ [];
  basic_info = machine_info;
  report =
      let empty = empty_report (num (pos 0)) in
      record empty { ram = record { total = pos 1024; used = pos 512 }; uptime = pos 60 };
  collected_at = 7;
  online = true;
  priority = pos 10;
}

abbrev pub stopped : Snapshot Sample
stopped = record running { online = false }

-- An agent's view of the same machine.
abbrev pub observed_inside : Snapshot Sample
observed_inside = record running {
  tags = ("source", "linux_ssh") ∷ [];
  basic_info = record machine_info { memory_total = pos 2048 };
  report = record running.report { ram = record { total = pos 2048; used = pos 1000 } };
  priority = pos 50;
}

abbrev granted : List (Request Sample) → String → Reply Registration
granted sent name =
    response 200
      (decoded (record { status = "success"; uuid = "uuid-1"; token = "token-1"; error = "" }))

abbrev accepting : Server Sample
accepting = record { on_register = granted; on_rpc = λ sent request. response 200 (decoded none) }

abbrev pub env : Env Sample
env = record {
  clock = λ n. n * second;
  db_fails = λ n. false;
  server = accepting;
  encode = λ info. some info.os;
  digest = λ text. text;
}

abbrev pub build : Build
build = record { version = "v1"; commit = "unknown"; build_time = "" }

abbrev pub fresh : Reporter Sample
fresh = record { table = []; client = record { seq = 0; sent = [] }; hashes = []; ticks = 0 }

abbrev pub runner : Runner Sample
runner = record { reporter = fresh; cache = [] }

abbrev pub cluster_view : Collected Sample
cluster_view = record {
  source_type = "proxmox";
  id = "lab";
  targets = [];
  snapshots = some (running ∷ []);
}

abbrev pub broken : Collected Sample
broken = record { source_type = "docker"; id = "gone"; targets = []; snapshots = none }

abbrev pub agent_view : Collected Sample
agent_view = record {
  source_type = "linux_ssh";
  id = "agent";
  targets = machine ∷ [];
  snapshots = some (observed_inside ∷ []);
}

abbrev pub cached : Cached Sample
cached = record { snapshot = observed_inside; saved_at = 0; aliased = false }

abbrev pub machine_key : String
machine_key = "proxmox/lab/qemu:100"

abbrev pub merged : Gathered Sample
merged = record {
  merged = (machine_key, running) ∷ [];
  cache = (machine_key, cached) ∷ [];
  errors = [];
  ticks = 1;
}

abbrev pub row : Row
row = record {
  source_type = "proxmox";
  source_id = "lab";
  external_id = "qemu:100";
  parent_external_id = "";
  name = "vm";
  resource_type = "qemu";
  group_name = "";
  komari_uuid = "";
  komari_token = "";
  last_seen = 1;
  last_reported = none;
}

abbrev pub binding_1 : Binding
binding_1 = record { identity = machine; komari_uuid = "uuid-1"; token = "token-1" }
