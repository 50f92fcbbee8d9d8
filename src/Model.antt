-- ===== src/Model.antt =====
-- internal/model/model.go: what a provider observes of a resource, and its binding to a client.
-- `F` is the type of float64 values. A time is a number of nanoseconds since Go's zero time, so
-- the zero time is 0.
use komari_bridge.Base.{ℕ, String, Bool, not, ◌&&◌, ◌==◌, List, Option}
use komari_bridge.Base.Int.{ℤ}
use komari_bridge.Base.Dict.{Dict}

-- The stable provider-side identity of a discovered resource.
pub record Identity : Type 0 where
  pub source_type : String
  pub source_id : String
  pub external_id : String

-- `Identity.Valid`.
unfoldable pub valid : Identity → Bool
valid i = not (i.source_type == "") && not (i.source_id == "") && not (i.external_id == "")

pub record BasicInfo : Type 0 where
  pub cpu_name : String
  pub cpu_cores : ℤ
  pub cpu_physical_cores : ℤ
  pub arch : String
  pub os : String
  pub kernel_version : String
  pub ipv4 : String
  pub ipv6 : String
  pub memory_total : ℤ
  pub swap_total : ℤ
  pub disk_total : ℤ
  pub gpu_name : String
  pub virtualization : String
  pub version : String
  pub group : String
  pub tags : String

pub record Usage : Type 0 where
  pub total : ℤ
  pub used : ℤ

pub record DiskMount : Type 0 where
  pub name : String
  pub mountpoint : String
  pub filesystem : String
  pub device : String
  pub total : ℤ
  pub used : ℤ

pub record CpuReport (F : Type 0) : Type 0 where
  pub name : String
  pub cores : ℤ
  pub arch : String
  pub usage : F

pub record LoadReport (F : Type 0) : Type 0 where
  pub load1 : F
  pub load5 : F
  pub load15 : F

pub record NetworkReport : Type 0 where
  pub up : ℤ
  pub down : ℤ
  pub total_up : ℤ
  pub total_down : ℤ

pub record ConnectionsReport : Type 0 where
  pub tcp : ℤ
  pub udp : ℤ

pub record GpuDevice (F : Type 0) : Type 0 where
  pub name : String
  pub memory_total : ℤ
  pub memory_used : ℤ
  pub utilization : F
  pub temperature : ℤ

pub record GpuReport (F : Type 0) : Type 0 where
  pub count : ℤ
  pub average_usage : F
  pub detailed_info : List (GpuDevice F)

-- Komari's v1 metric payload. The pointer to the GPU part may be nil.
pub record Report (F : Type 0) : Type 0 where
  pub cpu : CpuReport F
  pub ram : Usage
  pub swap : Usage
  pub load : LoadReport F
  pub disk : Usage
  pub disks : List DiskMount
  pub network : NetworkReport
  pub connections : ConnectionsReport
  pub gpu : Option (GpuReport F)
  pub uptime : ℤ
  pub process : ℤ
  pub message : String

pub record Snapshot (F : Type 0) : Type 0 where
  pub identity : Identity
  pub parent_external_id : String
  pub name : String
  pub resource_type : String
  pub group : String
  pub tags : Dict String
  pub basic_info : BasicInfo
  pub report : Report F
  pub collected_at : ℕ
  pub online : Bool
  pub priority : ℤ

pub record Binding : Type 0 where
  pub identity : Identity
  pub komari_uuid : String
  pub token : String

-- The zero values of Go's composite literals.
abbrev pub no_usage : Usage
no_usage = record { total = ℤ.pos 0; used = ℤ.pos 0 }

abbrev pub empty_basic_info : BasicInfo
empty_basic_info = record {
  cpu_name = "";
  cpu_cores = ℤ.pos 0;
  cpu_physical_cores = ℤ.pos 0;
  arch = "";
  os = "";
  kernel_version = "";
  ipv4 = "";
  ipv6 = "";
  memory_total = ℤ.pos 0;
  swap_total = ℤ.pos 0;
  disk_total = ℤ.pos 0;
  gpu_name = "";
  virtualization = "";
  version = "";
  group = "";
  tags = "";
}

abbrev pub empty_report : {F : Type 0} → F → Report F
empty_report zero_float = record {
  cpu = record { name = ""; cores = ℤ.pos 0; arch = ""; usage = zero_float };
  ram = no_usage;
  swap = no_usage;
  load = record { load1 = zero_float; load5 = zero_float; load15 = zero_float };
  disk = no_usage;
  disks = List.[];
  network = record { up = ℤ.pos 0; down = ℤ.pos 0; total_up = ℤ.pos 0; total_down = ℤ.pos 0 };
  connections = record { tcp = ℤ.pos 0; udp = ℤ.pos 0 };
  gpu = Option.none;
  uptime = ℤ.pos 0;
  process = ℤ.pos 0;
  message = "";
}
