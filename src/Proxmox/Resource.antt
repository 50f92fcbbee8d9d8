-- ===== src/Proxmox/Resource.antt =====
-- providers/proxmox/proxmox.go: `externalID`, `networkRates` and `snapshot`, what the cluster says of
-- a resource.
use komari_bridge.Base.{
  ℕ, String, ◌<>◌, ◌==◌, Bool, not, ◌||◌, Option, none, some, get_or, [], ◌∷◌, if◌then◌else◌,
}
use komari_bridge.Base.Int.{ℤ, pos, ◌-ℤ◌, ltb_ℤ}
use komari_bridge.Base.Words.{wrap64}
use komari_bridge.Base.Time.{time_sub}
use komari_bridge.Base.Dict.{Dict, lookup, insert}
use komari_bridge.Base.Floats.{Float64}
use komari_bridge.Base.Seconds.{seconds}
use komari_bridge.Base.Text.{to_upper, trim_prefix, first_non_empty, itoa}
use komari_bridge.Model.{Snapshot, empty_basic_info, empty_report}

pub record Resource (F : Type 0) : Type 0 where
  pub id : String
  pub type : String
  pub node : String
  pub name : String
  pub vmid : ℤ
  pub status : String
  pub cpu : F
  pub max_cpu : F
  pub mem : ℤ
  pub max_mem : ℤ
  pub disk : ℤ
  pub max_disk : ℤ
  pub net_in : ℤ
  pub net_out : ℤ
  pub uptime : ℤ
  pub template : ℤ

pub record NetworkSample : Type 0 where
  pub up : ℤ
  pub down : ℤ
  pub saved_at : ℕ

-- The fields of the provider that `snapshot` reads.
pub record Source : Type 0 where
  pub id : String
  pub group : String
  pub names : Dict String

abbrev at_least_zero : ℤ → ℤ
at_least_zero n = if ltb_ℤ n (pos 0) then pos 0 else n

module _ {F : Type 0} where
  unfoldable pub node_name : Resource F → String
  unfolding first_non_empty trim_prefix
  node_name item = first_non_empty (item.node ∷ item.name ∷ trim_prefix item.id "node/" ∷ [])

  unfoldable pub is_node : Resource F → Bool
  is_node item = item.type == "node"

  unfoldable pub external_id : Resource F → String
  unfolding node_name is_node itoa
  external_id item =
      if is_node item then "node:" <> node_name item else item.type <> ":" <> itoa item.vmid

module _ {F : Type 0} (fl : Float64 F) where
  open fl use {of_int, truncate, fdiv, flt}

  abbrev rate : F → ℤ → ℤ → ℤ
  rate elapsed now before = truncate (fdiv (of_int (wrap64 (now -ℤ before))) elapsed)

  -- The rates of a sample after the last one; a counter that went back gives none.
  unfoldable pub rates_since : Option NetworkSample → NetworkSample → ℤ × ℤ
  unfolding seconds wrap64 ◌-ℤ◌ time_sub
  rates_since none sample = (pos 0, pos 0)
  rates_since (some last) sample =
      let elapsed = seconds ⦃fl = fl⦄ (time_sub sample.saved_at last.saved_at) in
      if ltb_ℤ sample.up last.up
        || ltb_ℤ sample.down last.down
        || not (flt (of_int (pos 0)) elapsed)
      then (pos 0, pos 0)
      else (rate elapsed sample.up last.up, rate elapsed sample.down last.down)

  unfoldable pub network_rates :
      String → NetworkSample → Dict NetworkSample → (ℤ × ℤ) × Dict NetworkSample
  unfolding lookup insert rates_since
  network_rates key sample samples =
      (rates_since (lookup key samples) sample, insert key sample samples)

module _ {F : Type 0} ⦃fl : Float64 F⦄ where
  open fl use {of_int, truncate, fmul}

  -- The name that the snapshot starts from: the node's, or the item's.
  abbrev base_name : Resource F → String
  base_name item = if is_node item then trim_prefix (external_id item) "node:" else item.name

  unfoldable pub resource_name : Source → Resource F → String
  unfolding lookup external_id trim_prefix
  resource_name p item =
      let id = external_id item in
      let alias = get_or (lookup id p.names) "" in
      let name = if not (alias == "") then alias else base_name item in
      if name == "" then id else name

  -- The allocated size of a virtual disk is not its use, so a QEMU guest has no disk here.
  abbrev disk_of : Resource F → ℤ → ℤ
  disk_of item bytes = if item.type == "qemu" then pos 0 else bytes

  unfoldable pub is_up : Resource F → Bool
  is_up item = (item.status == "online") || (item.status == "running")

  unfoldable pub snapshot_at : Source → Resource F → ℕ → ℤ × ℤ → Snapshot F
  unfolding external_id resource_name is_node is_up to_upper
  snapshot_at p item now rates =
      let id = external_id item in
      let cores = at_least_zero (truncate item.max_cpu) in
      let empty = empty_report (of_int (pos 0)) in
      let disk_total = disk_of item item.max_disk in
      record {
        identity = record { source_type = "proxmox"; source_id = p.id; external_id = id };
        parent_external_id = if is_node item then "" else "node:" <> item.node;
        name = resource_name p item;
        resource_type = item.type;
        group = p.group;
        tags = ("source", "proxmox") ∷ ("resource_type", item.type) ∷ [];
        basic_info = record empty_basic_info {
          cpu_name = "PVE observed CPU";
          cpu_cores = cores;
          os =
              if is_node item
              then "Proxmox VE"
              else "Proxmox " <> to_upper item.type <> " guest (external metrics)";
          memory_total = item.max_mem;
          disk_total = disk_total;
          virtualization = if is_node item then "pve" else item.type;
          version = "komari-bridge";
        };
        report = record empty {
          cpu = record empty.cpu { cores = cores; usage = fmul item.cpu (of_int (pos 100)) };
          ram = record { total = item.max_mem; used = item.mem };
          disk = record { total = disk_total; used = disk_of item item.disk };
          network = record {
            up = rates.0;
            down = rates.1;
            total_up = item.net_out;
            total_down = item.net_in;
          };
          uptime = item.uptime;
          message =
              "Metrics observed by Proxmox; guest filesystem and process metrics are unavailable.";
        };
        collected_at = now;
        online = is_up item;
        priority = pos 10;
      }

  unfoldable pub snapshot :
      Source → Resource F → ℕ → Dict NetworkSample → Snapshot F × Dict NetworkSample
  unfolding snapshot_at network_rates
  snapshot p item now samples =
      let sample : NetworkSample = record {
        up = item.net_out;
        down = item.net_in;
        saved_at = now;
      } in
      let (rates, kept) = network_rates fl (external_id item) sample samples in
      (snapshot_at p item now rates, kept)
