-- ===== src/Proxmox/Provider.antt =====
-- providers/proxmox/proxmox.go: `Provider` and `New`.
use komari_bridge.Base.{
  ℕ, String, ◌==◌, Bool, ◌||◌, Option, none, some, List, [], ◌∷◌, if◌then◌else◌, Result, ok, err,
  fail_if, ◌>>◌,
}
use komari_bridge.Base.Dict.{Dict, StringSet}
use komari_bridge.Base.Text.{trim_space, is_blank, trim_slashes}
use komari_bridge.Config.{ProxmoxConfig, ResourceOverride}
use komari_bridge.Proxmox.Memory.{GuestMemory}
use komari_bridge.Proxmox.Disk.{GuestDisk}
use komari_bridge.Proxmox.Resource.{NetworkSample, Source}
use komari_bridge.Proxmox.Enrich.{NodeStatus, GuestOs}

-- `url.URL`, as far as it is read: `text` is its `String`.
pub record Url : Type 0 where
  pub scheme : String
  pub host : String
  pub text : String

-- The fields of the provider that never change.
pub record Provider : Type 0 where
  pub source : Source
  pub endpoint : String
  pub token_id : String
  pub secret : String
  pub skip_stopped : Bool
  pub excluded : StringSet
  pub resources : Dict ResourceOverride

-- The maps behind `cacheMu`.
pub record Caches : Type 0 where
  pub node_status : Dict NodeStatus
  pub guest_os : Dict GuestOs
  pub guest_memory : Dict (GuestMemory × ℕ)
  pub guest_disk : Dict (GuestDisk × ℕ)
  pub network : Dict NetworkSample

abbrev pub no_caches : Caches
no_caches = record {
  node_status = [];
  guest_os = [];
  guest_memory = [];
  guest_disk = [];
  network = [];
}

pub data NewError : Type 0 where
  invalid_endpoint : NewError

abbrev trimmed_ids : List String → StringSet
trimmed_ids [] = []
trimmed_ids (id ∷ ids) =
    let rest = trimmed_ids ids in if is_blank id then rest else trim_space id ∷ rest

abbrev pub provider_at : ProxmoxConfig → Option Url → Result NewError (Provider × Caches)
provider_at cfg none = err invalid_endpoint
provider_at cfg (some u) = do
  fail_if (u.scheme == "" || u.host == "") invalid_endpoint
  ok (
    record {
      source = record { id = cfg.id; group = cfg.group; names = cfg.names };
      endpoint = u.text;
      token_id = cfg.token_id;
      secret = cfg.token_secret;
      skip_stopped = cfg.skip_stopped;
      excluded = trimmed_ids cfg.exclude_resources;
      resources = cfg.resources;
    },
    no_caches,
  )

-- `parse_url` is `url.Parse`.
unfoldable pub new_provider :
    (String → Option Url) → ProxmoxConfig → Result NewError (Provider × Caches)
unfolding trim_slashes trim_space is_blank
new_provider parse_url cfg = provider_at cfg (parse_url (trim_slashes cfg.endpoint))
