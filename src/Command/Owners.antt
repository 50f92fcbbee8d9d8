-- ===== src/Command/Owners.antt =====
-- No two of the built providers own the metrics of one resource.
use komari_bridge.Base.{◌≡◌, ◌≢◌, String, Option, List, [], ◌∷◌, ok}
use komari_bridge.Config.{ProvidersConfig}
use komari_bridge.Config.Authorities.{
  Authority, authorities, authority_key, IsFresh, AreUnique, validate_unique_metric_authorities,
  validate_unique_metric_authorities_iff,
}
use komari_bridge.Model.{Identity}
use komari_bridge.Bridge.Merge.{resource_key}
use komari_bridge.Linux.Provider.{identity_of}
use komari_bridge.Proxmox.Provider as Proxmox
use komari_bridge.Docker.Client.{Library}
use komari_bridge.Ssh.Auth.{Keys}
use komari_bridge.Command.{Provider, build_providers}
use komari_bridge.Command.Targets.{all_targets, owned_by, build_providers_targets}

abbrev pub IsNew : String → List Identity → Type 0
IsNew key [] = Unit
IsNew key (i ∷ is) = (resource_key i ≢ key) × IsNew key is

-- No two identities have the same key.
abbrev pub AreDistinct : List Identity → Type 0
AreDistinct [] = Unit
AreDistinct (i ∷ is) = IsNew (resource_key i) is × AreDistinct is

fresh-IsNew :
    (key : String) (owners : List Authority) → IsFresh key owners → IsNew key (owned_by owners)
unfolding authority_key resource_key
fresh-IsNew key [] h = tt
fresh-IsNew key (a ∷ owners) (other, rest) = (other, fresh-IsNew key owners rest)

unique-AreDistinct : (owners : List Authority) → AreUnique owners → AreDistinct (owned_by owners)
unfolding authority_key resource_key
unique-AreDistinct [] h = tt
unique-AreDistinct (a ∷ owners) (first, rest) =
    (fresh-IsNew (resource_key (identity_of a.to)) owners first, unique-AreDistinct owners rest)

-- If the configuration passes the check of the authorities, no two of the providers that are built
-- from it, nor one of them twice, own the metrics of a resource with the same key: the bridge never
-- has to choose between two owners.
pub build_providers-AreDistinct :
    (parse_url : String → Option Proxmox.Url) (lib : Library) (keys : Keys) (cfg : ProvidersConfig)
    (ps : List Provider)
    → validate_unique_metric_authorities cfg ≡ ok tt
    → build_providers parse_url lib keys cfg ≡ ok ps
    → AreDistinct (all_targets ps)
build_providers-AreDistinct parse_url lib keys cfg ps valid built =
    rw (build_providers_targets parse_url lib keys cfg ps built)
      (unique-AreDistinct (authorities cfg) ((validate_unique_metric_authorities_iff cfg).0 valid))
