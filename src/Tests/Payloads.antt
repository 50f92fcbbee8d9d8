-- ===== src/Tests/Payloads.antt =====
-- The properties of the checks, the merges, the authorities and the table, at the sample machine.
use komari_bridge.Base.Int.{leb_ℤ}
use komari_bridge.Base.Dict.{lookup, member}
use komari_bridge.Base.Time.{second}
use komari_bridge.Model.{valid, Snapshot}
use komari_bridge.Store.{bind, binding, same}
use komari_bridge.Store.Bindings.{binding-bind}
use komari_bridge.Bridge.Validate.{validate_snapshot}
use komari_bridge.Bridge.Validate.Sound.{IsReportable, validate_snapshot_iff}
use komari_bridge.Base.{
  List, ◌≡◌, refl, ◌↔◌, ◌⊎◌, ◌<>◌, true, false, [], ◌∷◌, ok, if◌then◌else◌, is_some,
}
use komari_bridge.Bridge.Topology.{topology_site}
use komari_bridge.Bridge.Topology.Site.{is_some-topology_site}
use komari_bridge.Bridge.Merge.{resource_key, merge_snapshots}
use komari_bridge.Bridge.Merge.Laws.{IsPayload, merge-IsPayload}
use komari_bridge.Bridge.Merge.Keys.{resource_key-collides}
use komari_bridge.Bridge.Gather.{apply_authorities}
use komari_bridge.Bridge.Gather.Authority.{authority_result, lookup-apply_authorities}
use komari_bridge.Tests.Samples.{
  Sample-Float64, machine, machine_key, running, observed_inside, merged, row, binding_1, Sample,
}

validate_snapshot_iff_example : (validate_snapshot running ≡ ok tt) ↔ (
    (valid running.identity ≡ true)
    × ((running.online ≡ false) ⊎ IsReportable running.basic_info running.report))
validate_snapshot_iff_example = validate_snapshot_iff running

merge-IsPayload_example :
    IsPayload
      (if leb_ℤ running.priority observed_inside.priority then observed_inside else running)
      (merge_snapshots running observed_inside)
merge-IsPayload_example = merge-IsPayload running observed_inside

resource_key-collides_example :
    resource_key
      (record { source_type = "proxmox"; source_id = "lab" <> ("/" <> "a"); external_id = "b" })
    ≡ resource_key
        (record { source_type = "proxmox"; source_id = "lab"; external_id = "a" <> ("/" <> "b") })
resource_key-collides_example = resource_key-collides "proxmox" "lab" "a" "b"

lookup-apply_authorities_example :
    lookup machine_key (apply_authorities second (machine_key ∷ []) merged).merged ≡ (
      if member machine_key (machine_key ∷ [])
      then authority_result second
          (lookup machine_key merged.cache)
          (lookup machine_key merged.merged)
      else lookup machine_key merged.merged)
unfolding member
lookup-apply_authorities_example =
    lookup-apply_authorities second (machine_key ∷ []) machine_key merged (refl, tt)

binding-bind_example :
    binding false machine (bind false binding_1 (row ∷ [])).1
    ≡ (if same machine machine then ok binding_1 else binding false machine (row ∷ []))
unfolding bind same
binding-bind_example = binding-bind binding_1 machine (row ∷ []) refl

-- Two machines that are each other's parents.
abbrev circular : List (Snapshot Sample)
circular =
    record running { parent_external_id = "qemu:101" }
    ∷ record running {
      identity = record machine { external_id = "qemu:101" };
      parent_external_id = "qemu:100";
    }
    ∷ []

is_some-topology_site_example :
    is_some (topology_site circular (record running { parent_external_id = "qemu:101" })) ≡ true
is_some-topology_site_example =
    is_some-topology_site circular (record running { parent_external_id = "qemu:101" })
