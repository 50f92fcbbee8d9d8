-- ===== src/Bridge/Merge.antt =====
-- internal/bridge/runner.go: `ResourceKey` and `mergeSnapshots`. Two snapshots of one resource
-- become one: the payload of the higher priority over the discovery metadata of the other.
pub mod Keys
pub mod Laws
use komari_bridge.Base.{String, ◌<>◌, ◌==◌, Bool, if◌then◌else◌}
use komari_bridge.Base.Int.{ltb_ℤ}
use komari_bridge.Base.Dict.{insert_all}
use komari_bridge.Model.{Identity, BasicInfo, Snapshot}

-- `strings.Join` of the three parts with slashes.
unfoldable pub resource_key : Identity → String
resource_key i = i.source_type <> "/" <> (i.source_id <> "/" <> i.external_id)

-- `if new != "" { old = new }`
abbrev pub or_old : String → String → String
or_old new old = if new == "" then old else new

abbrev pub keep_platform : BasicInfo → BasicInfo → BasicInfo
keep_platform base info = record info {
  virtualization = or_old info.virtualization base.virtualization;
}

module _ {F : Type 0} where
  -- The first is the base only if its priority is not the higher one.
  abbrev pub swapped : Snapshot F → Snapshot F → Bool
  swapped a b = ltb_ℤ b.priority a.priority

  -- The merge once base and enrichment are chosen.
  unfoldable pub enrich : Snapshot F → Snapshot F → Snapshot F
  enrich base enrichment = record base {
    basic_info = keep_platform base.basic_info enrichment.basic_info;
    report = enrichment.report;
    online = enrichment.online;
    collected_at = enrichment.collected_at;
    priority = enrichment.priority;
    name = or_old enrichment.name base.name;
    group = or_old enrichment.group base.group;
    resource_type = or_old enrichment.resource_type base.resource_type;
    parent_external_id = or_old enrichment.parent_external_id base.parent_external_id;
    tags = insert_all enrichment.tags base.tags;
  }

  unfoldable pub merge_snapshots : Snapshot F → Snapshot F → Snapshot F
  unfolding enrich
  merge_snapshots a b = if swapped a b then enrich b a else enrich a b
