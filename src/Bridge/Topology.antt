-- ===== src/Bridge/Topology.antt =====
-- internal/bridge/runner.go: `decorateTopology`, `topologySite`, `encodeTags` and
-- `snapshotCollector`, the display metadata of the merged snapshots.
pub mod Site
use Prim.Native.Char.{Char, code}
use komari_bridge.Base.{
  ℕ, zero, suc, String, ◌<>◌, ◌==◌, true, false, not, ◌&&◌, ◌||◌, Option, none, some, List, [], ◌∷◌,
  map, eqb, if◌then◌else◌, find, filter, length, get_or,
}
use komari_bridge.Base.Dict.{Dict, lookup, insert, insert_all, member}
use komari_bridge.Base.Text.{trim_space, is_blank, replace_chars, sort_strings, join}
use komari_bridge.Buildinfo.{Build, client_version}
use komari_bridge.Model.{Snapshot}

-- The replacer of `encodeTags`: the separator and the line ends.
abbrev pub tag_char : Char → Char
tag_char c =
    let n = code c in if eqb n b';' then "," else if eqb n b'\n' || eqb n b'\r' then " " else c

unfoldable pub tag_text : String → String
unfolding replace_chars
tag_text = replace_chars tag_char

-- The keys of the tags that are written: neither they nor their values are blank.
unfoldable pub tag_keys : Dict String → List String
unfolding is_blank
tag_keys [] = []
tag_keys ((key, value) ∷ tags) =
    let rest = tag_keys tags in
    if not (is_blank key) && not (is_blank value) then key ∷ rest else rest

abbrev pub tag_part : Dict String → String → String
tag_part tags key = tag_text key <> "=" <> tag_text (get_or (lookup key tags) "")

unfoldable pub tag_parts : Dict String → List String
unfolding tag_keys tag_text lookup sort_strings
tag_parts tags = map (tag_part tags) (sort_strings (tag_keys tags))

unfoldable pub encode_tags : Dict String → String
unfolding tag_parts join
encode_tags tags = join ";" (tag_parts tags)

module _ {F : Type 0} where
  -- `byExternalID[id]`, in the order of the range over the map.
  abbrev pub with_external_id : String → List (Snapshot F) → List (Snapshot F)
  with_external_id id = filter (λ s. s.identity.external_id == id)

  -- The parent among the candidates: the first one of the start's group, or else the first one.
  abbrev pub pick_parent : String → Snapshot F → List (Snapshot F) → Snapshot F
  pick_parent group first candidates =
      get_or (find (λ c. not (group == "") && (c.group == group)) candidates) first

  abbrev pub root_site : String → Snapshot F → String
  root_site group current =
      if (current.resource_type == "node") || (current.basic_info.virtualization == "pve")
      then trim_space current.name
      else group

  module _ (all : List (Snapshot F)) (group : String) where
    -- The loop, from `current` on; `none` is the loop's fuel running out.
    unfoldable pub site_from : ℕ → List String → Snapshot F → Option String
    unfolding member
    site_from zero visited current = none
    site_from (suc fuel) visited current =
        let id = current.identity.external_id in
        elim (with_external_id current.parent_external_id all) [
          | [] ↦ some (if current.parent_external_id == "" then root_site group current else group)
          | parent ∷ others ↦
              if current.parent_external_id == ""
              then some (root_site group current)
              else elim (member id visited) [
                | true ↦ some group
                | false ↦ site_from fuel (id ∷ visited) (pick_parent group parent (parent ∷ others))
              ]
        ]

  -- Each round visits another external id, so there are at most as many as snapshots, and one.
  unfoldable pub topology_site : List (Snapshot F) → Snapshot F → Option String
  unfolding site_from
  topology_site all s = site_from all s.group (suc (suc (length all))) [] s

  -- The tags of a snapshot, with the bridge's own.
  abbrev pub bridge_tags : String → Snapshot F → Dict String
  bridge_tags site s =
      let copied = insert_all s.tags [] in
      let typed = insert "bridge_source_type" s.identity.source_type copied in
      let sourced = insert "bridge_source_id" s.identity.source_id typed in
      let named = insert "bridge_external_id" s.identity.external_id sourced in
      let kinded = insert "bridge_resource_type" s.resource_type named in
      let parented =
        if s.parent_external_id == ""
        then kinded
        else insert "bridge_parent_external_id" s.parent_external_id kinded in
      if site == "" then parented else insert "bridge_site" site parented

  unfoldable pub decorated : String → Snapshot F → Snapshot F
  unfolding encode_tags insert_all
  decorated site s = record s {
    basic_info = record s.basic_info {
      group = if site == "" then s.group else site;
      tags = encode_tags (bridge_tags site s);
    };
  }

  abbrev snapshots_of : Dict (Snapshot F) → List (Snapshot F)
  snapshots_of = map (λ (_, s). s)

  unfoldable pub decorate_entries : List (Snapshot F) → Dict (Snapshot F) → Dict (Snapshot F)
  unfolding decorated topology_site
  decorate_entries all [] = []
  decorate_entries all ((key, s) ∷ d) =
      (key, decorated (get_or (topology_site all s) "") s) ∷ decorate_entries all d

  -- `decorateTopology`: the sites are found among the snapshots as they were before.
  unfoldable pub decorate_topology : Dict (Snapshot F) → Dict (Snapshot F)
  unfolding decorate_entries
  decorate_topology d = decorate_entries (snapshots_of d) d

  unfoldable pub snapshot_collector : Snapshot F → String
  unfolding lookup
  snapshot_collector s =
      let metrics = get_or (lookup "metrics_source" s.tags) "" in
      let source = get_or (lookup "source" s.tags) "" in
      if not (metrics == "")
      then metrics
      else if not (source == "")
      then source
      else s.identity.source_type

  -- The version that the cycle sets on every snapshot.
  unfoldable pub with_version : Build → Snapshot F → Snapshot F
  unfolding snapshot_collector client_version
  with_version build s = record s {
    basic_info = record s.basic_info { version = client_version build (snapshot_collector s) };
  }
