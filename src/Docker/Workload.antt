-- ===== src/Docker/Workload.antt =====
-- providers/docker/docker.go: `workloadIdentity` and what it calls, the lasting identity of a
-- container.
pub mod Identity
use komari_bridge.Base.{
  String, ◌<>◌, ◌==◌, Bool, not, ◌||◌, Option, none, some, is_some, get_or, List, [], ◌∷◌,
  if◌then◌else◌,
}
use komari_bridge.Base.Dict.{Dict, lookup}
use komari_bridge.Base.Text.{trim_space, is_blank, trim_prefix, split, atoi, prefix}
use komari_bridge.Base.Text.Escape.{query_escape}
use komari_bridge.Docker.Selection.{ContainerSummary}

pub record Workload : Type 0 where
  pub external_id : String
  pub name : String
  pub resource_type : String
  pub tags : Dict String

-- The package's `firstNonEmpty`: a blank value is passed over, and none is trimmed.
unfoldable pub first_not_blank : List String → String
unfolding is_blank
first_not_blank [] = ""
first_not_blank (value ∷ values) =
    let rest = first_not_blank values in if is_blank value then rest else value

-- `first`
abbrev pub first : List String → String
first [] = ""
first (value ∷ _) = value

-- `parts[len(parts)-2]`, `none` where there are not three.
unfoldable pub slot_part : List String → Option String
slot_part (a ∷ b ∷ c ∷ []) = some b
slot_part (a ∷ b ∷ c ∷ d ∷ parts) = slot_part (b ∷ c ∷ d ∷ parts)
slot_part _ = none

abbrev numbered : Option String → String
numbered none = ""
numbered (some part) = if is_some (atoi part) then part else ""

unfoldable pub swarm_slot : String → String
unfolding slot_part split
swarm_slot task_name = numbered (slot_part (split b'.' task_name))

-- `shortID`: an identifier of the engine is hexadecimal, a byte for each character.
unfoldable pub short_id : String → String
unfolding prefix
short_id value = prefix 12 value

unfoldable pub escape_id : String → String
unfolding query_escape trim_space
escape_id value = query_escape (trim_space value)

-- A label that the map lacks reads as empty.
unfoldable pub label : String → ContainerSummary → String
unfolding lookup
label key c = get_or (lookup key c.labels) ""

unfoldable pub container_name : ContainerSummary → String
unfolding trim_prefix short_id
container_name c =
    let name = trim_prefix (first c.names) "/" in if name == "" then short_id c.id else name

abbrev service_id_of : ContainerSummary → String
service_id_of c = label "com.docker.swarm.service.id" c

unfoldable pub swarm_service : ContainerSummary → String
unfolding first_not_blank label container_name
swarm_service c =
    first_not_blank
      (label "com.docker.swarm.service.name" c ∷ service_id_of c ∷ container_name c ∷ [])

abbrev slot_of : ContainerSummary → String
slot_of c = swarm_slot (label "com.docker.swarm.task.name" c)

-- What identifies the service, and the task in it: its slot, or else its identifier.
unfoldable pub swarm_service_key : ContainerSummary → String
unfolding first_not_blank swarm_service
swarm_service_key c = first_not_blank (service_id_of c ∷ swarm_service c ∷ [])

unfoldable pub swarm_task_key : ContainerSummary → String
unfolding first_not_blank swarm_slot short_id label
swarm_task_key c =
    first_not_blank (slot_of c ∷ label "com.docker.swarm.task.id" c ∷ short_id c.id ∷ [])

unfoldable pub swarm_workload : ContainerSummary → Workload
unfolding swarm_service swarm_service_key swarm_task_key swarm_slot escape_id label
swarm_workload c = record {
  external_id =
      "swarm:" <> (escape_id (swarm_service_key c) <> (":" <> escape_id (swarm_task_key c)));
  name = if slot_of c == "" then swarm_service c else swarm_service c <> (" #" <> slot_of c);
  resource_type = "docker_swarm_task";
  tags =
      ("docker_mode", "swarm")
      ∷ ("docker_swarm_service", swarm_service c)
      ∷ ("docker_swarm_service_id", service_id_of c)
      ∷ ("docker_swarm_task", label "com.docker.swarm.task.name" c)
      ∷ ("docker_swarm_slot", slot_of c)
      ∷ [];
}

abbrev pub compose_project : ContainerSummary → String
compose_project c = label "com.docker.compose.project" c

unfoldable pub compose_service : ContainerSummary → String
unfolding first_not_blank label container_name
compose_service c = first_not_blank (label "com.docker.compose.service" c ∷ container_name c ∷ [])

unfoldable pub compose_number : ContainerSummary → String
unfolding first_not_blank label
compose_number c = first_not_blank (label "com.docker.compose.container-number" c ∷ "1" ∷ [])

unfoldable pub compose_workload : ContainerSummary → Workload
unfolding compose_service compose_number escape_id
compose_workload c =
    let project = compose_project c in
    let service = compose_service c in
    let number = compose_number c in
    let shown = project <> (" / " <> service) in
    record {
      external_id =
          "compose:"
          <> (escape_id project <> (":" <> (escape_id service <> (":" <> escape_id number))));
      name = if number == "1" then shown else shown <> (" #" <> number);
      resource_type = "docker_compose_container";
      tags =
          ("docker_mode", "compose")
          ∷ ("docker_compose_project", project)
          ∷ ("docker_compose_service", service)
          ∷ ("docker_compose_number", number)
          ∷ [];
    }

unfoldable pub standalone_workload : ContainerSummary → Workload
unfolding escape_id container_name
standalone_workload c = record {
  external_id = "container:" <> escape_id (container_name c);
  name = container_name c;
  resource_type = "docker_container";
  tags = ("docker_mode", "standalone") ∷ [];
}

abbrev pub is_swarm : ContainerSummary → Bool
is_swarm c =
    not (label "com.docker.swarm.service.id" c == "")
    || not (label "com.docker.swarm.service.name" c == "")

abbrev pub is_compose : ContainerSummary → Bool
is_compose c = not (compose_project c == "")

unfoldable pub workload_identity : ContainerSummary → Workload
unfolding swarm_workload compose_workload standalone_workload label
workload_identity c =
    if is_swarm c
    then swarm_workload c
    else if is_compose c
    then compose_workload c
    else standalone_workload c
