-- ===== src/Docker/Workload/Identity.antt =====
-- What the identity of a container tells.
use komari_bridge.Base.{
  List, Bool-cases, inl, inr, if◌then◌else◌, ◌≡◌, refl, String, ◌<>◌, false, [], ◌∷◌,
}
use text.Mathlib.TextLemmas.{cons-append, append_assoc, nil-append}
use Prim.Native.Char.{Char}
use komari_bridge.Base.Text.{split, trim_space}
use komari_bridge.Base.Text.Parts.{contains, split-alone, split-append}
use komari_bridge.Base.Text.Escape.Free.{query_escape-free}
use komari_bridge.Docker.Selection.{ContainerSummary}
use komari_bridge.Docker.Workload.{
  escape_id, container_name, swarm_service_key, swarm_task_key, compose_project, compose_service,
  compose_number, is_swarm, is_compose, swarm_workload, compose_workload, standalone_workload,
  workload_identity,
}

escape_id-free : (value : String) → contains b':' (escape_id value) ≡ false
unfolding escape_id
escape_id-free value = query_escape-free (trim_space value)

abbrev colon : Char
colon = Char.char b':' tt

split-after :
    (s t : String) → contains b':' s ≡ false → split b':' (s <> (":" <> t)) ≡ s ∷ split b':' t
split-after s t h = rw (cons-append colon "" t, nil-append t) (split-append colon s t h)

-- A mode, which the identity starts with, and the rest after a colon.
split-mode :
    (mode t : String)
    → contains b':' mode ≡ false
    → split b':' ((mode <> ":") <> t) ≡ mode ∷ split b':' t
split-mode mode t h = rw (append_assoc mode ":" t) (split-after mode t h)

-- Two parts, or three, that are escaped.
split-two :
    (a b : String)
    → split b':' (escape_id a <> (":" <> escape_id b)) ≡ escape_id a ∷ escape_id b ∷ []
split-two a b =
    rw
      (
        split-after (escape_id a) (escape_id b) (escape_id-free a),
        split-alone b':' (escape_id b) (escape_id-free b),
      )
      refl

split-three :
    (a b c : String)
    → split b':' (escape_id a <> (":" <> (escape_id b <> (":" <> escape_id c))))
      ≡ escape_id a ∷ escape_id b ∷ escape_id c ∷ []
split-three a b c =
    rw
      (
        split-after (escape_id a) (escape_id b <> (":" <> escape_id c)) (escape_id-free a),
        split-two b c,
      )
      refl

-- The mode of a container and what identifies it in that mode.
abbrev pub parts_of : ContainerSummary → List String
parts_of c =
    if is_swarm c
    then "swarm" ∷ escape_id (swarm_service_key c) ∷ escape_id (swarm_task_key c) ∷ []
    else if is_compose c
    then "compose"
      ∷ escape_id (compose_project c)
      ∷ escape_id (compose_service c)
      ∷ escape_id (compose_number c)
      ∷ []
    else "container" ∷ escape_id (container_name c) ∷ []

split-swarm_workload :
    (c : ContainerSummary)
    → split b':' (swarm_workload c).external_id
      ≡ "swarm" ∷ escape_id (swarm_service_key c) ∷ escape_id (swarm_task_key c) ∷ []
unfolding swarm_workload
split-swarm_workload c =
    rw
      (
        split-mode "swarm"
            (escape_id (swarm_service_key c) <> (":" <> escape_id (swarm_task_key c))) refl,
        split-two (swarm_service_key c) (swarm_task_key c),
      )
      refl

split-compose_workload :
    (c : ContainerSummary)
    → split b':' (compose_workload c).external_id
      ≡ "compose"
        ∷ escape_id (compose_project c)
        ∷ escape_id (compose_service c)
        ∷ escape_id (compose_number c)
        ∷ []
unfolding compose_workload
split-compose_workload c =
    rw
      (
        split-mode "compose"
            (escape_id (compose_project c)
              <> (":" <> (escape_id (compose_service c) <> (":" <> escape_id (compose_number c)))))
            refl,
        split-three (compose_project c) (compose_service c) (compose_number c),
      )
      refl

split-standalone_workload :
    (c : ContainerSummary)
    → split b':' (standalone_workload c).external_id
      ≡ "container" ∷ escape_id (container_name c) ∷ []
unfolding standalone_workload
split-standalone_workload c =
    rw
      (
        split-mode "container" (escape_id (container_name c)) refl,
        split-alone b':' (escape_id (container_name c)) (escape_id-free (container_name c)),
      )
      refl

-- The identity of a container splits at its colons into its mode and the escaped parts that identify
-- it in that mode: service and task under swarm, project, service and number under compose, the name
-- otherwise. So the modes have no identity in common, and no part runs into the next.
pub split-workload_identity :
    (c : ContainerSummary) → split b':' (workload_identity c).external_id ≡ parts_of c
unfolding workload_identity
split-workload_identity c = elim (Bool-cases (is_swarm c)) [
  | inl swarm ↦ rw swarm (split-swarm_workload c)
  | inr alone ↦ elim (Bool-cases (is_compose c)) [
    | inl composed ↦ rw (alone, composed) (split-compose_workload c)
    | inr single ↦ rw (alone, single) (split-standalone_workload c)
  ]
]
