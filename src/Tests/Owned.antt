-- ===== src/Tests/Owned.antt =====
-- The owners of metrics in a cycle, at the sample machine that an agent owns.
use komari_bridge.Base.{◌≡◌, refl, some, none, List, [], ◌∷◌, arith, ℕ, ◌+◌, ◌<◌}
use komari_bridge.Base.Int.{◌≤ℤ◌}
use komari_bridge.Base.Dict.{lookup, member, insert}
use komari_bridge.Base.Time.{time_sub, minute}
use komari_bridge.Model.{Identity, Snapshot}
use komari_bridge.Bridge.Gather.{target_keys, gather}
use komari_bridge.Bridge.Validate.{validate_snapshot}
use komari_bridge.Bridge.Merge.Laws.{IsPayload}
use komari_bridge.Bridge.Gather.Saved.{Holds, said, owned_by, last_said}
use komari_bridge.Bridge.Cycle.{Runner, authoritative_targets, gathered}
use komari_bridge.Bridge.Cycle.Authority.{
  merged_first, last_word, decided_at, cycle_silences, cycle_decides,
}
use komari_bridge.Tests.Samples.{
  Sample, Sample-Float64, env, build, runner, machine, machine_key, cluster_view, agent_view,
  observed_inside, broken, cached, fresh,
}

abbrev owned_machine : List (List Identity)
owned_machine = [] ∷ (machine ∷ []) ∷ []

-- The agent has told of the machine once, a hundred seconds ago.
abbrev late : Runner Sample
late = record runner { reporter = record fresh { ticks = 100 }; cache = (machine_key, cached) ∷ [] }

cycle_silences_example :
    lookup machine_key
      (gathered env build
        (authoritative_targets owned_machine)
        (cluster_view ∷ broken ∷ [])
        late).merged
    ≡ none
unfolding authoritative_targets target_keys member lookup said owned_by last_said
cycle_silences_example =
    cycle_silences env build owned_machine (cluster_view ∷ broken ∷ []) late machine_key refl
      (λ s at e. stale s at e)
  where
    stale :
        (s : Snapshot Sample) (at : ℕ)
        → last_word env (cluster_view ∷ broken ∷ []) late machine_key ≡ some (s, at)
        → at + minute < decided_at env (cluster_view ∷ broken ∷ []) late
    stale s at e = let same : 0 ≡ at = cc in rw⁻¹ same (omega arith)

low_priority :
    (m : Snapshot Sample)
    → lookup machine_key (merged_first env (cluster_view ∷ agent_view ∷ []) runner).merged ≡ some m
    → m.priority ≤ℤ observed_inside.priority
unfolding lookup target_keys validate_snapshot insert time_sub gather
low_priority m e = ground arith

cycle_decides_example :
    (m : Snapshot Sample) × (lookup machine_key
        (gathered env build
          (authoritative_targets owned_machine)
          (cluster_view ∷ agent_view ∷ [])
          runner).merged
      ≡ some m)
    × IsPayload observed_inside m
    × Holds
        (lookup machine_key
          (gathered env build
            (authoritative_targets owned_machine)
            (cluster_view ∷ agent_view ∷ [])
            runner).cache)
        (some (observed_inside, 0))
unfolding authoritative_targets target_keys member lookup validate_snapshot insert time_sub said
    owned_by last_said
cycle_decides_example =
    cycle_decides env build owned_machine (cluster_view ∷ agent_view ∷ []) runner machine_key refl
      observed_inside 0 refl (omega arith) low_priority
