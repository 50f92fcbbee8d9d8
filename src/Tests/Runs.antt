-- ===== src/Tests/Runs.antt =====
-- The properties of `process` and of a cycle, at the sample machine.
use komari_bridge.Base.{◌≡◌, refl, ◌⊎◌, [], ◌∷◌, All}
use komari_bridge.Base.Dict.{lookup, insert}
use komari_bridge.Store.{observe, binding, same, bind, mark_reported}
use komari_bridge.Komari.{register_client, register, upload_basic_info, send_report}
use komari_bridge.Bridge.Process.{process, display_name}
use komari_bridge.Bridge.Process.Requests.{AllSound, process_offline}
use komari_bridge.Bridge.Process.Once.{registrations, process_registers_once}
use komari_bridge.Bridge.Process.Delivery.{IsServed, process-IsServed}
use komari_bridge.Bridge.Cycle.{cycle, gathered, to_submit}
use komari_bridge.Bridge.Cycle.Errors.{HasCollected}
use komari_bridge.Bridge.Cycle.Delivery.{IsDone, cycle-IsDone}
use komari_bridge.Bridge.Topology.{with_version}
use komari_bridge.Model.{Snapshot}
use komari_bridge.Bridge.Validate.{validate_snapshot}
use komari_bridge.Bridge.Gather.{target_keys}
use komari_bridge.Base.Time.{time_sub}
use komari_bridge.Bridge.Cycle.Sound.{cycle-AllSound}
use komari_bridge.Bridge.Cycle.Isolation.{cycle-failed}
use komari_bridge.Tests.Samples.{
  Sample, Sample-Float64, env, build, fresh, runner, running, stopped, machine_key, cluster_view,
  broken, agent_view,
}

cycle-AllSound_example :
    AllSound env
      (cycle env build
        (λ ss. ss)
        (machine_key ∷ [])
        (cluster_view ∷ agent_view ∷ [])
        runner).1.reporter
cycle-AllSound_example =
    cycle-AllSound env build (λ ss. ss) (machine_key ∷ []) (cluster_view ∷ agent_view ∷ []) runner
      tt

cycle-failed_example :
    (cycle env build
      (λ ss. ss)
      (machine_key ∷ [])
      (cluster_view ∷ broken ∷ agent_view ∷ [])
      runner).1
    ≡ (cycle env build (λ ss. ss) (machine_key ∷ []) (cluster_view ∷ agent_view ∷ []) runner).1
cycle-failed_example =
    cycle-failed env build (λ ss. ss) (machine_key ∷ []) (cluster_view ∷ []) broken
      (agent_view ∷ []) runner refl

process_registers_once_example :
    registrations env (process env stopped (process env running fresh).1).1.client.sent
    ≡ registrations env (process env running fresh).1.client.sent
unfolding process observe binding same register bind lookup upload_basic_info send_report
    mark_reported
process_registers_once_example = process_registers_once env running stopped fresh refl refl

process-IsServed_example : IsServed env running (process env running fresh).1
unfolding process observe binding same register bind lookup upload_basic_info send_report
    mark_reported
process-IsServed_example = process-IsServed env running fresh refl refl

process_offline_example :
    (((process env stopped fresh).1.client.sent ≡ fresh.client.sent)
      ⊎ ((process env stopped fresh).1.client.sent
          ≡ register_client (display_name stopped) ∷ fresh.client.sent))
    × ((process env stopped fresh).1.client.seq ≡ fresh.client.seq)
    × ((process env stopped fresh).1.hashes ≡ fresh.hashes)
process_offline_example = process_offline env stopped fresh refl

cycle-IsDone_example :
    let g = gathered env build (machine_key ∷ []) (cluster_view ∷ agent_view ∷ []) runner in
    let done =
      (cycle env build (λ ss. ss) (machine_key ∷ []) (cluster_view ∷ agent_view ∷ []) runner).1 in
    All HasCollected (cluster_view ∷ agent_view ∷ [])
    × All
        (λ (s : Snapshot Sample). IsDone env (with_version build s) done.reporter)
        (to_submit env build (λ ss. ss) g.merged)
unfolding cycle process observe binding same register bind upload_basic_info send_report
    mark_reported validate_snapshot target_keys insert time_sub
cycle-IsDone_example =
    cycle-IsDone env build (λ ss. ss) (machine_key ∷ []) (cluster_view ∷ agent_view ∷ []) runner
      refl
