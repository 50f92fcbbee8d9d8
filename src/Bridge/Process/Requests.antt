-- ===== src/Bridge/Process/Requests.antt =====
-- Which requests a snapshot leads to, and what the requests carry.
use komari_bridge.Store.{not_bound}
use komari_bridge.Base.{
  ◌+◌, inr, inl, Bool-cases, Result, ℕ, err, ok, ◌≡◌, ◌⊎◌, Bool, true, false, ◌∷◌, All, arith,
  String,
}
use komari_bridge.Base.Floats.{Float64}
use komari_bridge.Base.Exec.{Keeps, keeps_rules}
use komari_bridge.Model.{Snapshot, Binding, BasicInfo}
use komari_bridge.Komari.{
  Request, register_client, rpc_call, basic_info, report, register, upload_basic_info, send_report,
}
use komari_bridge.Bridge.Validate.Sound.{IsReportable}
use komari_bridge.Bridge.Process.{
  report_if_online, store_binding, or_register, binding, StoreError, Table, Report, on_table,
  mark_basic_info, on_server, Env, Reporter, register_resource, current_binding, upload_changed,
  report_online, process, display_name,
}

module _ {F : Type 0} (env : Env F) where
  -- An offline snapshot leads to no RPC call: at most its client is registered, and what is known
  -- of the basic infos stays.
  pub process_offline :
      (s : Snapshot F) (r : Reporter F)
      → s.online ≡ false
      → (((process env s r).1.client.sent ≡ r.client.sent)
          ⊎ ((process env s r).1.client.sent ≡ register_client (display_name s) ∷ r.client.sent))
        × ((process env s r).1.client.seq ≡ r.client.seq)
        × ((process env s r).1.hashes ≡ r.hashes)
  unfolding process register
  process_offline s r h = ground arith

  module _ ⦃fl : Float64 F⦄ where
    -- A report that passes the checks, with the basic info of its snapshot.
    abbrev pub IsSoundRequest : Request F → Type 0
    IsSoundRequest (register_client name) = Unit
    IsSoundRequest (rpc_call token id (basic_info info)) = Unit
    IsSoundRequest (rpc_call token id (report r)) = (info : BasicInfo) × IsReportable info r

    abbrev pub AllSound : Reporter F → Type 0
    AllSound r = All IsSoundRequest r.client.sent

    on_table-AllSound :
        (method : Bool → ℕ → Table → Result StoreError (Unit {0}) × Table)
        → Keeps AllSound (on_table env method)
    unfolding on_table
    on_table-AllSound method = record { at = λ r h. h }

    mark_basic_info-AllSound : (uuid hash : String) → Keeps AllSound (mark_basic_info env uuid hash)
    unfolding mark_basic_info
    mark_basic_info-AllSound uuid hash = record { at = λ r h. h }

    register-AllSound : (name : String) → Keeps AllSound (on_server env (register env.server name))
    unfolding on_server register
    register-AllSound name = record { at = λ r h. (tt, h) }

    upload-AllSound :
        (token : String) (info : BasicInfo)
        → Keeps AllSound (on_server env (upload_basic_info env.server token info))
    unfolding on_server upload_basic_info
    upload-AllSound token info = record { at = λ r h. (tt, h) }

    send_report-AllSound :
        (token : String) (info : BasicInfo) (m : Report F)
        → IsReportable info m
        → Keeps AllSound (on_server env (send_report env.server token m))
    unfolding on_server send_report
    send_report-AllSound token info m sound = record { at = λ r h. ((info, sound), h) }

    ruleset step_rules = (
      keeps_rules, on_table-AllSound, mark_basic_info-AllSound, register-AllSound, upload-AllSound,
      send_report-AllSound,
    )

    store_binding-AllSound :
        (s : Snapshot F) (granted : String × String) → Keeps AllSound (store_binding env s granted)
    unfolding store_binding
    store_binding-AllSound s granted = search step_rules

    register_resource-AllSound : (s : Snapshot F) → Keeps AllSound (register_resource env s)
    unfolding register_resource
    register_resource-AllSound s = search (step_rules, store_binding-AllSound)

    or_register-AllSound :
        (s : Snapshot F) (b : Result StoreError Binding) → Keeps AllSound (or_register env s b)
    unfolding or_register
    or_register-AllSound s (ok b) = search step_rules
    or_register-AllSound s (err not_bound) = register_resource-AllSound s
    or_register-AllSound s (err _) = search step_rules

    current_binding-AllSound : (s : Snapshot F) → Keeps AllSound (current_binding env s)
    unfolding current_binding
    current_binding-AllSound s = record {
      at = λ r h.
          (or_register-AllSound s (binding (env.db_fails r.ticks) s.identity r.table)).at
            (record r { ticks = r.ticks + 1 }) h;
    }

    upload_changed-AllSound :
        (b : Binding) (info : BasicInfo) (hash : String)
        → Keeps AllSound (upload_changed env b info hash)
    unfolding upload_changed
    upload_changed-AllSound b info hash = search step_rules

    report_online-AllSound :
        (b : Binding) (s : Snapshot F)
        → IsReportable s.basic_info s.report
        → Keeps AllSound (report_online env b s)
    unfolding report_online
    report_online-AllSound b s sound = search (step_rules, upload_changed-AllSound)

    report_if_online-AllSound :
        (s : Snapshot F) (b : Binding)
        → (s.online ≡ true → IsReportable s.basic_info s.report)
        → Keeps AllSound (report_if_online env s b)
    unfolding report_if_online
    report_if_online-AllSound s b sound = elim (Bool-cases s.online) [
      | inl on ↦ rw on (report_online-AllSound b s (sound on))
      | inr off ↦ rw off (search step_rules)
    ]

    -- A snapshot whose payload is reportable, if it is online, adds no other report to the requests.
    pub process-AllSound :
        (s : Snapshot F)
        → (s.online ≡ true → IsReportable s.basic_info s.report)
        → Keeps AllSound (process env s)
    unfolding process
    process-AllSound s sound =
        search (
          step_rules,
          current_binding-AllSound,
          λ (b : Binding). report_if_online-AllSound s b sound,
        )
