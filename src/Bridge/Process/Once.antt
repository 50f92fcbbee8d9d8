-- ===== src/Bridge/Process/Once.antt =====
-- How often a resource is registered.
use komari_bridge.Base.{
  ◌≢◌, ℕ, ◌+◌, ◌≡◌, refl, Bool, true, false, List, [], ◌∷◌, String, Result, ok, err,
}
use komari_bridge.Base.Exec.{Keeps, keeps_rules}
use komari_bridge.Model.{Identity, Snapshot, Binding}
use komari_bridge.Store.{Table, StoreError, not_bound, observe, binding, mark_reported}
use komari_bridge.Komari.{Request, register_client, rpc_call, upload_basic_info, send_report}
use komari_bridge.Bridge.Process.{
  Report, report_if_online, BasicInfo, Env, Reporter, on_table, on_server, mark_basic_info,
  or_register, current_binding, upload_changed, report_online, process,
}
use komari_bridge.Bridge.Process.Bindings.{
  IsBound, process-HasClient, mark_reported-IsBound, observe-IsBound,
}

module _ {F : Type 0} (env : Env F) where
  -- How many clients have been registered.
  pub registrations : List (Request F) → ℕ
  registrations [] = 0
  registrations (register_client name ∷ sent) = registrations sent + 1
  registrations (rpc_call token id method ∷ sent) = registrations sent

  pub record IsSettled (i : Identity) (b : Binding) (n : ℕ) (r : Reporter F) : Type 0 where
    pub bound : IsBound env i b r
    pub count : registrations r.client.sent ≡ n

  module _ (i : Identity) (b : Binding) (n : ℕ) where
    rpc-IsSettled :
        (token : String) (info : BasicInfo)
        → Keeps (IsSettled i b n) (on_server env (upload_basic_info env.server token info))
    unfolding on_server upload_basic_info registrations
    rpc-IsSettled token info = record { at = λ r h. record { bound = h.bound; count = h.count } }

    send_report-IsSettled :
        (token : String) (m : Report F)
        → Keeps (IsSettled i b n) (on_server env (send_report env.server token m))
    unfolding on_server send_report registrations
    send_report-IsSettled token m = record {
      at = λ r h. record { bound = h.bound; count = h.count };
    }

    mark_basic_info-IsSettled :
        (uuid hash : String) → Keeps (IsSettled i b n) (mark_basic_info env uuid hash)
    unfolding mark_basic_info
    mark_basic_info-IsSettled uuid hash = record {
      at = λ r h. record { bound = h.bound; count = h.count };
    }

    mark_reported-IsSettled :
        (j : Identity)
        → Keeps (IsSettled i b n) (on_table env (λ fails now. mark_reported fails j now))
    unfolding on_table
    mark_reported-IsSettled j = record {
      at = λ r h. record {
        bound = (unfold on_table in (mark_reported-IsBound env i b j).at r h.bound);
        count = h.count;
      };
    }

    observe-IsSettled :
        (s : Snapshot F) → Keeps (IsSettled i b n) (on_table env (λ fails now. observe fails now s))
    unfolding on_table
    observe-IsSettled s = record {
      at = λ r h. record { bound = (observe-IsBound env i b s).at r h.bound; count = h.count };
    }

    ruleset settled_rules = (
      keeps_rules, rpc-IsSettled, send_report-IsSettled, mark_basic_info-IsSettled,
      mark_reported-IsSettled, observe-IsSettled,
    )

    upload_changed-IsSettled :
        (c : Binding) (info : BasicInfo) (hash : String)
        → Keeps (IsSettled i b n) (upload_changed env c info hash)
    unfolding upload_changed
    upload_changed-IsSettled c info hash = search settled_rules

    report_online-IsSettled :
        (c : Binding) (s : Snapshot F) → Keeps (IsSettled i b n) (report_online env c s)
    unfolding report_online
    report_online-IsSettled c s = search (settled_rules, upload_changed-IsSettled)

    report_if_online-IsSettled :
        (s : Snapshot F) (c : Binding) → Keeps (IsSettled i b n) (report_if_online env s c)
    unfolding report_if_online
    report_if_online-IsSettled s c = search (settled_rules, report_online-IsSettled)

  pub binding-ne-not_bound :
      (fails : Bool) (i : Identity) (t : Table) (b : Binding)
      → binding false i t ≡ ok b
      → binding fails i t ≢ err not_bound
  unfolding binding
  binding-ne-not_bound true i t b h e = cc
  binding-ne-not_bound false i t b h e = cc

  or_register-IsSettled :
      (s : Snapshot F) (found : Result StoreError Binding) (b : Binding) (n : ℕ)
      → found ≢ err not_bound
      → Keeps (IsSettled s.identity b n) (or_register env s found)
  unfolding or_register
  or_register-IsSettled s (ok b') b n known = record { at = λ r h. h }
  or_register-IsSettled s (err not_bound) b n known = absurd (known refl)
  or_register-IsSettled s (err _) b n known = record { at = λ r h. h }

  -- A resource that is bound is not registered, also where the driver fails.
  current_binding-IsSettled :
      (s : Snapshot F) (b : Binding) (n : ℕ)
      → Keeps (IsSettled s.identity b n) (current_binding env s)
  unfolding current_binding
  current_binding-IsSettled s b n = record {
    at = λ r h.
        (or_register-IsSettled s (binding (env.db_fails r.ticks) s.identity r.table) b n
            (binding-ne-not_bound (env.db_fails r.ticks) s.identity r.table b h.bound)).at
          (record r { ticks = r.ticks + 1 }) (record { bound = h.bound; count = h.count });
  }

  process-IsSettled :
      (s : Snapshot F) (b : Binding) (n : ℕ) → Keeps (IsSettled s.identity b n) (process env s)
  unfolding process
  process-IsSettled s b n =
      search (settled_rules, current_binding-IsSettled, report_if_online-IsSettled)

  -- Once `process` has returned without an error, it registers the resource no second time,
  -- whatever the later snapshot of the resource says and however the calls go.
  pub process_registers_once :
      (s later : Snapshot F) (r : Reporter F)
      → later.identity ≡ s.identity
      → (process env s r).0 ≡ ok tt
      → registrations (process env later (process env s r).1).1.client.sent
        ≡ registrations (process env s r).1.client.sent
  process_registers_once s later r same_resource h =
      let (b, bound) = process-HasClient env s r h in
      let start : IsSettled later.identity b _ (process env s r).1 = record {
        bound = rw same_resource bound;
        count = refl;
      } in
      ((process-IsSettled later b _).at _ start).count
