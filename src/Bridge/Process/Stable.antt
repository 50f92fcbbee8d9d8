-- ===== src/Bridge/Process/Stable.antt =====
-- What no `process`, of whichever snapshot and however its calls go, takes back.
use komari_bridge.Base.{
  ◌+◌, ℕ, ◌≡◌, ◌≢◌, refl, ap, ◌⊎◌, inl, inr, Bool, Bool-cases, false, List, ◌∷◌, ◌++◌, String,
  Result, ok, err,
}
use mathlib.Core.Path.{subst}
use komari_bridge.Base.Exec.{Keeps, keeps_rules}
use komari_bridge.Model.{Identity, BasicInfo, Report, Snapshot, Binding}
use komari_bridge.Store.{Table, StoreError, not_bound, same, binding, bind}
use komari_bridge.Store.Keys.{same_iff}
use komari_bridge.Store.Bindings.{binding-bind_other}
use komari_bridge.Komari.{Request, register, upload_basic_info, send_report}
use komari_bridge.Bridge.Process.{
  Env, Reporter, on_table, on_server, store_binding, mark_basic_info, register_resource,
  or_register, current_binding, upload_changed, report_online, report_if_online, process,
}
use komari_bridge.Bridge.Process.Bindings.{
  IsBound, on_server-IsBound, observe-IsBound, report_if_online-IsBound,
}
use komari_bridge.Bridge.Process.Once.{binding-ne-not_bound}

module _ {F : Type 0} (env : Env F) (i : Identity) (b : Binding) where
  bind_other-IsBound :
      (c : Binding)
      → same i c.identity ≡ false
      → Keeps (IsBound env i b) (on_table env (λ fails now. bind fails c))
  unfolding on_table
  bind_other-IsBound c other = record {
    at = λ r h. rw (binding-bind_other (env.db_fails r.ticks) c i r.table other) h;
  }

  register_other-IsBound :
      (s : Snapshot F)
      → same i s.identity ≡ false
      → Keeps (IsBound env i b) (register_resource env s)
  unfolding register_resource store_binding
  register_other-IsBound s other = search (
    keeps_rules,
    on_server-IsBound env i b,
    λ (granted : String × String).
        bind_other-IsBound
          (record { identity = s.identity; komari_uuid = granted.0; token = granted.1 }) other,
  )

  or_register-IsBound :
      (s : Snapshot F) (found : Result StoreError Binding)
      → (found ≢ err not_bound) ⊎ (same i s.identity ≡ false)
      → Keeps (IsBound env i b) (or_register env s found)
  unfolding or_register
  or_register-IsBound s (ok c) known = record { at = λ r h. h }
  or_register-IsBound s (err not_bound) (inl known) = absurd (known refl)
  or_register-IsBound s (err not_bound) (inr other) = register_other-IsBound s other
  or_register-IsBound s (err _) known = record { at = λ r h. h }

  current_binding-IsBound : (s : Snapshot F) → Keeps (IsBound env i b) (current_binding env s)
  unfolding current_binding
  current_binding-IsBound s = record {
    at = λ r h.
        (or_register-IsBound s (binding (env.db_fails r.ticks) s.identity r.table)
            (elim (Bool-cases (same i s.identity)) [
              | inl is_same ↦ inl (
                  subst (λ j. binding (env.db_fails r.ticks) j r.table ≢ err not_bound)
                    ((same_iff i s.identity).0 is_same)
                    (binding-ne-not_bound env (env.db_fails r.ticks) i r.table b h))
              | inr other ↦ inr other
            ])).at
          (record r { ticks = r.ticks + 1 }) h;
  }

  -- A client that a resource has once got is its client after any later `process`, of this resource
  -- or of another one, whichever of its calls fail: neither its UUID nor its token ever changes.
  pub process-IsBound : (s : Snapshot F) → Keeps (IsBound env i b) (process env s)
  unfolding process
  process-IsBound s = search (
    keeps_rules,
    observe-IsBound env i b,
    current_binding-IsBound,
    λ (c : Binding). report_if_online-IsBound env i b s c,
  )

-- The request is among those that were sent.
pub record HasSent {F : Type 0} (q : Request F) (r : Reporter F) : Type 0 where
  pub later : List (Request F)
  pub earlier : List (Request F)
  pub here : r.client.sent ≡ later ++ q ∷ earlier

module _ {F : Type 0} (env : Env F) (q : Request F) where
  one_more :
      (p : Request F) (r r' : Reporter F)
      → r'.client.sent ≡ p ∷ r.client.sent
      → HasSent q r
      → HasSent q r'
  one_more p r r' e h = record {
    later = p ∷ h.later;
    earlier = h.earlier;
    here = rw e (ap (λ (sent : List (Request F)). p ∷ sent) h.here);
  }

  same_sent : (r r' : Reporter F) → r'.client.sent ≡ r.client.sent → HasSent q r → HasSent q r'
  same_sent r r' e h = record { later = h.later; earlier = h.earlier; here = rw e h.here }

  on_table-HasSent :
      (method : Bool → ℕ → Table → Result StoreError (Unit {0}) × Table)
      → Keeps (HasSent q) (on_table env method)
  unfolding on_table
  on_table-HasSent method = record { at = λ r h. same_sent r _ refl h }

  mark_basic_info-HasSent : (uuid hash : String) → Keeps (HasSent q) (mark_basic_info env uuid hash)
  unfolding mark_basic_info
  mark_basic_info-HasSent uuid hash = record { at = λ r h. same_sent r _ refl h }

  register-HasSent : (name : String) → Keeps (HasSent q) (on_server env (register env.server name))
  unfolding on_server register
  register-HasSent name = record { at = λ r h. one_more _ r _ refl h }

  upload-HasSent :
      (token : String) (info : BasicInfo)
      → Keeps (HasSent q) (on_server env (upload_basic_info env.server token info))
  unfolding on_server upload_basic_info
  upload-HasSent token info = record { at = λ r h. one_more _ r _ refl h }

  send_report-HasSent :
      (token : String) (m : Report F)
      → Keeps (HasSent q) (on_server env (send_report env.server token m))
  unfolding on_server send_report
  send_report-HasSent token m = record { at = λ r h. one_more _ r _ refl h }

  ruleset sent_rules = (
    keeps_rules, on_table-HasSent, mark_basic_info-HasSent, register-HasSent, upload-HasSent,
    send_report-HasSent,
  )

  register_resource-HasSent : (s : Snapshot F) → Keeps (HasSent q) (register_resource env s)
  unfolding register_resource store_binding
  register_resource-HasSent s = search sent_rules

  or_register-HasSent :
      (s : Snapshot F) (found : Result StoreError Binding)
      → Keeps (HasSent q) (or_register env s found)
  unfolding or_register
  or_register-HasSent s (ok c) = search sent_rules
  or_register-HasSent s (err not_bound) = register_resource-HasSent s
  or_register-HasSent s (err _) = search sent_rules

  current_binding-HasSent : (s : Snapshot F) → Keeps (HasSent q) (current_binding env s)
  unfolding current_binding
  current_binding-HasSent s = record {
    at = λ r h.
        (or_register-HasSent s (binding (env.db_fails r.ticks) s.identity r.table)).at
          (record r { ticks = r.ticks + 1 }) (same_sent r _ refl h);
  }

  upload_changed-HasSent :
      (c : Binding) (info : BasicInfo) (hash : String)
      → Keeps (HasSent q) (upload_changed env c info hash)
  unfolding upload_changed
  upload_changed-HasSent c info hash = search sent_rules

  report_online-HasSent : (c : Binding) (s : Snapshot F) → Keeps (HasSent q) (report_online env c s)
  unfolding report_online
  report_online-HasSent c s = search (sent_rules, upload_changed-HasSent)

  report_if_online-HasSent :
      (s : Snapshot F) (c : Binding) → Keeps (HasSent q) (report_if_online env s c)
  unfolding report_if_online
  report_if_online-HasSent s c = search (sent_rules, report_online-HasSent)

  pub process-HasSent : (s : Snapshot F) → Keeps (HasSent q) (process env s)
  unfolding process
  process-HasSent s =
      search (sent_rules, current_binding-HasSent, λ (c : Binding). report_if_online-HasSent s c)
