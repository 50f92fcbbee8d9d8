-- ===== src/Bridge/Process/Constraints.antt =====
-- `process` and the constraints of the table.
use komari_bridge.Base.{ℕ, ◌+◌, Bool, String, Result, ok, err}
use komari_bridge.Base.Exec.{Keeps, keeps_rules}
use komari_bridge.Model.{Identity, Snapshot, Binding}
use komari_bridge.Store.{Table, StoreError, not_bound, observe, binding, bind, mark_reported}
use komari_bridge.Store.Keys.{IsTable, observe-IsTable, bind-IsTable, mark_reported-IsTable}
use komari_bridge.Bridge.Process.{
  report_if_online, store_binding, BasicInfo, Env, Reporter, on_table, on_server, mark_basic_info,
  register_resource, or_register, current_binding, upload_changed, report_online, process,
}

module _ {F : Type 0} (env : Env F) where
  abbrev pub OnTable : Reporter F → Type 0
  OnTable r = IsTable r.table

  on_table-OnTable :
      (method : Bool → ℕ → Table → Result StoreError (Unit {0}) × Table)
      → ((fails : Bool) (now : ℕ) (t : Table) → IsTable t → IsTable (method fails now t).1)
      → Keeps OnTable (on_table env method)
  unfolding on_table
  on_table-OnTable method keeps = record {
    at = λ r h. keeps (env.db_fails r.ticks) (env.clock r.ticks) r.table h;
  }

  on_server-OnTable : {A : Type 0} (call : _) → Keeps OnTable (on_server env {A = A} call)
  unfolding on_server
  on_server-OnTable call = record { at = λ r h. h }

  mark_basic_info-OnTable : (uuid hash : String) → Keeps OnTable (mark_basic_info env uuid hash)
  unfolding mark_basic_info
  mark_basic_info-OnTable uuid hash = record { at = λ r h. h }

  bind-OnTable : (b : Binding) → Keeps OnTable (on_table env (λ fails now. bind fails b))
  bind-OnTable b =
      on_table-OnTable (λ fails now. bind fails b) (λ fails now t h. bind-IsTable fails b t h)

  observe-OnTable :
      (s : Snapshot F) → Keeps OnTable (on_table env (λ fails now. observe fails now s))
  observe-OnTable s =
      on_table-OnTable (λ fails now. observe fails now s)
        (λ fails now t h. observe-IsTable fails now s t h)

  mark_reported-OnTable :
      (i : Identity) → Keeps OnTable (on_table env (λ fails now. mark_reported fails i now))
  mark_reported-OnTable i =
      on_table-OnTable (λ fails now. mark_reported fails i now)
        (λ fails now t h. mark_reported-IsTable i now fails t h)

  ruleset table_rules = (
    keeps_rules, on_server-OnTable, mark_basic_info-OnTable, bind-OnTable, observe-OnTable,
    mark_reported-OnTable,
  )

  store_binding-OnTable :
      (s : Snapshot F) (granted : String × String) → Keeps OnTable (store_binding env s granted)
  unfolding store_binding
  store_binding-OnTable s granted = search table_rules

  register_resource-OnTable : (s : Snapshot F) → Keeps OnTable (register_resource env s)
  unfolding register_resource
  register_resource-OnTable s = search (table_rules, store_binding-OnTable)

  or_register-OnTable :
      (s : Snapshot F) (b : Result StoreError Binding) → Keeps OnTable (or_register env s b)
  unfolding or_register
  or_register-OnTable s (ok b) = search table_rules
  or_register-OnTable s (err not_bound) = register_resource-OnTable s
  or_register-OnTable s (err _) = search table_rules

  current_binding-OnTable : (s : Snapshot F) → Keeps OnTable (current_binding env s)
  unfolding current_binding
  current_binding-OnTable s = record {
    at = λ r h.
        (or_register-OnTable s (binding (env.db_fails r.ticks) s.identity r.table)).at
          (record r { ticks = r.ticks + 1 }) h;
  }

  upload_changed-OnTable :
      (b : Binding) (info : BasicInfo) (hash : String)
      → Keeps OnTable (upload_changed env b info hash)
  unfolding upload_changed
  upload_changed-OnTable b info hash = search table_rules

  report_online-OnTable : (b : Binding) (s : Snapshot F) → Keeps OnTable (report_online env b s)
  unfolding report_online
  report_online-OnTable b s = search (table_rules, upload_changed-OnTable)

  report_if_online-OnTable :
      (s : Snapshot F) (b : Binding) → Keeps OnTable (report_if_online env s b)
  unfolding report_if_online
  report_if_online-OnTable s b = search (table_rules, report_online-OnTable)

  -- Whatever the server and the driver answer, `process` keeps the table's constraints.
  pub process-OnTable : (s : Snapshot F) → Keeps OnTable (process env s)
  unfolding process
  process-OnTable s = search (table_rules, current_binding-OnTable, report_if_online-OnTable)
