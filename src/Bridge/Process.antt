-- ===== src/Bridge/Process.antt =====
-- internal/bridge/runner.go: `process`, which stores, registers and reports one snapshot.
pub mod Requests
pub mod Constraints
pub mod Bindings
pub mod Once
pub mod Delivery
pub mod Stable
use komari_bridge.Base.{
  ℕ, ◌+◌, String, ◌<>◌, ◌==◌, Bool, true, false, not, Option, none, some, if◌then◌else◌, Result, ok,
  err,
}
use komari_bridge.Base.Dict.{Dict, lookup, insert}
use komari_bridge.Base.Exec.{Exec, pure, raise, lift, gets, ◌>>=◌, ◌>>◌}
use komari_bridge.Model.{Identity, BasicInfo, Report, Snapshot, Binding}
use komari_bridge.Store.{Table, StoreError, not_bound, observe, binding, bind, mark_reported}
use komari_bridge.Komari.{Server, Client, ClientError, register, upload_basic_info, send_report}

pub data ProcessError : Type 0 where
  store_error : StoreError → ProcessError
  client_error : ClientError → ProcessError
  encode_failed : ProcessError

-- What the runner does not decide: the clock and the driver's failures, at each access in turn, the
-- server's replies, and `json.Marshal` and `sha256.Sum256`.
pub record Env (F : Type 0) : Type 0 where
  pub clock : ℕ → ℕ
  pub db_fails : ℕ → Bool
  pub server : Server F
  pub encode : BasicInfo → Option String
  pub digest : String → String

-- The parts of the runner that `process` changes, and the number of accesses so far.
pub record Reporter (F : Type 0) : Type 0 where
  pub table : Table
  pub client : Client F
  pub hashes : Dict String
  pub ticks : ℕ

abbrev pub on_store : {A : Type 0} → Result StoreError A → Result ProcessError A
on_store (ok a) = ok a
on_store (err e) = err (store_error e)

abbrev pub on_client : {A : Type 0} → Result ClientError A → Result ProcessError A
on_client (ok a) = ok a
on_client (err e) = err (client_error e)

-- The name that a resource is registered under.
abbrev pub display_name : {F : Type 0} → Snapshot F → String
display_name s = if s.group == "" then s.name else s.group <> " / " <> s.name

module _ {F : Type 0} (env : Env F) where
  abbrev pub Step : Type 0 → Type 0
  Step A = Exec (Reporter F) ProcessError A

  abbrev tick : Reporter F → Reporter F
  tick r = record r { ticks = r.ticks + 1 }

  -- A store method that writes, and one client call.
  unfoldable pub on_table :
      (Bool → ℕ → Table → Result StoreError (Unit {0}) × Table) → Step (Unit {0})
  on_table method r =
      let done = method (env.db_fails r.ticks) (env.clock r.ticks) r.table in
      (on_store done.0, record r { table = done.1; ticks = r.ticks + 1 })

  unfoldable pub on_server : {A : Type 0} → (Client F → Result ClientError A × Client F) → Step A
  on_server call r = let done = call r.client in (on_client done.0, record r { client = done.1 })

  unfoldable pub store_binding : Snapshot F → String × String → Step Binding
  unfolding on_table
  store_binding s granted = do
    let b : Binding = record { identity = s.identity; komari_uuid = granted.0; token = granted.1 }
    on_table (λ fails now. bind fails b)
    pure b

  unfoldable pub register_resource : Snapshot F → Step Binding
  unfolding store_binding on_server
  register_resource s = do
    granted ← on_server (register env.server (display_name s))
    store_binding s granted

  -- `ErrNotBound` leads to a registration; another error is returned.
  unfoldable pub or_register : Snapshot F → Result StoreError Binding → Step Binding
  unfolding register_resource
  or_register s (ok b) = pure b
  or_register s (err not_bound) = register_resource s
  or_register s (err e) = raise (store_error e)

  unfoldable pub current_binding : Snapshot F → Step Binding
  unfolding or_register
  current_binding s r =
      or_register s (binding (env.db_fails r.ticks) s.identity r.table)
        (record r { ticks = r.ticks + 1 })

  -- `hashBasicInfo`, `isCurrentBasicInfo` and `markBasicInfo`.
  unfoldable pub hash_basic_info : BasicInfo → Result ProcessError String
  hash_basic_info info = elim (env.encode info) [
    | none ↦ err encode_failed
    | some payload ↦ ok (env.digest payload)
  ]

  abbrev pub is_current : String → String → Reporter F → Bool
  is_current uuid hash r = elim (lookup uuid r.hashes) [ none ↦ false | some h ↦ h == hash ]

  unfoldable pub mark_basic_info : String → String → Step (Unit {0})
  mark_basic_info uuid hash r = (ok tt, record r { hashes = insert uuid hash r.hashes })

  unfoldable pub upload_changed : Binding → BasicInfo → String → Step (Unit {0})
  unfolding on_server mark_basic_info
  upload_changed b info hash = do
    known ← gets (is_current b.komari_uuid hash)
    if known then pure tt else do
      on_server (upload_basic_info env.server b.token info)
      mark_basic_info b.komari_uuid hash

  unfoldable pub report_online : Binding → Snapshot F → Step (Unit {0})
  unfolding upload_changed hash_basic_info on_table
  report_online b s = do
    hash ← lift (hash_basic_info s.basic_info)
    upload_changed b s.basic_info hash
    on_server (send_report env.server b.token s.report)
    on_table (λ fails now. mark_reported fails s.identity now)

  -- An offline resource is registered, and no more.
  unfoldable pub report_if_online : Snapshot F → Binding → Step (Unit {0})
  unfolding report_online
  report_if_online s b = if not s.online then pure tt else report_online b s

  unfoldable pub process : Snapshot F → Step (Unit {0})
  unfolding current_binding report_if_online on_table
  process s = do
    on_table (λ fails now. observe fails now s)
    b ← current_binding s
    report_if_online s b
