-- ===== src/Bridge/Process/Bindings.antt =====
-- The client of a resource: what `process` finds or registers is in the table afterwards.
use komari_bridge.Base.{◌∙◌, ap, ◌≡◌, refl, Bool, true, false, arith, String, Result, ok, err}
use komari_bridge.Base.Exec.{after_bind, ◌>>=◌, Keeps, keeps_rules}
use komari_bridge.Model.{Identity, Snapshot, Binding}
use komari_bridge.Store.{Table, StoreError, not_bound, observe, binding, bind, mark_reported}
use komari_bridge.Store.Keys.{same_iff}
use komari_bridge.Store.Bindings.{binding-bind, binding-observe, binding-mark_reported}
use komari_bridge.Komari.{register}
use komari_bridge.Bridge.Process.{
  report_if_online, store_binding, BasicInfo, Env, Reporter, on_table, on_server, mark_basic_info,
  register_resource, or_register, current_binding, upload_changed, report_online, process,
  display_name,
}

module _ {F : Type 0} (env : Env F) where
  -- The client that the table holds for an identity.
  abbrev pub IsBound : Identity → Binding → Reporter F → Type 0
  IsBound i b r = binding false i r.table ≡ ok b

  binding-ok :
      (fails : Bool) (i : Identity) (t : Table) (b : Binding)
      → binding fails i t ≡ ok b
      → binding false i t ≡ ok b
  unfolding binding
  binding-ok true i t b h = cc
  binding-ok false i t b h = h

  bind-succeeds :
      (fails : Bool) (b : Binding) (t : Table)
      → (bind fails b t).0 ≡ ok tt
      → bind fails b t ≡ bind false b t
  unfolding bind
  bind-succeeds true b t h = ground arith
  bind-succeeds false b t h = refl

  -- A binding that is stored is read back.
  bind-IsBound :
      (fails : Bool) (b : Binding) (t : Table)
      → (bind fails b t).0 ≡ ok tt
      → binding false b.identity (bind fails b t).1 ≡ ok b
  bind-IsBound fails b t h =
      let e = bind-succeeds fails b t h in
      rw e (
        ground
          (arith, binding-bind b b.identity t, same_iff b.identity b.identity, ap (λ p. p.0) e))

  store_binding-IsBound :
      (s : Snapshot F) (granted : String × String) (r : Reporter F) (b : Binding)
      → (store_binding env s granted r).0 ≡ ok b
      → IsBound s.identity b (store_binding env s granted r).1
  unfolding store_binding
  store_binding-IsBound s granted r b h =
      let wanted : Binding = record {
        identity = s.identity;
        komari_uuid = granted.0;
        token = granted.1;
      } in
      ground (arith, bind-IsBound (env.db_fails r.ticks) wanted r.table)

  register_resource-IsBound :
      (s : Snapshot F) (r : Reporter F) (b : Binding)
      → (register_resource env s r).0 ≡ ok b
      → IsBound s.identity b (register_resource env s r).1
  unfolding register_resource
  register_resource-IsBound s r b h =
      after_bind (IsBound s.identity b) (store_binding env s)
        (on_server env (register env.server (display_name s))) r
        (λ granted _ stored. store_binding-IsBound s granted _ b stored) h

  or_register-IsBound :
      (s : Snapshot F) (found : Result StoreError Binding) (r : Reporter F) (b : Binding)
      → ((b' : Binding) → found ≡ ok b' → IsBound s.identity b' r)
      → (or_register env s found r).0 ≡ ok b
      → IsBound s.identity b (or_register env s found r).1
  unfolding or_register
  or_register-IsBound s (ok b') r b known h = known b (ground arith)
  or_register-IsBound s (err not_bound) r b known h = register_resource-IsBound s r b h
  or_register-IsBound s (err _) r b known h = cc

  pub current_binding-IsBound :
      (s : Snapshot F) (r : Reporter F) (b : Binding)
      → (current_binding env s r).0 ≡ ok b
      → IsBound s.identity b (current_binding env s r).1
  unfolding current_binding
  current_binding-IsBound s r b h =
      or_register-IsBound s (binding (env.db_fails r.ticks) s.identity r.table) _ b
        (λ b' e. binding-ok (env.db_fails r.ticks) s.identity r.table b' e) h

  module _ (i : Identity) (b : Binding) where
    pub on_server-IsBound :
        {A : Type 0} (call : _) → Keeps (IsBound i b) (on_server env {A = A} call)
    unfolding on_server
    on_server-IsBound call = record { at = λ r h. h }

    pub mark_basic_info-IsBound :
        (uuid hash : String) → Keeps (IsBound i b) (mark_basic_info env uuid hash)
    unfolding mark_basic_info
    mark_basic_info-IsBound uuid hash = record { at = λ r h. h }

    pub mark_reported-IsBound :
        (j : Identity) → Keeps (IsBound i b) (on_table env (λ fails now. mark_reported fails j now))
    unfolding on_table
    mark_reported-IsBound j = record {
      at = λ r h. binding-mark_reported (env.db_fails r.ticks) j (env.clock r.ticks) i r.table ∙ h;
    }

    pub observe-IsBound :
        (s : Snapshot F) → Keeps (IsBound i b) (on_table env (λ fails now. observe fails now s))
    unfolding on_table
    observe-IsBound s = record {
      at = λ r h. binding-observe (env.db_fails r.ticks) (env.clock r.ticks) s i r.table ∙ h;
    }

    ruleset bound_rules = (
      keeps_rules, on_server-IsBound, mark_basic_info-IsBound, mark_reported-IsBound,
      observe-IsBound,
    )

    upload_changed-IsBound :
        (c : Binding) (info : BasicInfo) (hash : String)
        → Keeps (IsBound i b) (upload_changed env c info hash)
    unfolding upload_changed
    upload_changed-IsBound c info hash = search bound_rules

    pub report_online-IsBound :
        (c : Binding) (s : Snapshot F) → Keeps (IsBound i b) (report_online env c s)
    unfolding report_online
    report_online-IsBound c s = search (bound_rules, upload_changed-IsBound)

    pub report_if_online-IsBound :
        (s : Snapshot F) (c : Binding) → Keeps (IsBound i b) (report_if_online env s c)
    unfolding report_if_online
    report_if_online-IsBound s c = search (bound_rules, report_online-IsBound)

  -- Is the identity bound at all?
  abbrev pub HasClient : Identity → Reporter F → Type 0
  HasClient i r = (b : Binding) × IsBound i b r

  -- After a `process` that returns no error the resource has a client.
  pub process-HasClient :
      (s : Snapshot F) (r : Reporter F)
      → (process env s r).0 ≡ ok tt
      → HasClient s.identity (process env s r).1
  unfolding process
  process-HasClient s r h =
      after_bind (HasClient s.identity) (λ _. current_binding env s >>= report_if_online env s)
        (on_table env (λ fails now. observe fails now s)) r
        (λ _ _.
          after_bind (HasClient s.identity) (report_if_online env s) (current_binding env s) _
            (λ b found _. (
              b,
              (report_if_online-IsBound s.identity b s b).at _
                  (current_binding-IsBound s _ b found),
            )))
        h
