-- ===== src/Bridge/Process/Delivery.antt =====
-- What a `process` without an error has delivered.
use mathlib.Core.Path.{subst}
use text.Mathlib.TextPositions.{eq_refl}
use komari_bridge.Base.Text.{itoa_ℕ}
use komari_bridge.Base.Words.{two64}
use komari_bridge.Base.{
  ◌%◌, ◌+◌, sym, ap, ◌∙◌, Result, ◌<>◌, ◌≡◌, refl, true, List, ◌∷◌, arith, String, ok,
}
use komari_bridge.Base.Dict.{lookup-insert}
use komari_bridge.Base.Exec.{◌>>=◌, ◌>>◌, lift, after_bind}
use komari_bridge.Model.{BasicInfo, Snapshot, Binding}
use komari_bridge.Store.{observe, mark_reported}
use komari_bridge.Komari.{Request, rpc_call, report, send_report}
use komari_bridge.Bridge.Process.{
  Env, Reporter, on_table, on_server, current_binding, hash_basic_info, is_current, upload_changed,
  report_online, report_if_online, process, Step, ProcessError,
}
use komari_bridge.Bridge.Process.Bindings.{
  IsBound, current_binding-IsBound, report_if_online-IsBound,
}

module _ {F : Type 0} (env : Env F) where
  -- The last request carries the report under the binding's token, and the basic info that the
  -- server last accepted for the client is the snapshot's.
  pub record IsDelivered (b : Binding) (s : Snapshot F) (r : Reporter F) : Type 0 where
    pub hash : String
    pub hashed : hash_basic_info env s.basic_info ≡ ok hash
    pub current : is_current env b.komari_uuid hash r ≡ true
    pub id : String
    pub earlier : List (Request F)
    pub last : r.client.sent ≡ rpc_call b.token id (report s.report) ∷ earlier

  upload_changed-is_current :
      (b : Binding) (info : BasicInfo) (hash : String) (r : Reporter F)
      → (upload_changed env b info hash r).0 ≡ ok tt
      → is_current env b.komari_uuid hash (upload_changed env b info hash r).1 ≡ true
  unfolding upload_changed
  upload_changed-is_current b info hash r h = ground (
    arith,
    lookup-insert b.komari_uuid b.komari_uuid hash r.hashes,
    eq_refl b.komari_uuid,
    eq_refl hash,
  )

  -- The report and its mark, once the basic info is current.
  send-IsDelivered :
      (b : Binding) (s : Snapshot F) (hash : String) (r : Reporter F)
      → hash_basic_info env s.basic_info ≡ ok hash
      → is_current env b.komari_uuid hash r ≡ true
      → ((on_server env (send_report env.server b.token s.report)
            >> on_table env (λ fails now. mark_reported fails s.identity now))
          r).0
        ≡ ok tt
      → IsDelivered b s
          ((on_server env (send_report env.server b.token s.report)
              >> on_table env (λ fails now. mark_reported fails s.identity now))
            r).1
  unfolding on_server on_table send_report
  send-IsDelivered b s hash r hashed current h =
      after_bind (IsDelivered b s) _ (on_server env (send_report env.server b.token s.report)) r
        (λ _ _ _. record {
          hash = hash;
          hashed = hashed;
          current = current;
          id = "bridge-" <> itoa_ℕ ((r.client.seq + 1) % two64);
          earlier = r.client.sent;
          last = refl;
        })
        h

  report_online-IsDelivered :
      (b : Binding) (s : Snapshot F) (r : Reporter F)
      → (report_online env b s r).0 ≡ ok tt
      → IsDelivered b s (report_online env b s r).1
  unfolding report_online
  report_online-IsDelivered b s r h =
      after_bind (IsDelivered b s) _ (lift (hash_basic_info env s.basic_info)) r
        (λ hash hashed.
          after_bind (IsDelivered b s) _ (upload_changed env b s.basic_info hash) r
            (λ _ uploaded sent.
              send-IsDelivered b s hash _ hashed
                (upload_changed-is_current b s.basic_info hash r uploaded) sent))
        h

  report_if_online-eq :
      (s : Snapshot F) (b : Binding)
      → s.online ≡ true
      → report_if_online env s b ≡ report_online env b s
  unfolding report_if_online
  report_if_online-eq s b online = simp online

  report_if_online-IsDelivered :
      (b : Binding) (s : Snapshot F) (r : Reporter F)
      → s.online ≡ true
      → (report_if_online env s b r).0 ≡ ok tt
      → IsDelivered b s (report_if_online env s b r).1
  report_if_online-IsDelivered b s r online h =
      let e = ap (λ (step : Step env (Unit {0})). step r) (report_if_online-eq s b online) in
      subst (λ (p : Result ProcessError (Unit {0}) × Reporter F). IsDelivered b s p.1) (sym e)
        (report_online-IsDelivered b s r
          (sym (ap (λ (p : Result ProcessError (Unit {0}) × Reporter F). p.0) e) ∙ h))

  abbrev pub IsServed : Snapshot F → Reporter F → Type 0
  IsServed s r = (b : Binding) × IsBound env s.identity b r × IsDelivered b s r

  -- After a `process` of an online snapshot that returns no error, the resource has a client, the
  -- last request is the snapshot's report with that client's token, and the hash of the basic info that
  -- the runner has marked as accepted for the client is the hash of the snapshot's.
  pub process-IsServed :
      (s : Snapshot F) (r : Reporter F)
      → s.online ≡ true
      → (process env s r).0 ≡ ok tt
      → IsServed s (process env s r).1
  unfolding process
  process-IsServed s r online h =
      after_bind (IsServed s) (λ _. current_binding env s >>= report_if_online env s)
        (on_table env (λ fails now. observe fails now s)) r
        (λ _ _.
          after_bind (IsServed s) (report_if_online env s) (current_binding env s) _
            (λ b found reported. (
              b,
              (report_if_online-IsBound env s.identity b s b).at _
                  (current_binding-IsBound env s _ b found),
              report_if_online-IsDelivered b s _ online reported,
            )))
        h
