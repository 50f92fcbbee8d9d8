-- ===== src/Bridge/Cycle/Isolation.antt =====
-- What a provider that fails does to a cycle.
use komari_bridge.Base.{
  false, ℕ, ◌+◌, ◌≡◌, refl, sym, ap, ◌∙◌, String, Bool, none, List, [], ◌∷◌, ◌++◌, map, ok, err,
  arith,
}
use komari_bridge.Base.Floats.{Float64}
use komari_bridge.Buildinfo.{Build}
use komari_bridge.Model.{Snapshot}
use komari_bridge.Bridge.Validate.{Check}
use komari_bridge.Bridge.Gather.{
  Collected, Gathered, put_merged, apply_authority, apply_authorities, gather_authoritative,
  gather_snapshot, gather_snapshots, gather_provider, gather,
}
use komari_bridge.Bridge.Process.{Env}
use komari_bridge.Bridge.Cycle.{Runner, submit_all, to_submit, gathered, cycle}

module _ {F : Type 0} where
  -- All but the errors.
  abbrev silent : Gathered F → Gathered F
  silent g = record g { errors = [] }

  -- What `step` does to the rest does not depend on the errors.
  abbrev IsQuiet : (Gathered F → Gathered F) → Type 0
  IsQuiet step = (g : Gathered F) → silent (step g) ≡ silent (step (silent g))

  then-IsQuiet :
      (first second : Gathered F → Gathered F)
      → IsQuiet first
      → IsQuiet second
      → IsQuiet (λ g. second (first g))
  then-IsQuiet first second qf qs g = rw (qs (first g), qf g, ← qs (first (silent g))) refl

  put_merged-IsQuiet : (own : Bool) (key : String) (s : Snapshot F) → IsQuiet (put_merged own key s)
  unfolding put_merged
  put_merged-IsQuiet own key s g = ground arith

  apply_authority-IsQuiet : (now : ℕ) (key : String) → IsQuiet (apply_authority now key)
  unfolding apply_authority
  apply_authority-IsQuiet now key g = grind (arith, put_merged-IsQuiet)

  apply_authorities-IsQuiet : (now : ℕ) (keys : List String) → IsQuiet (apply_authorities now keys)
  unfolding apply_authorities
  apply_authorities-IsQuiet now [] g = refl
  apply_authorities-IsQuiet now (key ∷ keys) g =
      then-IsQuiet (apply_authority now key) (apply_authorities now keys)
        (apply_authority-IsQuiet now key) (apply_authorities-IsQuiet now keys) g

module _ {F : Type 0} ⦃fl : Float64 F⦄ (clock : ℕ → ℕ) where
  gather_authoritative-IsQuiet :
      (p : Collected F) (key : String) (s : Snapshot F) (v : Check)
      → IsQuiet (gather_authoritative clock p key s v)
  unfolding gather_authoritative
  gather_authoritative-IsQuiet p key s (err e) g = refl
  gather_authoritative-IsQuiet p key s (ok _) g = put_merged-IsQuiet _ _ _ _

  gather_snapshot-IsQuiet : (p : Collected F) (s : Snapshot F) → IsQuiet (gather_snapshot clock p s)
  unfolding gather_snapshot
  gather_snapshot-IsQuiet p s g = grind (arith, put_merged-IsQuiet, gather_authoritative-IsQuiet)

  gather_snapshots-IsQuiet :
      (p : Collected F) (ss : List (Snapshot F)) → IsQuiet (gather_snapshots clock p ss)
  unfolding gather_snapshots
  gather_snapshots-IsQuiet p [] g = refl
  gather_snapshots-IsQuiet p (s ∷ ss) g =
      then-IsQuiet (gather_snapshot clock p s) (gather_snapshots clock p ss)
        (gather_snapshot-IsQuiet p s) (gather_snapshots-IsQuiet p ss) g

  gather_provider-IsQuiet : (p : Collected F) → IsQuiet (gather_provider clock p)
  unfolding gather_provider
  gather_provider-IsQuiet p g = grind (arith, gather_snapshots-IsQuiet)

  gather-IsQuiet : (ps : List (Collected F)) → IsQuiet (gather clock ps)
  unfolding gather
  gather-IsQuiet [] g = refl
  gather-IsQuiet (p ∷ ps) g =
      then-IsQuiet (gather_provider clock p) (gather clock ps) (gather_provider-IsQuiet p)
        (gather-IsQuiet ps) g

  silent-gather_provider :
      (p : Collected F) (g : Gathered F)
      → p.snapshots ≡ none
      → silent (gather_provider clock p g) ≡ silent g
  unfolding gather_provider
  silent-gather_provider p g failed = rw failed refl

  gather-failed :
      (ps : List (Collected F)) (p : Collected F) (qs : List (Collected F)) (g : Gathered F)
      → p.snapshots ≡ none
      → silent (gather clock (ps ++ p ∷ qs) g) ≡ silent (gather clock (ps ++ qs) g)
  unfolding gather
  gather-failed [] p qs g failed =
      rw
        (
          gather-IsQuiet qs (gather_provider clock p g),
          silent-gather_provider p g failed,
          ← gather-IsQuiet qs g,
        )
        refl
  gather-failed (p' ∷ ps) p qs g failed = gather-failed ps p qs (gather_provider clock p' g) failed

module _ {F : Type 0} ⦃fl : Float64 F⦄ (env : Env F) (build : Build) where
  -- The cycle behind the gathering.
  abbrev finish :
      (List (Snapshot F) → List (Snapshot F)) → List String → Runner F → Gathered F → Runner F
  finish order authorities r g =
      let a =
        apply_authorities (env.clock g.ticks) authorities (record g { ticks = g.ticks + 1 }) in
      record {
        reporter =
            (submit_all env build (to_submit env build order a.merged)
              (record r.reporter { ticks = a.ticks })).1;
        cache = a.cache;
      }

  finish-silent :
      (order : _) (authorities : List String) (r : Runner F) (g : Gathered F)
      → finish order authorities r g ≡ finish order authorities r (silent g)
  finish-silent order authorities r g =
      ap
        (λ (a : Gathered F). record {
          reporter =
              (submit_all env build (to_submit env build order a.merged)
                (record r.reporter { ticks = a.ticks })).1;
          cache = a.cache;
        })
        (apply_authorities-IsQuiet (env.clock g.ticks) authorities
          (record g { ticks = g.ticks + 1 }))

  -- A provider that fails to collect changes nothing but the errors of the cycle: the requests, the
  -- table, the known basic infos and the cached snapshots are those of the cycle without it,
  -- wherever it stands among the providers.
  pub cycle-failed :
      (order : List (Snapshot F) → List (Snapshot F)) (authorities : List String)
      (ps : List (Collected F)) (p : Collected F) (qs : List (Collected F)) (r : Runner F)
      → p.snapshots ≡ none
      → (cycle env build order authorities (ps ++ p ∷ qs) r).1
        ≡ (cycle env build order authorities (ps ++ qs) r).1
  unfolding cycle gathered
  cycle-failed order authorities ps p qs r failed =
      let finish = finish order authorities r in
      let start : Gathered F = record {
        merged = [];
        cache = map (λ (key, c). (key, record c { aliased = false })) r.cache;
        errors = [];
        ticks = r.reporter.ticks;
      } in
      finish-silent order authorities r (gather env.clock (ps ++ p ∷ qs) start)
      ∙ ap finish (gather-failed env.clock ps p qs start failed)
      ∙ sym (finish-silent order authorities r (gather env.clock (ps ++ qs) start))
