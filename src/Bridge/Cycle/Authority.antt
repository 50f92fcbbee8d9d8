-- ===== src/Bridge/Cycle/Authority.antt =====
-- The owners of metrics in a whole cycle.
use komari_bridge.Base.{
  Option-cases, ◌+◌, ◌<◌, ◌≤◌, ◌≡◌, String, Bool-cases, inl, inr, not, ◌&&◌, true, false, none,
  some, List, [], ◌∷◌, map, arith, refl, ap, ℕ, ◌==◌, Option, length,
}
use komari_bridge.Base.Time.{is_older, minute}
use komari_bridge.Bridge.Gather.{
  apply_authority, apply_authorities, Cached, Collected, Gathered, target_keys, gather,
}
use komari_bridge.Bridge.Gather.Saved.{
  put_merged-Holds, Saved, saved_of, Holds, IsLike, said, last_said,
}
use komari_bridge.Base.Int.{◌≤ℤ◌}
use komari_bridge.Base.Dict.{lookup, member, Dict}
use komari_bridge.Base.Floats.{Float64}
use komari_bridge.Buildinfo.{Build}
use komari_bridge.Model.{Identity, valid, Snapshot}
use komari_bridge.Bridge.Merge.{resource_key}
use komari_bridge.Bridge.Merge.Laws.{IsPayload}
use komari_bridge.Bridge.Gather.Owners.{gather-IsSaved}
use mathlib.Core.Option
use mathlib.Core.Path.{subst}
use komari_bridge.Bridge.Gather.Authority.{Once, authority_silences, authority_decides}
use komari_bridge.Bridge.Process.{Env}
use komari_bridge.Bridge.Cycle.{Runner, concat, authoritative_targets, gathered}

pub target_keys-Once : (targets : List Identity) → Once (target_keys targets)
unfolding target_keys
target_keys-Once [] = tt
target_keys-Once (i ∷ targets) =
    let key = resource_key i in
    let rest = target_keys targets in
    elim (Bool-cases (valid i && not (member key rest))) [
      | inl added ↦ rw added (ground arith, target_keys-Once targets)
      | inr skipped ↦ rw skipped (target_keys-Once targets)
    ]

targets-Once : (targets : List (List Identity)) → Once (authoritative_targets targets)
unfolding authoritative_targets
targets-Once targets = target_keys-Once (concat targets)

module _ {F : Type 0} where
  stale_entry :
      (o : Option (Cached F)) (e : Saved F) (now : ℕ)
      → Holds o e
      → ((s : Snapshot F) (at : ℕ) → e ≡ some (s, at) → at + minute < now)
      → (c : Cached F) → o ≡ some c
      → c.saved_at + minute < now
  stale_entry none e now h stale c same = cc
  stale_entry (some d) none now h stale c same = elim h [ ]
  stale_entry (some d) (some (s, at)) now (time, like) stale c same =
      let t : c.saved_at ≡ at = cc in rw t (stale s at refl)

  -- The authorities leave what is saved.
  apply_authority-Holds :
      (now : ℕ) (k key : String) (g : Gathered F) (e : Saved F)
      → Holds (lookup key g.cache) e
      → Holds (lookup key (apply_authority now k g).cache) e
  unfolding apply_authority
  apply_authority-Holds now k key g e h = elim (Option-cases (lookup k g.cache)) [
    | inl n ↦ rw (n, apply_authority) h
    | inr (c, y) ↦ elim (Bool-cases (is_older now c.saved_at minute)) [
      | inl old ↦ rw (y, old, apply_authority) h
      | inr young ↦ rw (y, young, apply_authority) (put_merged-Holds true k key c.snapshot g e h)
    ]
  ]

  apply_authorities-Holds :
      (now : ℕ) (keys : List String) (key : String) (g : Gathered F) (e : Saved F)
      → Holds (lookup key g.cache) e
      → Holds (lookup key (apply_authorities now keys g).cache) e
  unfolding apply_authorities
  apply_authorities-Holds now [] key g e h = h
  apply_authorities-Holds now (k ∷ keys) key g e h =
      apply_authorities-Holds now keys key (apply_authority now k g) e
        (apply_authority-Holds now k key g e h)

  -- The entry of the cache that holds a snapshot.
  record Entry (o : Option (Cached F)) (s : Snapshot F) (at : ℕ) : Type 0 where
    cached : Cached F
    here : o ≡ some cached
    time : cached.saved_at ≡ at
    like : IsLike s cached.snapshot

  cache-Entry :
      (o : Option (Cached F)) (s : Snapshot F) (at : ℕ) → Holds o (some (s, at)) → Entry o s at
  cache-Entry none s at h = elim h [ ]
  cache-Entry (some c) s at h = record { cached = c; here = refl; time = h.0; like = h.1 }

  like-IsPayload : (s t m : Snapshot F) → IsLike s t → IsPayload t m → IsPayload s m
  like-IsPayload s t m like h =
      let p : IsPayload (record s { tags = t.tags }) m =
        subst (λ (u : Snapshot F). IsPayload u m) like h in
      record {
        report = p.report;
        online = p.online;
        collected_at = p.collected_at;
        priority = p.priority;
        memory_total = p.memory_total;
        swap_total = p.swap_total;
        disk_total = p.disk_total;
        os = p.os;
        cpu_name = p.cpu_name;
      }

module _ {F : Type 0} ⦃fl : Float64 F⦄ (env : Env F) where
  -- What is merged and cached after the last provider, before the authorities are applied.
  abbrev pub merged_first : List (Collected F) → Runner F → Gathered F
  merged_first collected r = gather env.clock collected (record {
    merged = [];
    cache = map (λ (key, c). (key, record c { aliased = false })) r.cache;
    errors = [];
    ticks = r.reporter.ticks;
  })

  -- The last valid snapshot that the owners of a resource's metrics tell of it in this cycle, or else
  -- the one that the runner has saved, with the time it was saved at.
  abbrev pub last_word : List (Collected F) → Runner F → String → Saved F
  last_word collected r key =
      last_said env.clock key r.reporter.ticks (Option.map saved_of (lookup key r.cache))
        (said collected)

  -- The time when the authorities are applied: each snapshot that was saved has read the clock once.
  abbrev pub decided_at : List (Collected F) → Runner F → ℕ
  decided_at collected r = env.clock (r.reporter.ticks + length (said collected))

  first-Holds :
      (cache : Dict (Cached F)) (key : String)
      → Holds
          (lookup key (map (λ (k, c). (k, record c { aliased = false })) cache))
          (Option.map saved_of (lookup key cache))
  unfolding lookup
  first-Holds [] key = tt
  first-Holds ((k, c) ∷ cache) key = elim (Bool-cases (k == key)) [
    | inl same ↦ rw same (refl, refl)
    | inr other ↦ rw other (first-Holds cache key)
  ]

  merged_first-IsSaved :
      (collected : List (Collected F)) (r : Runner F) (key : String)
      → Holds (lookup key (merged_first collected r).cache) (last_word collected r key)
        × ((merged_first collected r).ticks ≡ r.reporter.ticks + length (said collected))
  merged_first-IsSaved collected r key =
      let h =
        gather-IsSaved env.clock key collected
          (record {
            merged = [];
            cache = map (λ (k, c). (k, record c { aliased = false })) r.cache;
            errors = [];
            ticks = r.reporter.ticks;
          })
          (Option.map saved_of (lookup key r.cache)) (first-Holds r.cache key) in
      (h.holds, h.ticks)

  module _ (build : Build) (targets : List (List Identity)) (collected : List (Collected F))
      (r : Runner F) (key : String)
      (target : member key (authoritative_targets targets) ≡ true) where
    -- In every cycle, whatever the providers of the hypervisor say, a resource whose metrics a provider
    -- owns is not among the merged snapshots if the last valid snapshot of its owner, which is the last
    -- one of this cycle or else the one that the runner had saved, was saved more than a minute before
    -- the authorities are applied, or there is none.
    pub cycle_silences :
        ((s : Snapshot F) (at : ℕ)
          → last_word collected r key ≡ some (s, at)
          → at + minute < decided_at collected r)
        → lookup key (gathered env build (authoritative_targets targets) collected r).merged ≡ none
    unfolding gathered
    cycle_silences stale =
        let g = merged_first collected r in
        let saved = merged_first-IsSaved collected r key in
        authority_silences (env.clock g.ticks) (authoritative_targets targets) key
          (record g { ticks = g.ticks + 1 }) (targets-Once targets) target
          (rw saved.1
            (stale_entry (lookup key g.cache) (last_word collected r key) _ saved.0 stale))

    -- In every cycle, a resource whose metrics a provider owns has the payload of the last valid
    -- snapshot of its owner, which is the last one of this cycle or else the one that the runner had
    -- saved, if that was saved at most a minute before the authorities are applied and what the
    -- providers' snapshots of the resource were merged to has no higher priority; and that snapshot,
    -- up to its tags, with its time, is what is saved for the next cycle.
    pub cycle_decides :
        (s : Snapshot F) (at : ℕ)
        → last_word collected r key ≡ some (s, at)
        → decided_at collected r ≤ at + minute
        → ((m : Snapshot F)
            → lookup key (merged_first collected r).merged ≡ some m
            → m.priority ≤ℤ s.priority)
        → (m : Snapshot F) × (lookup key
              (gathered env build (authoritative_targets targets) collected r).merged
            ≡ some m)
          × IsPayload s m
          × Holds
              (lookup key (gathered env build (authoritative_targets targets) collected r).cache)
              (some (s, at))
    unfolding gathered
    cycle_decides s at last fresh top =
        let g = merged_first collected r in
        let saved = merged_first-IsSaved collected r key in
        let entry = cache-Entry (lookup key g.cache) s at (rw last at saved.0) in
        let done =
          authority_decides (env.clock g.ticks) (authoritative_targets targets) key
            (record g { ticks = g.ticks + 1 }) entry.cached (targets-Once targets) target entry.here
            (rw (saved.1, entry.time) fresh)
            (λ m e. rw (ap (λ (t : Snapshot F). t.priority) entry.like) (top m e)) in
        (
          done.0,
          done.1,
          like-IsPayload s entry.cached.snapshot done.0 entry.like done.2,
          apply_authorities-Holds (env.clock g.ticks) (authoritative_targets targets) key
              (record g { ticks = g.ticks + 1 }) (some (s, at)) (rw last at saved.0),
        )
