-- ===== src/Docker/Pool/Refines.antt =====
-- The goroutines of a Docker collection and the loop that Docker/Collect has instead of them.
use komari_bridge.Base.{
  ◌≤◌, ℕ, ◌+◌, ◌≡◌, ◌≢◌, refl, sym, ap, ◌∙◌, Bool, true, false, Option, none, some, List, [], ◌∷◌,
  ◌++◌, length, arith,
}
use mathlib.Core.Option
use mathlib.Core.Path.{subst}
use komari_bridge.Base.Dict.{Dict}
use komari_bridge.Base.Floats.{Float64}
use komari_bridge.Config.{DockerConfig}
use komari_bridge.Docker.Samples.{NetworkSample}
use komari_bridge.Docker.Selection.{ContainerSummary}
use komari_bridge.Docker.Snapshot.{CollectedStats, snapshot}
use komari_bridge.Docker.Collect.{Engine, gather_container, snapshots}
use komari_bridge.Docker.Pool.{
  Stage, waiting, running, finished, Job, Pool, started, result_of, jobs_for, snapshots_of, enters,
  returns, gives_up, Steps, none_yet, then, entered, got_place,
}
use komari_bridge.Docker.Pool.Runs.{jobs_of, results, Steps-taken}

-- An engine that lets in whom it is told to.
abbrev pub admitting : (ℕ → Bool) → Engine → Engine
admitting lets engine = record engine {
  answers = λ n. record (engine.answers n) { admitted = lets n };
}

-- What a goroutine is at, by whether it got a place.
abbrev IsAt : Bool → Job → Stage → Type 0
IsAt let_in j waiting = let_in ≡ false
IsAt let_in j running = let_in ≡ true
IsAt let_in j (finished r) = r ≡ result_of j let_in

-- Each goroutine is at a stage that fits whether it got a place.
Agrees : (ℕ → Bool) → ℕ → Pool → Type 0
Agrees lets n [] = Unit
Agrees lets n ((j, st) ∷ pool) = IsAt (lets n) j st × Agrees lets (n + 1) pool

Agrees-same :
    (lets lets' : ℕ → Bool) (n : ℕ) (pool : Pool)
    → ((k : ℕ) → n ≤ k → lets k ≡ lets' k)
    → Agrees lets n pool
    → Agrees lets' n pool
unfolding Agrees
Agrees-same lets lets' n [] same h = tt
Agrees-same lets lets' n ((j, st) ∷ pool) same h = (
  rw⁻¹ (same n (omega arith)) h.0,
  Agrees-same lets lets' (n + 1) pool (λ k e. same k (omega arith)) h.1,
)

-- One goroutine goes on.
Agrees-replace :
    (lets lets' : ℕ → Bool) (n place : ℕ) (before after : Pool) (j : Job) (st st' : Stage)
    → place ≡ n + length before
    → ((k : ℕ) → place ≢ k → lets k ≡ lets' k)
    → (IsAt (lets place) j st → IsAt (lets' place) j st')
    → Agrees lets n (before ++ (j, st) ∷ after)
    → Agrees lets' n (before ++ (j, st') ∷ after)
unfolding Agrees
Agrees-replace lets lets' n place [] after j st st' at same step h =
    let e : place ≡ n = omega (arith, at) in
    (
      subst (λ m. IsAt (lets' m) j st') e (step (subst (λ m. IsAt (lets m) j st) (sym e) h.0)),
      Agrees-same lets lets' (n + 1) after (λ k le. same k (λ q. omega (arith, e, q, le))) h.1,
    )
Agrees-replace lets lets' n place ((i, si) ∷ before) after j st st' at same step h = (
  rw⁻¹ (same n (λ q. omega (arith, at, q))) h.0,
  Agrees-replace lets lets' (n + 1) place before after j st st' (omega (arith, at)) same step h.1,
)

started-Agrees : (n : ℕ) (jobs : List Job) → Agrees (λ k. false) n (started jobs)
unfolding Agrees
started-Agrees n [] = tt
started-Agrees n (j ∷ jobs) = (refl, started-Agrees (n + 1) jobs)

-- In any interleaving, each goroutine is where it can be, and has written what it should.
Steps-Agrees :
    (jobs : List Job) (pool : Pool) (n : ℕ) (steps : Steps (started jobs) pool n)
    → Agrees (got_place steps) 0 pool
unfolding entered
Steps-Agrees jobs pool _ none_yet = started-Agrees 0 jobs
Steps-Agrees jobs _ _ (then steps (enters before after j free)) =
    Agrees-replace (got_place steps) (got_place (then steps (enters before after j free))) 0
      (length before) before after j waiting running (omega arith) (λ k ne. ground arith)
      (λ _. ground arith) (Steps-Agrees jobs _ _ steps)
Steps-Agrees jobs _ _ (then steps (returns before after j)) =
    Agrees-replace (got_place steps) (got_place steps) 0 (length before) before after j running
      (finished (result_of j true)) (omega arith) (λ k ne. refl) (λ h. rw h refl)
      (Steps-Agrees jobs _ _ steps)
Steps-Agrees jobs _ _ (then steps (gives_up before after j)) =
    Agrees-replace (got_place steps) (got_place steps) 0 (length before) before after j waiting
      (finished (result_of j false)) (omega arith) (λ k ne. refl) (λ h. rw h refl)
      (Steps-Agrees jobs _ _ steps)

-- The results of the goroutines, if they run one after another.
written : (ℕ → Bool) → ℕ → List Job → List CollectedStats
written lets n [] = []
written lets n (j ∷ jobs) = result_of j (lets n) ∷ written lets (n + 1) jobs

results-written :
    (lets : ℕ → Bool) (n : ℕ) (pool : Pool) (rs : List CollectedStats)
    → Agrees lets n pool
    → results pool ≡ some rs
    → rs ≡ written lets n (jobs_of pool)
unfolding Agrees results written
results-written lets n [] rs h e = cc
results-written lets n ((j, waiting) ∷ pool) rs h e = cc
results-written lets n ((j, running) ∷ pool) rs h e = cc
results-written lets n ((j, finished r) ∷ pool) rs h e =
    one_more (results pool) (λ others. results-written lets (n + 1) pool others h.1) e
  where
    one_more :
        (o : Option (List CollectedStats))
        → ((others : List CollectedStats)
            → o ≡ some others
            → others ≡ written lets (n + 1) (jobs_of pool))
        → Option.map (λ rest. r ∷ rest) o ≡ some rs
        → rs ≡ result_of j (lets n) ∷ written lets (n + 1) (jobs_of pool)
    one_more none same e = cc
    one_more (some others) same e = cc (h.0, same others refl)

module _ {F : Type 0} ⦃fl : Float64 F⦄ (cfg : DockerConfig) (engine : Engine)
    (lets : ℕ → Bool) where
  snapshots-written :
      (n : ℕ) (cs : List ContainerSummary) (samples : Dict NetworkSample)
      → snapshots_of {F = F} cfg engine cs (written lets n (jobs_for engine n cs)) samples
        ≡ snapshots cfg (admitting lets engine) n cs samples
  unfolding snapshots_of written jobs_for snapshots result_of
  snapshots-written n [] samples = refl
  snapshots-written n (c ∷ cs) samples =
      rw
        (snapshots-written (n + 1) cs
          (snapshot engine.parse_time cfg c
            (gather_container (record (engine.answers n) { admitted = lets n }) c) engine.now
            samples).1)
        refl

-- When all goroutines of a collection have returned, whatever the interleaving of their steps was, the
-- snapshots that are made of what they have written are those of the loop over the containers one
-- after another, where the engine lets in exactly the containers whose goroutine got a place in the
-- semaphore in that interleaving.
pub Steps-snapshots :
    {F : Type 0} ⦃fl : Float64 F⦄ (cfg : DockerConfig) (engine : Engine)
    (cs : List ContainerSummary) (pool : Pool) (n : ℕ) (rs : List CollectedStats)
    (samples : Dict NetworkSample) (steps : Steps (started (jobs_for engine 0 cs)) pool n)
    → results pool ≡ some rs
    → snapshots_of {F = F} cfg engine cs rs samples
      ≡ snapshots cfg (admitting (got_place steps) engine) 0 cs samples
Steps-snapshots cfg engine cs pool n rs samples steps over =
    ap (λ (xs : List CollectedStats). snapshots_of cfg engine cs xs samples)
      (results-written (got_place steps) 0 pool rs (Steps-Agrees _ pool n steps) over
        ∙ ap (λ (js : List Job). written (got_place steps) 0 js)
            (Steps-taken (jobs_for engine 0 cs) pool n steps).1)
    ∙ snapshots-written cfg engine (got_place steps) 0 cs samples
