-- ===== src/Docker/Pool.antt =====
-- providers/docker/docker.go: the goroutines of `Collect`, one for each container, and the semaphore
-- that lets eight of them ask the engine at once.
pub mod Runs
pub mod Progress
pub mod Refines
use komari_bridge.Base.{
  ℕ, ◌+◌, ◌*◌, ◌≤◌, ◌<◌, ◌≡◌, refl, Bool, true, false, List, [], ◌∷◌, ◌++◌, map, length, any, eqb,
}
use komari_bridge.Base.Dict.{Dict}
use komari_bridge.Base.Floats.{Float64}
use komari_bridge.Config.{DockerConfig}
use komari_bridge.Model.{Snapshot}
use komari_bridge.Docker.Samples.{NetworkSample}
use komari_bridge.Docker.Selection.{ContainerSummary}
use komari_bridge.Docker.Snapshot.{CollectedStats, snapshot}
use komari_bridge.Docker.Collect.{Engine, Answers, gather_container}

-- A goroutine waits at its `select`, holds a place in the semaphore, or has returned and written its
-- place in the results.
pub data Stage : Type 0 where
  waiting running : Stage
  finished : CollectedStats → Stage

-- The container of a goroutine, and what the engine answers to its requests.
pub record Job : Type 0 where
  pub container : ContainerSummary
  pub answers : Answers

abbrev pub Pool : Type 0
Pool = List (Job × Stage)

abbrev pub places : ℕ
places = 8

abbrev is_running : Stage → ℕ
is_running running = 1
is_running _ = 0

-- The places that are taken.
unfoldable pub taken : Pool → ℕ
taken [] = 0
taken ((j, st) ∷ pool) = is_running st + taken pool

-- What a goroutine writes, with whether it was let in.
unfoldable pub result_of : Job → Bool → CollectedStats
unfolding gather_container
result_of j let_in = gather_container (record j.answers { admitted = let_in }) j.container

abbrev pub started : List Job → Pool
started jobs = map (λ j. (j, waiting)) jobs

-- The goroutines of a collection, each with the answers to its own requests.
unfoldable pub jobs_for : Engine → ℕ → List ContainerSummary → List Job
jobs_for engine n [] = []
jobs_for engine n (c ∷ cs) =
    record { container = c; answers = engine.answers n } ∷ jobs_for engine (n + 1) cs

-- The loop over the results after `wg.Wait`.
unfoldable pub snapshots_of :
    {F : Type 0} ⦃fl : Float64 F⦄
    → DockerConfig
    → Engine
    → List ContainerSummary
    → List CollectedStats
    → Dict NetworkSample
    → List (Snapshot F) × Dict NetworkSample
unfolding snapshot
snapshots_of cfg engine (c ∷ cs) (r ∷ rs) samples =
    let first = snapshot engine.parse_time cfg c r engine.now samples in
    let rest = snapshots_of cfg engine cs rs first.1 in (first.0 ∷ rest.0, rest.1)
snapshots_of cfg engine _ _ samples = ([], samples)

-- One goroutine goes on, the others stay. It writes to the place of its own container as it returns,
-- from the engine's answers if it held a place. Where a place is free and the context is done, either case
-- of the `select` may be taken.
pub data Step : Pool → Pool → Type 0 where
  enters :
      (before after : Pool) (j : Job)
      → taken (before ++ (j, waiting) ∷ after) < places
      → Step (before ++ (j, waiting) ∷ after) (before ++ (j, running) ∷ after)
  returns :
      (before after : Pool) (j : Job)
      → Step (before ++ (j, running) ∷ after) (before ++ (j, finished (result_of j true)) ∷ after)
  gives_up :
      (before after : Pool) (j : Job)
      → Step (before ++ (j, waiting) ∷ after) (before ++ (j, finished (result_of j false)) ∷ after)

pub data Steps (s : Pool) : Pool → ℕ → Type 0 where
  none_yet : Steps s s 0
  then : {t u : Pool} {n : ℕ} → Steps s t n → Step t u → Steps s u (n + 1)

-- The goroutines that got a place, by the places of their containers.
unfoldable pub entered : {s t : Pool} {n : ℕ} → Steps s t n → List ℕ
entered none_yet = []
entered (then steps (enters before after j free)) = length before ∷ entered steps
entered (then steps (returns before after j)) = entered steps
entered (then steps (gives_up before after j)) = entered steps

abbrev pub got_place : {s t : Pool} {n : ℕ} → Steps s t n → ℕ → Bool
got_place steps k = any (λ i. eqb i k) (entered steps)
