-- ===== src/Docker/Pool/Runs.antt =====
-- What the goroutines of a Docker collection do together, in any interleaving.
use komari_bridge.Base.{
  ℕ, ◌+◌, ◌*◌, ◌≤◌, ◌<◌, ◌≡◌, refl, true, false, List, [], ◌∷◌, ◌++◌, map, length, arith, ap, ◌∙◌,
  Option, none, some,
}
use mathlib.Core.Option
use komari_bridge.Docker.Snapshot.{CollectedStats}
use komari_bridge.Docker.Pool.{
  Stage, waiting, running, finished, Job, Pool, places, taken, result_of, started, Step, enters,
  returns, gives_up, Steps, none_yet, then,
}

taken-append : (p q : Pool) → taken (p ++ q) ≡ taken p + taken q
unfolding taken
taken-append [] q = omega arith
taken-append ((j, st) ∷ p) q = omega (arith, taken-append p q)

-- The steps that a pool can still make at most.
abbrev weight : Stage → ℕ
weight waiting = 2
weight running = 1
weight (finished _) = 0

pub left : Pool → ℕ
left [] = 0
left ((j, st) ∷ pool) = weight st + left pool

left-append : (p q : Pool) → left (p ++ q) ≡ left p + left q
unfolding left
left-append [] q = omega arith
left-append ((j, st) ∷ p) q = omega (arith, left-append p q)

left-started : (jobs : List Job) → left (started jobs) ≡ length jobs * 2
unfolding left
left-started [] = omega arith
left-started (j ∷ jobs) = omega (arith, left-started jobs)

taken-started : (jobs : List Job) → taken (started jobs) ≡ 0
unfolding taken
taken-started [] = refl
taken-started (j ∷ jobs) = omega (arith, taken-started jobs)

-- The goroutines of a pool.
abbrev pub jobs_of : Pool → List Job
jobs_of pool = map (λ (j, st). j) pool

-- The stage of one goroutine says nothing of the others.
jobs-replace :
    (before after : Pool) (j : Job) (st st' : Stage)
    → jobs_of (before ++ (j, st) ∷ after) ≡ jobs_of (before ++ (j, st') ∷ after)
jobs-replace [] after j st st' = refl
jobs-replace ((k, sk) ∷ before) after j st st' =
    ap (λ (jobs : List Job). k ∷ jobs) (jobs-replace before after j st st')

-- At most eight goroutines ask the engine at once.
taken-Step : {s t : Pool} → Step s t → taken s ≤ places → taken t ≤ places
unfolding taken
taken-Step (enters before after j free) h = omega (
  arith,
  free,
  taken-append before ((j, waiting) ∷ after),
  taken-append before ((j, running) ∷ after),
)
taken-Step (returns before after j) h = omega (
  arith,
  taken-append before ((j, running) ∷ after),
  taken-append before ((j, finished (result_of j true)) ∷ after),
)
taken-Step (gives_up before after j) h = omega (
  arith,
  taken-append before ((j, waiting) ∷ after),
  taken-append before ((j, finished (result_of j false)) ∷ after),
)

left-Step : {s t : Pool} → Step s t → left t < left s
unfolding left
left-Step (enters before after j free) =
    omega
      (arith, left-append before ((j, waiting) ∷ after), left-append before ((j, running) ∷ after))
left-Step (returns before after j) = omega (
  arith,
  left-append before ((j, running) ∷ after),
  left-append before ((j, finished (result_of j true)) ∷ after),
)
left-Step (gives_up before after j) = omega (
  arith,
  left-append before ((j, waiting) ∷ after),
  left-append before ((j, finished (result_of j false)) ∷ after),
)

-- Every goroutine keeps its container and its answers.
jobs-Step : {s t : Pool} → Step s t → jobs_of t ≡ jobs_of s
jobs-Step (enters before after j free) = jobs-replace before after j running waiting
jobs-Step (returns before after j) =
    jobs-replace before after j (finished (result_of j true)) running
jobs-Step (gives_up before after j) =
    jobs-replace before after j (finished (result_of j false)) waiting

jobs-started : (jobs : List Job) → jobs_of (started jobs) ≡ jobs
jobs-started [] = refl
jobs-started (j ∷ jobs) = ap (λ (js : List Job). j ∷ js) (jobs-started jobs)

-- In any interleaving of the goroutines of a collection, at most eight of them ask the engine at once,
-- each keeps its container, and there are at most two steps for each.
pub Steps-taken :
    (jobs : List Job) (pool : Pool) (n : ℕ)
    → Steps (started jobs) pool n
    → (taken pool ≤ places) × (jobs_of pool ≡ jobs) × (n + left pool ≤ length jobs * 2)
Steps-taken jobs pool _ none_yet =
    (omega (arith, taken-started jobs), jobs-started jobs, omega (arith, left-started jobs))
Steps-taken jobs pool _ (then before step) =
    let so_far = Steps-taken jobs _ _ before in
    (taken-Step step so_far.0, jobs-Step step ∙ so_far.1, omega (arith, left-Step step, so_far.2))

-- What the goroutines have written, in the order of their containers, once all have returned.
unfoldable pub results : Pool → Option (List CollectedStats)
results [] = some []
results ((j, finished r) ∷ pool) = Option.map (λ rest. r ∷ rest) (results pool)
results ((j, _) ∷ pool) = none
