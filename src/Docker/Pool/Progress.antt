-- ===== src/Docker/Pool/Progress.antt =====
-- The goroutines of a Docker collection do not wait for one another for ever.
use mathlib.Core.Path.{subst}
use mathlib.Core.Option
use komari_bridge.Base.{
  ◌≡◌, refl, ap, ◌⊎◌, inl, inr, Bool, true, false, Option, none, some, [], ◌∷◌, ◌++◌, arith,
}
use komari_bridge.Docker.Pool.{
  Stage, waiting, running, finished, Job, Pool, taken, result_of, Step, enters, returns, gives_up,
}
use komari_bridge.Docker.Pool.Runs.{results}

-- A goroutine of a pool at a stage.
record At (st : Stage) (pool : Pool) : Type 0 where
  before : Pool
  after : Pool
  job : Job
  here : before ++ (job, st) ∷ after ≡ pool

further : {st : Stage} {pool : Pool} (one : Job × Stage) → At st pool → At st (one ∷ pool)
further one h = record {
  before = one ∷ h.before;
  after = h.after;
  job = h.job;
  here = ap (λ (p : Pool). one ∷ p) h.here;
}

map-none : {A B : Type 0} (f : A → B) (r : Option A) → Option.map f r ≡ none → r ≡ none
map-none f none h = refl
map-none f (some a) h = cc

-- As long as not all have returned, one holds a place or all places are free and one waits.
unfinished :
    (pool : Pool) → results pool ≡ none → At running pool ⊎ ((taken pool ≡ 0) × At waiting pool)
unfolding results taken
unfinished [] h = cc
unfinished ((j, running) ∷ pool) h =
    inl (record { before = []; after = pool; job = j; here = refl })
unfinished ((j, finished r) ∷ pool) h = elim (unfinished pool (map-none _ (results pool) h)) [
  | inl one ↦ inl (further (j, finished r) one)
  | inr w ↦ inr (omega (arith, w.0), further (j, finished r) w.1)
]
unfinished ((j, waiting) ∷ pool) h = elim (any_running pool) [
  | inl r ↦ inl (further (j, waiting) r)
  | inr free ↦ inr (omega (arith, free), record { before = []; after = pool; job = j; here = refl })
]
  where
    any_running : (pool : Pool) → At running pool ⊎ (taken pool ≡ 0)
    any_running [] = inr refl
    any_running ((k, running) ∷ rest) =
        inl (record { before = []; after = rest; job = k; here = refl })
    any_running ((k, waiting) ∷ rest) = elim (any_running rest) [
      | inl r ↦ inl (further (k, waiting) r)
      | inr free ↦ inr (omega (arith, free))
    ]
    any_running ((k, finished r) ∷ rest) = elim (any_running rest) [
      | inl one ↦ inl (further (k, finished r) one)
      | inr free ↦ inr (omega (arith, free))
    ]

-- Not a step that the context's end allows.
abbrev pub is_calm : {s t : Pool} → Step s t → Bool
is_calm (enters before after j free) = true
is_calm (returns before after j) = true
is_calm (gives_up before after j) = false

pub record Next (s : Pool) : Type 0 where
  pub to : Pool
  pub step : Step s to
  pub calm : is_calm step ≡ true

-- As long as not all goroutines have returned, one of them can go on, also where the context is not
-- done: the semaphore never blocks all of them.
pub results-Next : (pool : Pool) → results pool ≡ none → Next pool
results-Next pool h = elim (unfinished pool h) [
  | inl r ↦ subst Next r.here (record {
    to = r.before ++ (r.job, finished (result_of r.job true)) ∷ r.after;
    step = returns r.before r.after r.job;
    calm = refl;
  })
  | inr (free, w) ↦ subst Next w.here (record {
    to = w.before ++ (w.job, running) ∷ w.after;
    step = enters w.before w.after w.job (rw w.here (omega (arith, free)));
    calm = refl;
  })
]
