-- ===== src/Build/Turns.antt =====
-- lua/mkinit.lua, `make.update_goals_p` without keep_going: proofs that each visit of a goal comes back.
use presto_build.Build.Depends.{has}
use mathlib.Core.List.{Memᴰ}
use presto_build.Base.{
  if_cases, ℕ, ◌+◌, ◌<◌, ◌≤◌, ◌≡◌, ◌≢◌, ◌⊎◌, inl, inr, refl, sym, ap, ◌∙◌, subst, List, [], ◌∷◌,
  length, arith,
}
use presto_build.Build.Target.{unchanged, updated, running, error}
use presto_build.Build.Cycles.{Acyclic}
use presto_build.Build.Engine.{
  BuildCalls, Engine, Job, running_jobs, Reply, gives, throws, unfinished,
}
use presto_build.Build.Update.{remove, bring_up_to_date}
use presto_build.Build.Jobs.{Went, goes, stops, runs_out, and_then, make_exit, dispatch}
use presto_build.Build.Goals.{settle, after_goal}
use presto_build.Build.Grows.{remove-less}
use presto_build.Build.Matches.{HasJob}
use presto_build.Build.Busy.{IsBusy, Steps-IsBusy}
use presto_build.Build.Within.{Within}
use presto_build.Build.Steps.{Steps, Builds, Builds-Steps, Steps-wider}
use presto_build.Build.Runs.{Anywhere}
use presto_build.Build.Waits.{Steps-flags}
use presto_build.Build.Waiting.{IsGood, IsWaited, SomeRuns}
use presto_build.Build.Lessens.{Never, make_exit-Never}
use presto_build.Build.Once.{IsOnce, Steps-IsOnce}
use presto_build.Build.Tires.{Tires, work, IsExit}
use presto_build.Build.Returns.{make_exit-Exit, dispatch-IsDispatched}
use presto_build.Build.Finishes.{IsOnWay}
use presto_build.Build.Spends.{
  AreAmong, length-Distinct, IsClosed, reach_among, length-remove, Spends, Builds-Spends,
  Builds-among,
}

-- A run from `begun`, without keep_going, where the names hold all that is asked for and `limit` is enough
-- fuel for each of them. `spare` bounds how often the commands yield from a state of the world on.
pub record Run (calls : BuildCalls) : Type 0 where
  pub spare : calls.World → ℕ
  pub tired : Tires calls spare
  pub begins :
      (name : List ℕ) (id : ℕ) (w : calls.World) → spare (calls.begin name id w).1 ≤ spare w
  pub begun : Engine calls.World
  pub wf : Acyclic begun.targets
  pub busy : IsBusy begun
  pub once : IsOnce begun
  pub names : List (List ℕ)
  pub closed : IsClosed begun.targets names
  pub limit : ℕ
  pub enough :
      (n : List ℕ)
      → Memᴰ n names
      → (x : Engine calls.World) → IsOnWay calls begun wf busy x
      → (bring_up_to_date calls limit n x).0 ≢ unfinished

module _ (calls : BuildCalls) (run : Run calls) where
  open calls use {World}
  open run use {spare, tired, begins, begun, wf, busy, once, names, closed, limit, enough}

  -- A state of the run, with fuel for its jobs and for those that are still to be started.
  pub record IsFine (x : Engine World) : Type 0 where
    pub way : IsOnWay calls begun wf busy x
    pub among : AreAmong names x.started
    pub asks : (g : List ℕ) → Memᴰ g x.goals → Memᴰ g names
    pub bounded : work calls spare x + length names < limit + length x.started

  -- A part of the run comes back, and not later than it may; `More` is what it has done.
  abbrev pub IsTurn : (Engine World → Type 0) → Engine World → Went World Unit → Type 0
  IsTurn More x (goes u y) =
      (AreAmong names y.started)
      × ((g : List ℕ) → Memᴰ g y.goals → Memᴰ g names)
      × (Spends calls spare begins x y)
      × (length y.goals ≤ length x.goals)
      × More y
  IsTurn More x (stops y) = Unit
  IsTurn More x (runs_out y) = ⊥

  -- A goal is done, or a job runs.
  abbrev pub HasProgress : Engine World → Engine World → Type 0
  HasProgress x y = (length y.goals < length x.goals) ⊎ (0 < running_jobs y.jobs)

  pub bounded_later :
      (x y : Engine World)
      → work calls spare x + length names < limit + length x.started
      → Spends calls spare begins x y
      → work calls spare y + length names < limit + length y.started
  bounded_later x y bound (a, b, c, d) = omega (arith, bound, a, b)

  pub started_le :
      (y : Engine World)
      → Steps calls Anywhere begun y
      → AreAmong names y.started
      → length y.started ≤ length names
  started_le y reached =
      length-Distinct names y.started (Steps-IsOnce calls Anywhere reached once).distinct

  some_job :
      (x : Engine World) → Steps calls Anywhere begun x → SomeRuns x → 0 < running_jobs x.jobs
  some_job x reached (n, ran) =
      go x.jobs (((Steps-IsBusy calls Anywhere reached busy).matches n).0 ran)
    where
      go : (js : List Job) → HasJob js n → 0 < running_jobs js
      go [] absent = absurd absent
      go (job ∷ js) has = omega arith

  -- `make.exit` comes back, with an error.
  exit_stops :
      (exit : Engine World → Went World Unit) (More : Engine World → Type 0) (x y : Engine World)
      (goal : List ℕ) (w : Went World Unit)
      → Never w
      → IsExit calls spare y w
      → IsTurn More x (and_then w (λ u z. goes tt (settle goal z)))
  exit_stops exit More x y goal (goes u z) never fine = absurd never
  exit_stops exit More x y goal (stops z) never fine = tt
  exit_stops exit More x y goal (runs_out z) never fine = absurd fine

  abbrev pub exit : Engine World → Went World Unit
  exit = make_exit calls (dispatch calls limit) limit

  exit-IsExit :
      (y : Engine World)
      → Steps calls Anywhere begun y
      → AreAmong names y.started
      → work calls spare y + length names < limit + length y.started
      → IsExit calls spare y (exit y)
  exit-IsExit y reached among lt =
      let le = started_le y reached among in
      make_exit-Exit calls spare (dispatch calls limit) limit
        (λ e t enough_work. dispatch-IsDispatched calls spare tired e t limit enough_work) y
        (Steps-IsBusy calls Anywhere reached busy).tally (omega (arith, le, lt))

  pub after_goal-IsTurn :
      (goal : List ℕ) (x y : Engine World) (r : Reply)
      → IsFine x
      → Memᴰ goal x.goals
      → Builds calls (Within begun.targets goal) x y
      → r ≢ unfinished
      → (IsGood r → IsWaited goal x r y)
      → IsTurn (HasProgress x) x (after_goal exit goal (r, y))
  unfolding after_goal
  after_goal-IsTurn goal x y r fine mem builds ended w = go r ended w
    where
      among : AreAmong names y.started
      among =
          Builds-among calls spare begins (Within begun.targets goal) names
            (λ n. reach_among begun.targets names closed n goal (fine.asks goal mem)) builds
            fine.among

      spent : Spends calls spare begins x y
      spent = Builds-Spends calls spare begins (Within begun.targets goal) builds

      steps : Steps calls (Within begun.targets goal) x y
      steps = Builds-Steps calls (Within begun.targets goal) builds

      reached : Steps calls Anywhere begun y
      reached =
          Steps-wider calls (Within begun.targets goal) Anywhere (λ n h. tt) fine.way.reached steps

      settled : y.goals ≡ x.goals → IsTurn (HasProgress x) x (goes tt (settle goal y))
      settled same =
          let less : length (remove goal y.goals) < length x.goals =
            subst (λ gs. length (remove goal y.goals) < length gs) same
              (length-remove goal y.goals (subst (Memᴰ goal) (sym same) mem)) in
          (
            among,
            (λ g m. fine.asks g (subst (Memᴰ g) same (remove-less goal g y.goals m))),
            spent,
            omega (arith, less),
            inl less,
          )

      left_off :
          (z : Reply)
          → IsTurn (HasProgress x) x (and_then (exit y) (λ u z. goes tt (settle goal z)))
      left_off z =
          exit_stops exit (HasProgress x) x y goal (exit y)
            (make_exit-Never calls (dispatch calls limit) limit y (
              ap (λ f. f.keep_going) (Steps-flags calls (Within begun.targets goal) steps)
              ∙ fine.way.going))
            (exit-IsExit y reached among (bounded_later x y fine.bounded spent))

      go :
          (r : Reply)
          → r ≢ unfinished
          → (IsGood r → IsWaited goal x r y)
          → IsTurn (HasProgress x) x (after_goal exit goal (r, y))
      go (gives unchanged) ended w = settled (w tt).same_goals
      go (gives updated) ended w = settled (w tt).same_goals
      go (gives running) ended w =
          let same = (w tt).same_goals in
          (
            among,
            (λ g m. fine.asks g (subst (Memᴰ g) same m)),
            spent,
            (let le : length y.goals ≡ length x.goals = ap length same in omega (arith, le)),
            inr (some_job y reached ((w tt).some_runs refl)),
          )
      go (gives error) ended w =
          if_cases (IsTurn (HasProgress x) x) (has y.unprintable goal) (stops y) _ tt
            (left_off (gives error))
      go (throws t) ended w = left_off (throws t)
      go unfinished ended w = absurd (ended refl)
