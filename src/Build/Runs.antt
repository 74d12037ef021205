-- ===== src/Build/Runs.antt =====
-- lua/mkinit.lua, `make.jobs.dispatch` and `make.exit`: proofs that they are made of steps.
use presto_build.Base.{
  ℕ, zero, suc, ◌≡◌, ◌∙◌, refl, ltb, ◌==◌, List, [], ◌∷◌, ◌++◌, Bool, true, false, not, ◌&&◌,
  if◌then◌else◌,
}
use presto_build.Build.Target.{Status, updated, error}
use presto_build.Build.Cycles.{Acyclic}
use presto_build.Build.Engine.{BuildCalls, Resumed, raised, dead, yielded, Job, Engine, set_status}
use presto_build.Build.Jobs.{
  Went, goes, stops, runs_out, and_then, remove_job, take_off, after_resume, resume_job, resume_all,
  drain, make_exit, after_round, dispatch,
}
use presto_build.Build.Goals.{end_state}
use presto_build.Build.Tally.{remove_job-middle, still_running}
use presto_build.Build.Busy.{IsBusy, Steps-IsBusy}
use presto_build.Build.Steps.{is_final, ended, moved, gave_up, Steps, later}

-- Any target may be touched.
abbrev pub Anywhere : List ℕ → Type 0
Anywhere n = Unit

-- A run from `start`, whose targets have no cycle.
module _ (calls : BuildCalls) (begun : Engine calls.World) (wf : Acyclic begun.targets)
    (busy : IsBusy begun) where
  open calls use {World, resume, wait}

  abbrev pub Reached : Engine World → Type 0
  Reached x = Steps calls Anywhere begun x

  -- A part of the run ends in a state that steps lead to.
  abbrev pub RanTo : {A : Type 0} → Went World A → Type 0
  RanTo w = Reached (end_state w)

  -- So it does from wherever it begins.
  abbrev pub Keeps : {A : Type 0} → (Engine World → Went World A) → Type 0
  Keeps f = (x : Engine World) → Reached x → RanTo (f x)

  pub and_then-RanTo :
      {A B : Type 0} (w : Went World A) (f : A → Engine World → Went World B)
      → RanTo w
      → ((a : A) → Keeps (f a))
      → RanTo (and_then w f)
  and_then-RanTo (goes a x) f ran keeps = keeps a x ran
  and_then-RanTo (stops x) f ran keeps = ran
  and_then-RanTo (runs_out x) f ran keeps = ran

  -- A part that leaves the jobs alone where it ends with a value.
  abbrev pub IsStill : {A : Type 0} → Engine World → Went World A → Type 0
  IsStill x (goes a y) = y.jobs ≡ x.jobs
  IsStill x (stops y) = Unit
  IsStill x (runs_out y) = Unit

  -- Some of the jobs were resumed, and the others run.
  abbrev Leads : {A : Type 0} → List Job → Went World A → Type 0
  Leads rest (goes a y) = Reached y × ((before : List Job) × (y.jobs ≡ before ++ rest))
  Leads rest (stops y) = Reached y
  Leads rest (runs_out y) = Reached y

  module _ (exit : Engine World → Went World Unit) (keeps : Keeps exit)
      (still : (x : Engine World) → IsStill x (exit x)) where
    -- The job is taken off, with a status; the other jobs are those around it.
    job_ended :
        (before : List Job) (job : Job) (after : List Job) (status : Status)
        → is_final status ≡ true
        → (x : Engine World) → Reached x
        → x.jobs ≡ before ++ job ∷ after
        → Reached (set_status job.target status (take_off job x))
          × (remove_job job.id x.jobs ≡ before ++ after)
    job_ended before job after status final x r runs = (
      later r (ended job status before after runs tt final),
      remove_job-middle x.jobs before job after x.count x.pos runs
          (Steps-IsBusy calls Anywhere r busy).tally,
    )

    after_resume-Leads :
        (before : List Job) (job : Job) (after : List Job) (waiting : List ℕ) (back : Resumed)
        (x : Engine World)
        → Reached x
        → x.jobs ≡ before ++ job ∷ after
        → Leads after (after_resume exit job waiting back x)
    unfolding after_resume
    after_resume-Leads before job after waiting (raised false) x r runs =
        (job_ended before job after error refl x r runs).0
    after_resume-Leads before job after waiting (raised true) x r runs =
        let (now, others) = job_ended before job after error refl x r runs in
        let y : Engine World = set_status job.target error (take_off job x) in
        go (exit y) (keeps y now) (still y) others
      where
        go :
            (w : Went World Unit)
            → RanTo w
            → IsStill (set_status job.target error (take_off job x)) w
            → remove_job job.id x.jobs ≡ before ++ after
            → Leads after (and_then w (λ u y. goes waiting y))
        go (goes u y) ran same others = (ran, (before, same ∙ others))
        go (stops y) ran same others = ran
        go (runs_out y) ran same others = ran
    after_resume-Leads before job after waiting dead x r runs =
        let (now, others) = job_ended before job after updated refl x r runs in
        (now, (before, others))
    after_resume-Leads before job after waiting (yielded true) x r runs =
        (r, still_running x.jobs before job after runs)
    after_resume-Leads before job after waiting (yielded false) x r runs =
        (r, still_running x.jobs before job after runs)

    resume_all-RanTo :
        (before jobs : List Job) (waiting : List ℕ) (x : Engine World)
        → Reached x
        → x.jobs ≡ before ++ jobs
        → RanTo (resume_all calls exit jobs waiting x)
    unfolding resume_all resume_job
    resume_all-RanTo before [] waiting x r runs = r
    resume_all-RanTo before (job ∷ jobs) waiting x r runs =
        let (back, world) = resume job.id x.world in
        go (after_resume exit job waiting back (record x { world = world }))
          (after_resume-Leads before job jobs waiting back (record x { world = world })
            (later r (moved world)) runs)
          (λ before' waiting'. resume_all-RanTo before' jobs waiting')
      where
        go :
            (w : Went World (List ℕ))
            → Leads jobs w
            → ((before' : List Job) (waiting' : List ℕ) (y : Engine World)
                → Reached y
                → y.jobs ≡ before' ++ jobs
                → RanTo (resume_all calls exit jobs waiting' y))
            → RanTo (and_then w (resume_all calls exit jobs))
        go (goes waiting' y) (s, (before', rest)) more = more before' waiting' y s rest
        go (stops y) s more = s
        go (runs_out y) s more = s

  drain-RanTo :
      (dispatched : Engine World → Went World Unit) (fuel : ℕ)
      → Keeps dispatched
      → Keeps (drain calls dispatched fuel)
  unfolding drain
  drain-RanTo dispatched zero keeps x r = r
  drain-RanTo dispatched (suc fuel) keeps x r =
      go (x.count == 0) (dispatched x) (keeps x r) (drain-RanTo dispatched fuel keeps)
    where
      go :
          (b : Bool) (w : Went World Unit)
          → RanTo w
          → Keeps (drain calls dispatched fuel)
          → RanTo (
              if b then stops x else (elim w [
                | goes u y ↦ drain calls dispatched fuel y
                | stops y ↦ drain calls dispatched fuel y
                | runs_out y ↦ runs_out y
              ]))
      go true w ran more = r
      go false (goes u y) ran more = more y ran
      go false (stops y) ran more = more y ran
      go false (runs_out y) ran more = ran

  pub make_exit-RanTo :
      (dispatched : Engine World → Went World Unit) (fuel : ℕ)
      → Keeps dispatched
      → Keeps (make_exit calls dispatched fuel)
  unfolding make_exit
  make_exit-RanTo dispatched fuel keeps x r = go x.flags.keep_going
    where
      go :
          (b : Bool)
          → RanTo
              (if b then goes tt (record x { failure = true }) else drain calls dispatched fuel x)
      go true = later r gave_up
      go false = drain-RanTo dispatched fuel keeps x r

  -- Only where nothing is drained does it end with a value.
  make_exit-Still :
      (dispatched : Engine World → Went World Unit) (fuel : ℕ) (x : Engine World)
      → IsStill x (make_exit calls dispatched fuel x)
  unfolding make_exit drain
  make_exit-Still dispatched fuel x = go x.flags.keep_going
    where
      drained : (fuel : ℕ) (y : Engine World) → IsStill x (drain calls dispatched fuel y)
      drained zero y = tt
      drained (suc fuel) y = branch (y.count == 0) (dispatched y) (drained fuel)
        where
          branch :
              (b : Bool) (w : Went World Unit)
              → ((z : Engine World) → IsStill x (drain calls dispatched fuel z))
              → IsStill x (
                  if b then stops y else (elim w [
                    | goes u z ↦ drain calls dispatched fuel z
                    | stops z ↦ drain calls dispatched fuel z
                    | runs_out z ↦ runs_out z
                  ]))
          branch true w more = tt
          branch false (goes u z) more = more z
          branch false (stops z) more = more z
          branch false (runs_out z) more = tt

      go :
          (b : Bool)
          → IsStill x
              (if b then goes tt (record x { failure = true }) else drain calls dispatched fuel x)
      go true = refl
      go false = drained fuel x

  pub dispatch-RanTo : (fuel : ℕ) → Keeps (dispatch calls fuel)
  unfolding dispatch after_round
  dispatch-RanTo zero x r = r
  dispatch-RanTo (suc fuel) x r =
      and_then-RanTo (resume_all calls (make_exit calls (dispatch calls fuel) fuel) x.jobs [] x)
        (after_round calls (dispatch calls fuel) x.count)
        (resume_all-RanTo (make_exit calls (dispatch calls fuel) fuel)
          (make_exit-RanTo (dispatch calls fuel) fuel (dispatch-RanTo fuel))
          (make_exit-Still (dispatch calls fuel) fuel) [] x.jobs [] x r refl)
        (λ waiting y s.
          go y s waiting (dispatch-RanTo fuel) (not (x.count == y.count) && ltb y.count y.slots)
            (x.count == 0))
    where
      go :
          (y : Engine World)
          → Reached y
          → (waiting : List ℕ) → Keeps (dispatch calls fuel)
          → (opened idle : Bool)
          → RanTo (
              if opened
              then goes tt y
              else if idle
              then goes tt y
              else dispatch calls fuel (record y { world = wait waiting y.world }))
      go y s waiting more true idle = s
      go y s waiting more false true = s
      go y s waiting more false false =
          more (record y { world = wait waiting y.world }) (later s (moved (wait waiting y.world)))
