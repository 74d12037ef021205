-- ===== src/Build/Tires.antt =====
-- lua/mkinit.lua, `make.jobs.dispatch`: commands that yield only so often, and proofs on a round of resumes.
use presto_build.Base.{ℕ, ◌+◌, ◌<◌, ◌≤◌, ◌≡◌, ◌⊎◌, ap, ◌∙◌, List, [], ◌∷◌, ◌++◌, true, false, arith}
use presto_build.Build.Target.{Status, updated, error}
use presto_build.Build.Engine.{
  BuildCalls, Resumed, raised, dead, yielded, Job, running_jobs, Engine, set_status,
}
use presto_build.Build.Jobs.{
  Went, goes, stops, runs_out, and_then, take_off, remove_job, after_resume, resume_job, resume_all,
}
use presto_build.Build.Tally.{
  IsTally, IsTally-remove, remove_job-middle, running_jobs-middle, still_running,
}

-- What a resume leaves of the times that commands may yield.
abbrev pub IsTired : (W : Type 0) → (W → ℕ) → ℕ → Resumed × W → Type 0
IsTired W left before (raised printed, w) = left w ≤ before
IsTired W left before (dead, w) = left w ≤ before
IsTired W left before (yielded handle, w) = left w < before

-- `left` bounds how often the commands yield from a state of the world on; waiting does not raise it.
pub record Tires (calls : BuildCalls) (left : calls.World → ℕ) : Type 0 where
  pub tires : (id : ℕ) (w : calls.World) → IsTired calls.World left (left w) (calls.resume id w)
  pub waits : (ids : List ℕ) (w : calls.World) → left (calls.wait ids w) ≤ left w

module _ (calls : BuildCalls) (left : calls.World → ℕ) where
  open calls use {World, resume, wait}

  -- An upper bound of the resumes that are to come.
  abbrev pub work : Engine World → ℕ
  work e = left e.world + running_jobs e.jobs

  abbrev pub IsTallied : Engine World → Type 0
  IsTallied e = IsTally e.jobs e.count e.pos

  -- `make.exit` comes back: as it was, or with an error and no more work than before.
  abbrev pub IsExit : Engine World → Went World Unit → Type 0
  IsExit e (goes u e') = IsTallied e' × (e'.jobs ≡ e.jobs) × (work e' ≤ work e)
  IsExit e (stops e') = IsTallied e' × (work e' ≤ work e)
  IsExit e (runs_out e') = ⊥

  -- It comes back with an error.
  abbrev pub IsStopping : Engine World → Went World Unit → Type 0
  IsStopping e (goes u e') = ⊥
  IsStopping e (stops e') = IsTallied e' × (work e' ≤ work e)
  IsStopping e (runs_out e') = ⊥

  abbrev pub Exits : ℕ → (Engine World → Went World Unit) → Type 0
  Exits bound exit = (e : Engine World) → IsTallied e → work e < bound → IsExit e (exit e)

  -- So does a dispatch, with less work than before, if there was a job.
  abbrev pub IsDispatched : Engine World → Went World Unit → Type 0
  IsDispatched e (goes u e') =
      IsTallied e' × (work e' ≤ work e) × ((e.count ≡ 0) ⊎ (work e' < work e))
  IsDispatched e (stops e') = IsTallied e' × (work e' < work e)
  IsDispatched e (runs_out e') = ⊥

  abbrev pub Dispatches : ℕ → (Engine World → Went World Unit) → Type 0
  Dispatches bound again =
      (e : Engine World) → IsTallied e → work e < bound → IsDispatched e (again e)

  -- Some jobs of a round were resumed, each of which took some work; those that are to come still run.
  abbrev pub IsRound : ℕ → Engine World → List Job → Went World (List ℕ) → Type 0
  IsRound resumed e rest (goes waiting e') =
      IsTallied e' × (work e' + resumed ≤ work e) × ((kept : List Job) × (e'.jobs ≡ kept ++ rest))
  IsRound resumed e rest (stops e') = IsTallied e' × (work e' < work e)
  IsRound resumed e rest (runs_out e') = ⊥

  module _ (tired : Tires calls left) (kept : List Job) (job : Job) (rest : List Job) where
    done_with :
        (status : Status) (e : Engine World)
        → e.jobs ≡ kept ++ job ∷ rest
        → IsTallied e
        → IsTallied (set_status job.target status (take_off job e))
          × (work (set_status job.target status (take_off job e)) + 1 ≡ work e)
          × (remove_job job.id e.jobs ≡ kept ++ rest)
    done_with status e same t =
        let others = remove_job-middle e.jobs kept job rest e.count e.pos same t in
        let fewer : running_jobs (remove_job job.id e.jobs) ≡ running_jobs (kept ++ rest) =
          ap running_jobs others in
        let all : running_jobs e.jobs ≡ running_jobs (kept ++ job ∷ rest) = ap running_jobs same in
        let one = running_jobs-middle kept job rest in
        (IsTally-remove e.jobs kept job rest e.count e.pos same t, omega arith, others)

    after_resume-Round :
        (exit : Engine World → Went World Unit) (bound : ℕ) (waiting : List ℕ) (back : Resumed)
        (world : World) (e : Engine World)
        → Exits bound exit
        → e.jobs ≡ kept ++ job ∷ rest
        → IsTallied e
        → work e ≤ bound
        → IsTired World left (left e.world) (back, world)
        → IsRound 1 e rest (after_resume exit job waiting back (record e { world = world }))
    unfolding after_resume
    after_resume-Round exit bound waiting (raised false) world e exits same t le tire =
        let x : Engine World = record e { world = world } in
        let (t', less, others) = done_with error x same t in (t', omega (arith, less, tire))
    after_resume-Round exit bound waiting (raised true) world e exits same t le tire =
        let x : Engine World = record e { world = world } in
        let (t', less, others) = done_with error x same t in
        go others less (exit (set_status job.target error (take_off job x)))
          (exits (set_status job.target error (take_off job x)) t' (omega (arith, less, tire, le)))
      where
        go :
            remove_job job.id e.jobs ≡ kept ++ rest
            → work (
                  set_status job.target error
                    (take_off job (let x : Engine World = record e { world = world } in x)))
                + 1
              ≡ left world + running_jobs e.jobs
            → (w : Went World Unit)
            → IsExit
                (set_status job.target error
                  (take_off job (let x : Engine World = record e { world = world } in x)))
                w
            → IsRound 1 e rest (and_then w (λ u e'. goes waiting e'))
        go others less (goes u e') (t', js, le') =
            (t', omega (arith, less, tire, le'), (kept, js ∙ others))
        go others less (stops e') (t', le') = (t', omega (arith, less, tire, le'))
        go others less (runs_out e') absent = absurd absent
    after_resume-Round exit bound waiting dead world e exits same t le tire =
        let x : Engine World = record e { world = world } in
        let (t', less, others) = done_with updated x same t in
        (t', omega (arith, less, tire), (kept, others))
    after_resume-Round exit bound waiting (yielded true) world e exits same t le tire =
        (t, omega (arith, tire), still_running e.jobs kept job rest same)
    after_resume-Round exit bound waiting (yielded false) world e exits same t le tire =
        (t, omega (arith, tire), still_running e.jobs kept job rest same)

  pub resume_all-Round :
      (tired : Tires calls left) (exit : Engine World → Went World Unit) (bound : ℕ)
      (kept jobs : List Job) (waiting : List ℕ)
      → Exits bound exit
      → (e : Engine World) → e.jobs ≡ kept ++ jobs
      → IsTallied e
      → work e ≤ bound
      → IsRound (running_jobs jobs) e [] (resume_all calls exit jobs waiting e)
  unfolding resume_all resume_job
  resume_all-Round tired exit bound kept [] waiting exits e same t le =
      (t, omega arith, (kept, same))
  resume_all-Round tired exit bound kept (job ∷ jobs) waiting exits e same t le =
      let (back, world) = resume job.id e.world in
      go (after_resume exit job waiting back (record e { world = world }))
        (after_resume-Round tired kept job jobs exit bound waiting back world e exits same t le
          (tired.tires job.id e.world))
        (λ kept' waiting'. resume_all-Round tired exit bound kept' jobs waiting' exits)
    where
      first :
          (e' : Engine World) (w : Went World (List ℕ))
          → work e' + 1 ≤ work e
          → IsRound (running_jobs jobs) e' [] w
          → IsRound (running_jobs (job ∷ jobs)) e [] w
      first e' (goes waiting' x) less (t', le', k) = (t', omega (arith, less, le'), k)
      first e' (stops x) less (t', lt') = (t', omega (arith, less, lt'))
      first e' (runs_out x) less absent = absent

      go :
          (w : Went World (List ℕ))
          → IsRound 1 e jobs w
          → ((kept' : List Job) (waiting' : List ℕ) (e' : Engine World)
              → e'.jobs ≡ kept' ++ jobs
              → IsTallied e'
              → work e' ≤ bound
              → IsRound (running_jobs jobs) e' [] (resume_all calls exit jobs waiting' e'))
          → IsRound (running_jobs (job ∷ jobs)) e [] (and_then w (resume_all calls exit jobs))
      go (goes waiting' e') (t', less, (kept', js)) more =
          first e' (resume_all calls exit jobs waiting' e') less
            (more kept' waiting' e' js t' (omega (arith, less, le)))
      go (stops e') h more = h
      go (runs_out e') absent more = absurd absent
