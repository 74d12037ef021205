-- ===== src/Build/Jobs.antt =====
-- lua/mkinit.lua: `make.jobs.dispatch` and `make.exit`. Jobs are resumed in the order of their start; the
-- messages that are printed are left out.
use presto_build.Base.{
  ℕ, zero, suc, ◌-◌, ltb, ◌==◌, List, [], ◌∷◌, ◌++◌, true, false, not, ◌&&◌, if◌then◌else◌,
}
use presto_build.Build.Target.{updated, error}
use presto_build.Build.Engine.{BuildCalls, Resumed, raised, dead, yielded, Job, Engine, set_status}

-- How a part of the main loop ends: with a value, with an error, or without fuel. The error
-- is "Stop.", but where make.error does not print its argument and for a goal whose name has a backslash.
pub data Went (W A : Type 0) : Type 0 where
  goes : A → Engine W → Went W A
  stops : Engine W → Went W A
  runs_out : Engine W → Went W A

abbrev pub and_then : {W A B : Type 0} → Went W A → (A → Engine W → Went W B) → Went W B
and_then (goes a e) f = f a e
and_then (stops e) f = stops e
and_then (runs_out e) f = runs_out e

-- make.jobs.running[jobid] = nil
abbrev pub remove_job : ℕ → List Job → List Job
remove_job id [] = []
remove_job id (job ∷ jobs) =
    let rest = remove_job id jobs in if job.id == id then rest else job ∷ rest

-- The job is no longer running, and its target has the status.
abbrev pub take_off : {W : Type 0} → Job → Engine W → Engine W
take_off job e = record e { jobs = remove_job job.id e.jobs; count = e.count - 1 }

-- What follows a resume; `exit` is make.exit().
unfoldable pub after_resume :
    {W : Type 0} → (Engine W → Went W Unit) → Job → List ℕ → Resumed → Engine W → Went W (List ℕ)
after_resume exit job waiting (raised true) e =
    and_then (exit (set_status job.target error (take_off job e))) (λ u e'. goes waiting e')
after_resume exit job waiting (raised false) e =
    stops (set_status job.target error (take_off job e))
after_resume exit job waiting dead e = goes waiting (set_status job.target updated (take_off job e))
after_resume exit job waiting (yielded true) e = goes (waiting ++ job.id ∷ []) e
after_resume exit job waiting (yielded false) e = goes waiting e

module _ (calls : BuildCalls) where
  open calls use {World, resume, wait}

  unfoldable pub resume_job :
      (Engine World → Went World Unit) → Job → List ℕ → Engine World → Went World (List ℕ)
  resume_job exit job waiting e =
      let (back, world) = resume job.id e.world in
      after_resume exit job waiting back (record e { world = world })

  -- The loop over the jobs that run at its start.
  unfoldable pub resume_all :
      (Engine World → Went World Unit) → List Job → List ℕ → Engine World → Went World (List ℕ)
  resume_all exit [] waiting e = goes waiting e
  resume_all exit (job ∷ jobs) waiting e =
      and_then (resume_job exit job waiting e) (resume_all exit jobs)

  -- `pcall(make.jobs.dispatch)` while jobs run; then "Stop." is raised.
  unfoldable pub drain : (Engine World → Went World Unit) → ℕ → Engine World → Went World Unit
  drain dispatch zero e = runs_out e
  drain dispatch (suc fuel) e = if e.count == 0 then stops e else (elim (dispatch e) [
    | goes u e' ↦ drain dispatch fuel e'
    | stops e' ↦ drain dispatch fuel e'
    | runs_out e' ↦ runs_out e'
  ])

  -- `make.exit`
  unfoldable pub make_exit : (Engine World → Went World Unit) → ℕ → Engine World → Went World Unit
  make_exit dispatch fuel e =
      if e.flags.keep_going then goes tt (record e { failure = true }) else drain dispatch fuel e

  -- One turn of the loop of dispatch, after the jobs were resumed: `before` is job_count.
  unfoldable pub after_round :
      (Engine World → Went World Unit) → ℕ → List ℕ → Engine World → Went World Unit
  after_round again before waiting e =
      if not (before == e.count) && ltb e.count e.slots
      then goes tt e
      else if before == 0
      then goes tt e
      else again (record e { world = wait waiting e.world })

  -- `make.jobs.dispatch`
  unfoldable pub dispatch : ℕ → Engine World → Went World Unit
  dispatch zero e = runs_out e
  dispatch (suc fuel) e =
      and_then (resume_all (make_exit (dispatch fuel) fuel) e.jobs [] e)
        (after_round (dispatch fuel) e.count)
