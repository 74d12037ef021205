-- ===== src/Build/Rounds.antt =====
-- lua/mkinit.lua, `make.jobs.dispatch`: proofs on one round of resumes.
use presto_build.Base.{ℕ, ◌-◌, ◌≤◌, ◌≡◌, ◌∙◌, List, [], ◌∷◌, ◌++◌, true, false, arith}
use presto_build.Build.Target.{Status, updated, error}
use presto_build.Build.Engine.{BuildCalls, Resumed, raised, dead, yielded, Job, Engine, set_status}
use presto_build.Build.Jobs.{
  Went, goes, stops, runs_out, and_then, remove_job, take_off, after_resume, resume_job, resume_all,
}
use presto_build.Build.Tally.{IsTally-remove, remove_job-middle, still_running}
use presto_build.Build.Safe.{IsSafe}

-- Every start so far was right, however the part of the loop ended; where it ended with a value, at most
-- `most` jobs run.
abbrev pub IsKept : {W A : Type 0} → ℕ → ℕ → Went W A → Type 0
IsKept slots most (goes a e) = IsSafe slots e × (e.count ≤ most)
IsKept slots most (stops e) = IsSafe slots e
IsKept slots most (runs_out e) = IsSafe slots e

-- `f` frees a slot.
abbrev pub Frees : {W A : Type 0} → ℕ → (Engine W → Went W A) → Type 0
Frees {W} slots f = (e : Engine W) → IsSafe slots e → IsKept slots (slots - 1) (f e)

pub and_then-Kept :
    {W A B : Type 0} (slots most most' : ℕ) (w : Went W A) (f : A → Engine W → Went W B)
    → IsKept slots most w
    → ((a : A) (e : Engine W) → IsSafe slots e → e.count ≤ most → IsKept slots most' (f a e))
    → IsKept slots most' (and_then w f)
and_then-Kept slots most most' (goes a e) f (safe, le) h = h a e safe le
and_then-Kept slots most most' (stops e) f safe h = safe
and_then-Kept slots most most' (runs_out e) f safe h = safe

pub any_end :
    {W A : Type 0} (slots most most' : ℕ) (w : Went W A)
    → most ≤ most'
    → IsKept slots most w
    → IsKept slots most' w
any_end slots most most' (goes a e) le (safe, le') = (safe, omega arith)
any_end slots most most' (stops e) le safe = safe
any_end slots most most' (runs_out e) le safe = safe

-- `f` keeps the starts right, and where it ends with a value the jobs are as before.
abbrev pub IsQuiet : {W A : Type 0} → ℕ → Engine W → Went W A → Type 0
IsQuiet slots before (goes a e) = IsSafe slots e × (e.count ≤ before.count) × (e.jobs ≡ before.jobs)
IsQuiet slots before (stops e) = IsSafe slots e
IsQuiet slots before (runs_out e) = IsSafe slots e

abbrev pub Quiet : {W A : Type 0} → ℕ → (Engine W → Went W A) → Type 0
Quiet {W} slots f = (e : Engine W) → IsSafe slots e → IsQuiet slots e (f e)

-- After some jobs were resumed, those that are to come still run; at most `most` jobs run.
abbrev IsResumed : {W A : Type 0} → ℕ → ℕ → List Job → Went W A → Type 0
IsResumed slots most rest (goes a e) =
    IsSafe slots e × (e.count ≤ most) × ((kept : List Job) × (e.jobs ≡ kept ++ rest))
IsResumed slots most rest (stops e) = IsSafe slots e
IsResumed slots most rest (runs_out e) = IsSafe slots e

-- A part that never ends with a value.
abbrev pub IsStopped : {W A : Type 0} → ℕ → Went W A → Type 0
IsStopped slots (goes a e) = ⊥
IsStopped slots (stops e) = IsSafe slots e
IsStopped slots (runs_out e) = IsSafe slots e

module _ {W : Type 0} (slots : ℕ) (kept : List Job) (job : Job) (rest : List Job) where
  finished :
      (status : Status) (e : Engine W)
      → e.jobs ≡ kept ++ job ∷ rest
      → IsSafe slots e
      → IsSafe slots (set_status job.target status (take_off job e))
  finished status e same safe = record {
    right = safe.right;
    same_slots = safe.same_slots;
    tally = IsTally-remove e.jobs kept job rest e.count e.pos same safe.tally;
  }

  others :
      (e : Engine W)
      → e.jobs ≡ kept ++ job ∷ rest
      → IsSafe slots e
      → remove_job job.id e.jobs ≡ kept ++ rest
  others e same safe = remove_job-middle e.jobs kept job rest e.count e.pos same safe.tally

  after_resume-Resumed :
      (exit : Engine W → Went W Unit) (waiting : List ℕ) (back : Resumed)
      → Quiet slots exit
      → (e : Engine W) → e.jobs ≡ kept ++ job ∷ rest
      → IsSafe slots e
      → IsResumed slots e.count rest (after_resume exit job waiting back e)
  unfolding after_resume
  after_resume-Resumed exit waiting (raised false) quiet e same safe = finished error e same safe
  after_resume-Resumed exit waiting (raised true) quiet e same safe =
      go (exit (set_status job.target error (take_off job e)))
        (quiet (set_status job.target error (take_off job e)) (finished error e same safe))
    where
      go :
          (w : Went W Unit)
          → IsQuiet slots (set_status job.target error (take_off job e)) w
          → IsResumed slots e.count rest (and_then w (λ u e'. goes waiting e'))
      go (goes u e') (safe', le, js) = (safe', omega arith, (kept, js ∙ others e same safe))
      go (stops e') safe' = safe'
      go (runs_out e') safe' = safe'
  after_resume-Resumed exit waiting dead quiet e same safe =
      (finished updated e same safe, omega arith, (kept, others e same safe))
  after_resume-Resumed exit waiting (yielded true) quiet e same safe =
      (safe, omega arith, still_running e.jobs kept job rest same)
  after_resume-Resumed exit waiting (yielded false) quiet e same safe =
      (safe, omega arith, still_running e.jobs kept job rest same)

module _ (calls : BuildCalls) (slots : ℕ) where
  open calls use {World, resume, wait}

  pub resume_all-Kept :
      (exit : Engine World → Went World Unit) (kept jobs : List Job) (waiting : List ℕ)
      → Quiet slots exit
      → (e : Engine World) → e.jobs ≡ kept ++ jobs
      → IsSafe slots e
      → IsKept slots e.count (resume_all calls exit jobs waiting e)
  unfolding resume_all resume_job
  resume_all-Kept exit kept [] waiting quiet e same safe = (safe, omega arith)
  resume_all-Kept exit kept (job ∷ jobs) waiting quiet e same safe =
      let (back, world) = resume job.id e.world in
      go (after_resume exit job waiting back (record e { world = world }))
        (after_resume-Resumed slots kept job jobs exit waiting back quiet
          (record e { world = world }) same
          (record { right = safe.right; same_slots = safe.same_slots; tally = safe.tally }))
        (λ kept' waiting'. resume_all-Kept exit kept' jobs waiting' quiet)
    where
      go :
          (w : Went World (List ℕ))
          → IsResumed slots e.count jobs w
          → ((kept' : List Job) (waiting' : List ℕ) (e' : Engine World)
              → e'.jobs ≡ kept' ++ jobs
              → IsSafe slots e'
              → IsKept slots e'.count (resume_all calls exit jobs waiting' e'))
          → IsKept slots e.count (and_then w (resume_all calls exit jobs))
      go (goes waiting' e') (safe', le, (kept', js)) more =
          any_end slots e'.count e.count (resume_all calls exit jobs waiting' e') le
            (more kept' waiting' e' js safe')
      go (stops e') safe' more = safe'
      go (runs_out e') safe' more = safe'
