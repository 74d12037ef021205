-- ===== src/Build/Tally.antt =====
-- lua/mkinit.lua, `make.jobs.running` and `make.jobs.count`: what it is for the count to be right, and lemmas.
use presto_build.Base.{
  ℕ, ◌+◌, ◌-◌, ◌<◌, ◌≤◌, ◌≡◌, refl, sym, subst, ap, ◌∙◌, ◌==◌, ==_iff, ne→==, List, [], ◌∷◌, ◌++◌,
  true, false, arith,
}
use presto_build.Build.Engine.{Job, running_jobs}
use presto_build.Build.Jobs.{remove_job}

-- The numbers of the jobs rise, from more than `low` to at most `high`.
abbrev pub Between : ℕ → ℕ → List Job → Type 0
Between low high [] = low ≤ high
Between low high (job ∷ jobs) = (low < job.id) × Between job.id high jobs

pub record IsTally (jobs : List Job) (count pos : ℕ) : Type 0 where
  pub rising : Between 0 pos jobs
  pub counted : running_jobs jobs ≡ count

Between-up : (low high : ℕ) (jobs : List Job) → Between low high jobs → Between low (high + 1) jobs
Between-up low high [] le = omega arith
Between-up low high (job ∷ jobs) (lt, b) = (lt, Between-up job.id high jobs b)

Between-le : (low high : ℕ) (jobs : List Job) → Between low high jobs → low ≤ high
Between-le low high [] le = le
Between-le low high (job ∷ jobs) (lt, b) = let le = Between-le job.id high jobs b in omega arith

Between-add :
    (low high : ℕ) (jobs : List Job) (job : Job)
    → job.id ≡ high + 1
    → Between low high jobs
    → Between low (high + 1) (jobs ++ job ∷ [])
Between-add low high [] job same le = (omega arith, omega arith)
Between-add low high (x ∷ jobs) job same (lt, b) = (lt, Between-add x.id high jobs job same b)

pub running_jobs-add :
    (jobs : List Job) (job : Job) → running_jobs (jobs ++ job ∷ []) ≡ running_jobs jobs + 1
running_jobs-add [] job = refl
running_jobs-add (x ∷ jobs) job = let ih = running_jobs-add jobs job in omega arith

pub IsTally-up :
    (jobs : List Job) (count pos : ℕ) → IsTally jobs count pos → IsTally jobs count (pos + 1)
IsTally-up jobs count pos t = record {
  rising = Between-up 0 pos jobs t.rising;
  counted = t.counted;
}

pub IsTally-add :
    (jobs : List Job) (count pos : ℕ) (job : Job)
    → job.id ≡ pos + 1
    → IsTally jobs count pos
    → IsTally (jobs ++ job ∷ []) (count + 1) (pos + 1)
IsTally-add jobs count pos job same t = record {
  rising = Between-add 0 pos jobs job same t.rising;
  counted = let more = running_jobs-add jobs job in let all = t.counted in omega arith;
}

Between-less :
    (low mid high : ℕ) (jobs : List Job) → low ≤ mid → Between mid high jobs → Between low high jobs
Between-less low mid high [] le b = omega arith
Between-less low mid high (job ∷ jobs) le (lt, b) = (omega arith, b)

-- A job above a number is kept when the job of that number is removed.
remove_above : (id high : ℕ) (jobs : List Job) → Between id high jobs → remove_job id jobs ≡ jobs
remove_above id high [] b = refl
remove_above id high (job ∷ jobs) (lt, b) =
    let other : (job.id == id) ≡ false = ne→== job.id id (λ same. omega arith) in
    rw (other, remove_above id high jobs (Between-less id job.id high jobs (omega arith) b)) refl

Between-below :
    (low high : ℕ) (kept : List Job) (job : Job) (rest : List Job)
    → Between low high (kept ++ job ∷ rest)
    → low < job.id
Between-below low high [] job rest (lt, b) = lt
Between-below low high (x ∷ kept) job rest (lt, b) =
    let more = Between-below x.id high kept job rest b in omega arith

remove_middle :
    (low high : ℕ) (kept : List Job) (job : Job) (rest : List Job)
    → Between low high (kept ++ job ∷ rest)
    → remove_job job.id (kept ++ job ∷ rest) ≡ kept ++ rest
remove_middle low high [] job rest (lt, b) =
    let same : (job.id == job.id) ≡ true = (==_iff job.id job.id).1 refl in
    rw same (remove_above job.id high rest b)
remove_middle low high (x ∷ kept) job rest (lt, b) =
    let below = Between-below x.id high kept job rest b in
    let other : (x.id == job.id) ≡ false = ne→== x.id job.id (λ same. omega arith) in
    rw (other, remove_middle x.id high kept job rest b) refl

Between-middle :
    (low high : ℕ) (kept : List Job) (job : Job) (rest : List Job)
    → Between low high (kept ++ job ∷ rest)
    → Between low high (kept ++ rest)
Between-middle low high [] job rest (lt, b) = Between-less low job.id high rest (omega arith) b
Between-middle low high (x ∷ kept) job rest (lt, b) = (lt, Between-middle x.id high kept job rest b)

pub running_jobs-middle :
    (kept : List Job) (job : Job) (rest : List Job)
    → running_jobs (kept ++ job ∷ rest) ≡ running_jobs (kept ++ rest) + 1
running_jobs-middle [] job rest = omega arith
running_jobs-middle (x ∷ kept) job rest = let ih = running_jobs-middle kept job rest in omega arith

-- A running job is taken off.
pub remove_job-middle :
    (jobs kept : List Job) (job : Job) (rest : List Job) (count pos : ℕ)
    → jobs ≡ kept ++ job ∷ rest
    → IsTally jobs count pos
    → remove_job job.id jobs ≡ kept ++ rest
remove_job-middle jobs kept job rest count pos e t =
    ap (remove_job job.id) e ∙ remove_middle 0 pos kept job rest (subst (Between 0 pos) e t.rising)

pub IsTally-remove :
    (jobs kept : List Job) (job : Job) (rest : List Job) (count pos : ℕ)
    → jobs ≡ kept ++ job ∷ rest
    → IsTally jobs count pos
    → IsTally (remove_job job.id jobs) (count - 1) pos
IsTally-remove jobs kept job rest count pos e t =
    subst (λ js. IsTally js (count - 1) pos)
      (sym (remove_job-middle jobs kept job rest count pos e t))
      (record {
        rising = Between-middle 0 pos kept job rest (subst (Between 0 pos) e t.rising);
        counted =
            let one_more = running_jobs-middle kept job rest in
            let all : running_jobs (kept ++ job ∷ rest) ≡ count =
              ap running_jobs (sym e) ∙ t.counted in
            omega arith;
      })

-- A job that goes on is one of those that were resumed.
pub still_running :
    (jobs kept : List Job) (job : Job) (rest : List Job)
    → jobs ≡ kept ++ job ∷ rest
    → (k : List Job) × (jobs ≡ k ++ rest)
still_running jobs kept job rest same = (kept ++ job ∷ [], same ∙ move kept)
  where
    move : (ks : List Job) → (ks ++ job ∷ rest) ≡ ((ks ++ job ∷ []) ++ rest)
    move [] = refl
    move (k ∷ ks) = ap (λ l. k ∷ l) (move ks)
