-- ===== src/Build/Lessens.antt =====
-- lua/mkinit.lua, `make.jobs.dispatch` without keep_going: proofs on the targets where it comes back with a value.
use mathlib.Core.List.{Memᴰ}
use presto_build.Base.{
  ℕ, zero, suc, ◌≡◌, ◌⊎◌, inl, inr, refl, sym, ap, ◌∙◌, subst, ltb, ◌==◌, List, [], ◌∷◌, ◌++◌, Bool,
  true, false, not, ◌&&◌, if◌then◌else◌,
}
use presto_build.Build.Target.{updated, running, error, target_of}
use presto_build.Build.Engine.{BuildCalls, Resumed, raised, dead, yielded, Job, Engine, set_status}
use presto_build.Build.Jobs.{
  Went, goes, stops, runs_out, and_then, take_off, after_resume, resume_job, resume_all, drain,
  make_exit, after_round, dispatch,
}
use presto_build.Build.Tally.{remove_job-middle, still_running}
use presto_build.Build.Steps.{stay, later, ended, moved}
use presto_build.Build.Frames.{modify-status}
use presto_build.Build.Matches.{HasJob, has_middle}
use presto_build.Build.Busy.{IsBusy, Steps-IsBusy}
use presto_build.Build.Runs.{Anywhere}
use presto_build.Build.Waits.{status_in, Waits, runs, waits, deps-modify, NoError}

-- From one state to another only commands have ended, and without an error.
pub record Shrinks {W : Type 0} (x y : Engine W) : Type 0 where
  pub same_goals : y.goals ≡ x.goals
  pub same_flags : y.flags ≡ x.flags
  pub same_started : y.started ≡ x.started
  pub same_deps : (n : List ℕ) → (target_of y.targets n).deps ≡ (target_of x.targets n).deps
  pub status :
      (n : List ℕ)
      → (status_in y.targets n ≡ status_in x.targets n)
        ⊎ (status_in x.targets n ≡ running) × (status_in y.targets n ≡ updated)

module _ {W : Type 0} where
  pub Shrinks-refl : (x : Engine W) → Shrinks x x
  Shrinks-refl x = record {
    same_goals = refl;
    same_flags = refl;
    same_started = refl;
    same_deps = λ n. refl;
    status = λ n. inl refl;
  }

  Shrinks-trans : (x y z : Engine W) → Shrinks x y → Shrinks y z → Shrinks x z
  Shrinks-trans x y z a b = record {
    same_goals = b.same_goals ∙ a.same_goals;
    same_flags = b.same_flags ∙ a.same_flags;
    same_started = b.same_started ∙ a.same_started;
    same_deps = λ n. b.same_deps n ∙ a.same_deps n;
    status = λ n. elim (b.status n) [
      | inl same ↦ elim (a.status n) [
        | inl same' ↦ inl (same ∙ same')
        | inr (ran, now) ↦ inr (ran, same ∙ now)
      ]
      | inr (ran, now) ↦ elim (a.status n) [
        | inl same' ↦ inr (sym same' ∙ ran, now)
        | inr (ran', now') ↦ cc (now', ran)
      ]
    ];
  }

  -- What still runs is waited for as before.
  pub Waits-Shrinks :
      (x y : Engine W)
      → Shrinks x y
      → (g n : List ℕ) → status_in y.targets n ≡ running
      → Waits x.targets g n
      → Waits y.targets g n
  Waits-Shrinks x y s g n now (runs r) = runs now
  Waits-Shrinks x y s g n now (waits {d = d} u dep w) =
      waits (elim (s.status g) [ inl same ↦ same ∙ u | inr (ran, over) ↦ cc (u, ran) ])
        (subst (Memᴰ d) (sym (s.same_deps g)) dep) (Waits-Shrinks x y s d n now w)

  pub NoError-Shrinks : (x y : Engine W) → Shrinks x y → NoError x.targets → NoError y.targets
  NoError-Shrinks x y s none n h = elim (s.status n) [
    | inl same ↦ none n (sym same ∙ h)
    | inr (ran, over) ↦ cc (over, h)
  ]

  -- A job of a running target ended well.
  Shrinks-ended :
      (x : Engine W) (job : Job)
      → status_in x.targets job.target ≡ running
      → Shrinks x (set_status job.target updated (take_off job x))
  Shrinks-ended x job ran = record {
    same_goals = refl;
    same_flags = refl;
    same_started = refl;
    same_deps =
        λ n. deps-modify job.target n (λ t. record t { status = updated }) x.targets (λ t. refl);
    status = λ n.
        modify-status
          (λ s. (s ≡ status_in x.targets n) ⊎ (status_in x.targets n ≡ running) × (s ≡ updated))
          job.target n updated x.targets (λ same. inr (ap (status_in x.targets) same ∙ ran, refl))
          (inl refl);
  }

-- A part that does not end with a value.
abbrev pub Never : {W A : Type 0} → Went W A → Type 0
Never (goes a y) = ⊥
Never (stops y) = Unit
Never (runs_out y) = Unit

module _ (calls : BuildCalls) where
  open calls use {World}

  -- Without keep_going, `make.exit` never ends with a value.
  pub make_exit-Never :
      (dispatched : Engine World → Went World Unit) (fuel : ℕ) (y : Engine World)
      → y.flags.keep_going ≡ false
      → Never (make_exit calls dispatched fuel y)
  unfolding make_exit drain
  make_exit-Never dispatched fuel y off = go y.flags.keep_going off
    where
      drained : (fuel : ℕ) (y : Engine World) → Never (drain calls dispatched fuel y)
      drained zero y = tt
      drained (suc fuel) y = branch (y.count == 0) (dispatched y) (drained fuel)
        where
          branch :
              (b : Bool) (w : Went World Unit)
              → ((z : Engine World) → Never (drain calls dispatched fuel z))
              → Never (
                  if b then stops y else (elim w [
                    | goes u z ↦ drain calls dispatched fuel z
                    | stops z ↦ drain calls dispatched fuel z
                    | runs_out z ↦ runs_out z
                  ]))
          branch true w more = tt
          branch false (goes u z) more = more z
          branch false (stops z) more = more z
          branch false (runs_out z) more = tt

      go :
          (b : Bool)
          → b ≡ false
          → Never
              (if b then goes tt (record y { failure = true }) else drain calls dispatched fuel y)
      go true on = cc
      go false same = drained fuel y

-- A part of the run that began in `x`, without keep_going.
module _ (calls : BuildCalls) (x : Engine calls.World) (going : x.flags.keep_going ≡ false) where
  open calls use {World, resume, wait}

  abbrev pub Shrunk : {A : Type 0} → Went World A → Type 0
  Shrunk (goes a y) = Shrinks x y × IsBusy y
  Shrunk (stops y) = Unit
  Shrunk (runs_out y) = Unit

  Shrunk-Never :
      {A B : Type 0} (w : Went World A) (f : A → Engine World → Went World B)
      → Never w
      → Shrunk (and_then w f)
  Shrunk-Never (goes a y) f never = absurd never
  Shrunk-Never (stops y) f never = tt
  Shrunk-Never (runs_out y) f never = tt

  moved_on :
      (y : Engine World) (world : World)
      → Shrunk (goes tt y)
      → Shrunk (goes tt (record y { world = world }))
  moved_on y world (s, busy) = (
    Shrinks-trans x y (record y { world = world }) s
        (record {
          same_goals = refl;
          same_flags = refl;
          same_started = refl;
          same_deps = λ n. refl;
          status = λ n. inl refl;
        }),
    Steps-IsBusy calls Anywhere (later stay (moved world)) busy,
  )

  -- Some of the jobs were resumed, and the others run.
  abbrev Leads : {A : Type 0} → List Job → Went World A → Type 0
  Leads rest (goes a y) = Shrunk (goes tt y) × ((before : List Job) × (y.jobs ≡ before ++ rest))
  Leads rest (stops y) = Unit
  Leads rest (runs_out y) = Unit

  module _ (exit : Engine World → Went World Unit)
      (never : (y : Engine World) → y.flags.keep_going ≡ false → Never (exit y)) where
    after_resume-Leads :
        (before : List Job) (job : Job) (after : List Job) (waiting : List ℕ) (back : Resumed)
        (y : Engine World)
        → Shrunk (goes tt y)
        → y.jobs ≡ before ++ job ∷ after
        → Leads after (after_resume exit job waiting back y)
    unfolding after_resume
    after_resume-Leads before job after waiting (raised false) y (s, busy) are = tt
    after_resume-Leads before job after waiting (raised true) y (s, busy) are =
        go (exit (set_status job.target error (take_off job y)))
          (never _ (ap (λ flags. flags.keep_going) s.same_flags ∙ going))
      where
        go : (w : Went World Unit) → Never w → Leads after (and_then w (λ u z. goes waiting z))
        go (goes u z) absent = absurd absent
        go (stops z) fine = tt
        go (runs_out z) fine = tt
    after_resume-Leads before job after waiting dead y (s, busy) are =
        let ran : status_in y.targets job.target ≡ running =
          (busy.matches job.target).1
            (subst (λ js. HasJob js job.target) (sym are) (has_middle before job after)) in
        (
          (
            Shrinks-trans x y _ s (Shrinks-ended y job ran),
            Steps-IsBusy calls Anywhere (later stay (ended job updated before after are tt refl))
                busy,
          ),
          (before, remove_job-middle y.jobs before job after y.count y.pos are busy.tally),
        )
    after_resume-Leads before job after waiting (yielded true) y s are =
        (s, still_running y.jobs before job after are)
    after_resume-Leads before job after waiting (yielded false) y s are =
        (s, still_running y.jobs before job after are)

    resume_all-Shrunk :
        (before jobs : List Job) (waiting : List ℕ) (y : Engine World)
        → Shrunk (goes tt y)
        → y.jobs ≡ before ++ jobs
        → Shrunk (resume_all calls exit jobs waiting y)
    unfolding resume_all resume_job
    resume_all-Shrunk before [] waiting y s are = s
    resume_all-Shrunk before (job ∷ jobs) waiting y s are =
        let (back, world) = resume job.id y.world in
        go (after_resume exit job waiting back (record y { world = world }))
          (after_resume-Leads before job jobs waiting back (record y { world = world })
            (moved_on y world s) are)
          (λ before' waiting'. resume_all-Shrunk before' jobs waiting')
      where
        go :
            (w : Went World (List ℕ))
            → Leads jobs w
            → ((before' : List Job) (waiting' : List ℕ) (z : Engine World)
                → Shrunk (goes tt z)
                → z.jobs ≡ before' ++ jobs
                → Shrunk (resume_all calls exit jobs waiting' z))
            → Shrunk (and_then w (resume_all calls exit jobs))
        go (goes waiting' z) (s', (before', rest)) more = more before' waiting' z s' rest
        go (stops z) fine more = tt
        go (runs_out z) fine more = tt

  pub dispatch-Shrunk :
      (fuel : ℕ) (y : Engine World) → Shrinks x y → IsBusy y → Shrunk (dispatch calls fuel y)
  unfolding dispatch after_round
  dispatch-Shrunk zero y s busy = tt
  dispatch-Shrunk (suc fuel) y s busy =
      go (resume_all calls (make_exit calls (dispatch calls fuel) fuel) y.jobs [] y)
        (resume_all-Shrunk (make_exit calls (dispatch calls fuel) fuel)
          (make_exit-Never calls (dispatch calls fuel) fuel) [] y.jobs [] y (s, busy) refl)
        (dispatch-Shrunk fuel)
    where
      go :
          (w : Went World (List ℕ))
          → Shrunk w
          → ((z : Engine World) → Shrinks x z → IsBusy z → Shrunk (dispatch calls fuel z))
          → Shrunk (and_then w (after_round calls (dispatch calls fuel) y.count))
      go (stops z) fine more = tt
      go (runs_out z) fine more = tt
      go (goes waiting z) s' more =
          branch (not (y.count == z.count) && ltb z.count z.slots) (y.count == 0)
        where
          branch :
              (opened idle : Bool)
              → Shrunk (
                  if opened
                  then goes tt z
                  else if idle
                  then goes tt z
                  else dispatch calls fuel (record z { world = wait waiting z.world }))
          branch true idle = s'
          branch false true = s'
          branch false false =
              let (t, busy') = moved_on z (wait waiting z.world) s' in
              more (record z { world = wait waiting z.world }) t busy'
