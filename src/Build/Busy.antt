-- ===== src/Build/Busy.antt =====
-- lua/mkinit.lua: the steps of the build engine; an invariant of the jobs that run and of the statuses.
use presto_build.Base.{
  ℕ, ◌+◌, ◌≡◌, ◌≢◌, ◌⊎◌, inl, inr, refl, sym, subst, ap, ◌∙◌, List, [], ◌∷◌, ◌++◌, true,
}
use presto_build.Build.Target.{Status, unchanged, running, error, target_of}
use presto_build.Build.Engine.{BuildCalls, Job, Engine, target_status, set_status}
use presto_build.Build.Jobs.{remove_job, take_off}
use presto_build.Build.Tally.{IsTally, IsTally-up, IsTally-add, IsTally-remove, remove_job-middle}
use presto_build.Build.Steps.{
  is_final, Move, noted, failed, began, ended, moved, gave_up, asked, Steps, stay, later,
}
use presto_build.Build.Frames.{modify-command, modify-note, status_after, IsStarted, start-Started}
use presto_build.Build.Matches.{
  HasJob, OneEach, HasJob-add, has_more, has_last, OneEach-add, HasJob-middle, has_around,
  OneEach-middle,
}

-- The targets whose status is `running` are those of the jobs that run, each of one job; `make.jobs.count` is
-- the number of these, and their own numbers rise.
pub record IsBusy {W : Type 0} (e : Engine W) : Type 0 where
  pub tally : IsTally e.jobs e.count e.pos
  pub each : OneEach e.jobs
  pub matches :
      (n : List ℕ)
      → (target_status e n ≡ running → HasJob e.jobs n)
        × (HasJob e.jobs n → target_status e n ≡ running)

module _ {W : Type 0} where
  -- The jobs are the same, and no status has come to be `running` or was.
  IsBusy-same :
      (x y : Engine W)
      → y.jobs ≡ x.jobs
      → y.count ≡ x.count
      → IsTally x.jobs x.count y.pos
      → ((n : List ℕ)
          → (target_status y n ≡ target_status x n)
            ⊎ (target_status x n ≢ running) × (target_status y n ≢ running))
      → IsBusy x
      → IsBusy y
  IsBusy-same x y same count tally status busy = record {
    tally =
        subst (λ js. IsTally js y.count y.pos) (sym same)
          (subst (λ c. IsTally x.jobs c y.pos) (sym count) tally);
    each = subst OneEach (sym same) busy.each;
    matches = λ n.
        subst
          (λ js.
            (target_status y n ≡ running → HasJob js n)
            × (HasJob js n → target_status y n ≡ running))
          (sym same)
          (elim (status n) [
            | inl e ↦ ((λ h. (busy.matches n).0 (sym e ∙ h)), λ has. e ∙ (busy.matches n).1 has)
            | inr (old, new) ↦ ((λ h. absurd (new h)), λ has. absurd (old ((busy.matches n).1 has)))
          ]);
  }

  -- A status that was not `running` and is not written so.
  not_run :
      (x : Engine W) (name : List ℕ) (status : Status)
      → target_status x name ≢ running
      → status ≢ running
      → (n : List ℕ)
      → ((target_of (set_status name status x).targets n).status ≡ target_status x n)
        ⊎ (target_status x n ≢ running)
          × ((target_of (set_status name status x).targets n).status ≢ running)
  not_run x name status old new n = elim (status_after name n status x.targets) [
    | inl (same, inl is) ↦
        inr ((λ h. old (ap (target_status x) (sym same) ∙ h)), λ h. new (sym is ∙ h))
    | inl (same, inr is) ↦ inr ((λ h. old (ap (target_status x) (sym same) ∙ h)), λ h. cc)
    | inr (other, is) ↦ inl is
  ]

module _ (calls : BuildCalls) where
  open calls use {World}

  began-IsBusy :
      (name : List ℕ) (x y : Engine World)
      → target_status x name ≡ unchanged
      → (target_of x.targets name).has_command ≡ true
      → IsStarted calls name x y
      → IsBusy x
      → IsBusy y
  began-IsBusy name x y unset command s busy = elim s.same_jobs [
    | inl (other, jobs, count) ↦
        IsBusy-same x y jobs count
          (subst (IsTally x.jobs x.count) (sym s.next) (IsTally-up x.jobs x.count x.pos busy.tally))
          (λ n.
            subst
              (λ ts.
                ((target_of ts n).status ≡ target_status x n)
                ⊎ (target_status x n ≢ running) × ((target_of ts n).status ≢ running))
              (sym s.same_targets) (not_run x name s.status (λ h. cc) other n))
          busy
    | inr (runs, jobs, count) ↦ record {
      tally =
          subst (λ js. IsTally js y.count y.pos) (sym jobs)
            (subst (λ c. IsTally (x.jobs ++ job ∷ []) c y.pos) (sym count)
              (subst (IsTally (x.jobs ++ job ∷ []) (x.count + 1)) (sym s.next)
                (IsTally-add x.jobs x.count x.pos job refl busy.tally)));
      each = subst OneEach (sym jobs) (OneEach-add x.jobs job (λ has. none_yet has) busy.each);
      matches = λ n.
          subst
            (λ js.
              (target_status y n ≡ running → HasJob js n)
              × (HasJob js n → target_status y n ≡ running))
            (sym jobs)
            (subst
              (λ ts.
                ((target_of ts n).status ≡ running → HasJob (x.jobs ++ job ∷ []) n)
                × (HasJob (x.jobs ++ job ∷ []) n → (target_of ts n).status ≡ running))
              (sym s.same_targets) (now runs n));
    }
  ]
    where
      job : Job
      job = record { id = x.pos + 1; target = name }

      none_yet : HasJob x.jobs name → ⊥
      none_yet has = let h = (busy.matches name).1 has in cc

      now :
          s.status ≡ running
          → (n : List ℕ)
          → ((target_of (set_status name s.status x).targets n).status ≡ running
              → HasJob (x.jobs ++ job ∷ []) n)
            × (HasJob (x.jobs ++ job ∷ []) n
                → (target_of (set_status name s.status x).targets n).status ≡ running)
      now runs n = (
        (λ h. elim (status_after name n s.status x.targets) [
          | inl (same, is) ↦ subst (HasJob (x.jobs ++ job ∷ [])) (sym same) (has_last x.jobs job)
          | inr (other, is) ↦ has_more x.jobs job n ((busy.matches n).0 (sym is ∙ h))
        ]),
        λ has. elim (HasJob-add x.jobs job n has) [
          | inr same ↦
              subst (λ m. (target_of (set_status name s.status x).targets m).status ≡ running) same
                (modify-command name s.status x.targets command ∙ runs)
          | inl old ↦ elim (status_after name n s.status x.targets) [
            | inl (same, is) ↦ absurd (none_yet (subst (HasJob x.jobs) same old))
            | inr (other, is) ↦ is ∙ (busy.matches n).1 old
          ]
        ],
      )

  ended-IsBusy :
      (x : Engine World) (job : Job) (status : Status) (before after : List Job)
      → x.jobs ≡ before ++ job ∷ after
      → is_final status ≡ true
      → IsBusy x
      → IsBusy (set_status job.target status (take_off job x))
  ended-IsBusy x job status before after runs final busy =
      let (each, alone) = OneEach-middle before job after (subst OneEach runs busy.each) in
      record {
        tally = IsTally-remove x.jobs before job after x.count x.pos runs busy.tally;
        each = subst OneEach (sym left_jobs) each;
        matches = λ n.
            subst
              (λ js.
                ((target_of (set_status job.target status x).targets n).status ≡ running
                  → HasJob js n)
                × (HasJob js n
                    → (target_of (set_status job.target status x).targets n).status ≡ running))
              (sym left_jobs) (now alone n);
      }
    where
      left_jobs : remove_job job.id x.jobs ≡ before ++ after
      left_jobs = remove_job-middle x.jobs before job after x.count x.pos runs busy.tally

      not_running : (s : Status) → is_final s ≡ true → s ≢ running
      not_running s h same = cc (h, ap is_final same)

      now :
          (HasJob (before ++ after) job.target → ⊥)
          → (n : List ℕ)
          → ((target_of (set_status job.target status x).targets n).status ≡ running
              → HasJob (before ++ after) n)
            × (HasJob (before ++ after) n
                → (target_of (set_status job.target status x).targets n).status ≡ running)
      now alone n = (
        (λ h. elim (status_after job.target n status x.targets) [
          | inl (same, inl is) ↦ absurd (not_running status final (sym is ∙ h))
          | inl (same, inr is) ↦ cc
          | inr (other, is) ↦
              elim (HasJob-middle before job after n
                (subst (λ js. HasJob js n) runs ((busy.matches n).0 (sym is ∙ h)))) [
                  | inl same ↦ absurd (other (sym same))
                  | inr has ↦ has
                ]
        ]),
        λ has. elim (status_after job.target n status x.targets) [
          | inl (same, is) ↦ absurd (alone (subst (HasJob (before ++ after)) same has))
          | inr (other, is) ↦
              is
              ∙ (busy.matches n).1
                  (subst (λ js. HasJob js n) (sym runs) (has_around before job after n has))
        ],
      )

  module _ (P : List ℕ → Type 0) where
    Move-IsBusy : {x y : Engine World} → Move calls P x y → IsBusy x → IsBusy y
    Move-IsBusy {x} {y} (noted name f note) busy =
        IsBusy-same x y refl refl busy.tally
          (λ n. inl (modify-note name n f x.targets note.keeps_status)) busy
    Move-IsBusy {x} {y} (failed name p unset) busy =
        IsBusy-same x y refl refl busy.tally (not_run x name error (λ h. cc) (λ h. cc)) busy
    Move-IsBusy {x} {y} (began name p unset command ask) busy =
        began-IsBusy name x y unset command (start-Started calls name x) busy
    Move-IsBusy {x} {y} (ended job status before after runs p final) busy =
        ended-IsBusy x job status before after runs final busy
    Move-IsBusy {x} {y} (moved world) busy =
        IsBusy-same x y refl refl busy.tally (λ n. inl refl) busy
    Move-IsBusy {x} {y} gave_up busy = IsBusy-same x y refl refl busy.tally (λ n. inl refl) busy
    Move-IsBusy {x} {y} (asked goals) busy =
        IsBusy-same x y refl refl busy.tally (λ n. inl refl) busy

    pub Steps-IsBusy : {x y : Engine World} → Steps calls P x y → IsBusy x → IsBusy y
    Steps-IsBusy stay busy = busy
    Steps-IsBusy (later steps step) busy = Move-IsBusy step (Steps-IsBusy steps busy)
