-- ===== src/Build/Frames.antt =====
-- lua/mkinit.lua: the steps of the build engine; proofs on what they leave as it was.
use presto_build.Base.{
  ℕ, ◌+◌, ◌≡◌, ◌≢◌, ◌⊎◌, ◌++◌, refl, ◌∙◌, inl, inr, Option, none, some, List, [], ◌∷◌, map, true,
  Bool-cases, same_text, same_text_refl, eq_of_same_text, subst, sym, ap,
}
use presto_build.Build.Target.{
  Status, unchanged, updated, running, error, Target, Targets, or_fresh, target_of, changed, modify,
}
use presto_build.Build.Engine.{
  BuildCalls, Resumed, raised, dead, yielded, Start, Engine, target_status, set_status, after_begin,
  start, running_jobs,
}
use presto_build.Build.Grows.{Grows, Grows-refl, Grows-trans, Grows-modify}
use presto_build.Build.Commands.{Grows-status}
use presto_build.Build.Steps.{
  is_settled, Move, noted, failed, began, ended, moved, gave_up, asked, Steps, stay, later,
}

-- What is known of the status of a target after a status was written.
pub modify-status :
    (T : Status → Type 0) (name n : List ℕ) (status : Status) (ts : Targets)
    → ((n ≡ name) → T status)
    → T (target_of ts n).status
    → T (target_of (modify name (λ t. record t { status = status }) ts) n).status
unfolding modify
modify-status T name n status ts new old = elim (Bool-cases (same_text n name)) [
  | inl e ↦ rw e (go (ts n) old (new (eq_of_same_text n name e)))
  | inr e ↦ rw e old
]
  where
    go :
        (o : Option Target)
        → T (or_fresh o).status
        → T status
        → T (or_fresh (changed (λ t. record t { status = status }) o)).status
    go none t u = t
    go (some x) t u = u

-- The status of a target with a command is what was written.
pub modify-command :
    (name : List ℕ) (status : Status) (ts : Targets)
    → (target_of ts name).has_command ≡ true
    → (target_of (modify name (λ t. record t { status = status }) ts) name).status ≡ status
unfolding modify
modify-command name status ts command = rw (same_text_refl name) (go (ts name) command)
  where
    go :
        (o : Option Target)
        → (or_fresh o).has_command ≡ true
        → (or_fresh (changed (λ t. record t { status = status }) o)).status ≡ status
    go none h = cc
    go (some t) h = refl

-- The status of each target after a status was written; that of one that is not registered is never set.
pub status_after :
    (name n : List ℕ) (status : Status) (ts : Targets)
    → ((n ≡ name)
        × (((target_of (modify name (λ t. record t { status = status }) ts) n).status ≡ status)
            ⊎ ((target_of (modify name (λ t. record t { status = status }) ts) n).status
                ≡ unchanged)))
      ⊎ ((n ≢ name)
          × ((target_of (modify name (λ t. record t { status = status }) ts) n).status
              ≡ (target_of ts n).status))
unfolding modify
status_after name n status ts = elim (Bool-cases (same_text n name)) [
  | inl e ↦ rw e (inl (eq_of_same_text n name e, go (ts n)))
  | inr e ↦ rw e (inr ((λ same. cc (e, same, same_text_refl n)), refl))
]
  where
    go :
        (o : Option Target)
        → ((or_fresh (changed (λ t. record t { status = status }) o)).status ≡ status)
          ⊎ ((or_fresh (changed (λ t. record t { status = status }) o)).status ≡ unchanged)
    go none = inr refl
    go (some x) = inl refl

-- A note leaves the status.
pub modify-note :
    (name n : List ℕ) (f : Target → Target) (ts : Targets)
    → ((t : Target) → (f t).status ≡ t.status)
    → (target_of (modify name f ts) n).status ≡ (target_of ts n).status
unfolding modify
modify-note name n f ts same = elim (Bool-cases (same_text n name)) [
  | inl e ↦ rw e (go (ts n))
  | inr e ↦ rw e refl
]
  where
    go : (o : Option Target) → (or_fresh (changed f o)).status ≡ (or_fresh o).status
    go none = refl
    go (some t) = same t

module _ (calls : BuildCalls) where
  open calls use {World, begin}

  -- What `make.jobs.start` leaves: a status that is set, and one start more.
  pub record IsStarted (name : List ℕ) (e e' : Engine World) : Type 0 where
    pub status : Status
    pub settled : is_settled status ≡ true
    pub same_targets : e'.targets ≡ (set_status name status e).targets
    pub first : Start
    pub first_target : first.target ≡ name
    pub same_started : e'.started ≡ (first ∷ e.started)
    pub next : e'.pos ≡ e.pos + 1
    pub same_jobs :
        ((status ≢ running) × (e'.jobs ≡ e.jobs) × (e'.count ≡ e.count))
        ⊎ ((status ≡ running)
            × (e'.jobs ≡ (e.jobs ++ record { id = e.pos + 1; target = name } ∷ []))
            × (e'.count ≡ e.count + 1))

  pub start-Started : (name : List ℕ) (e : Engine World) → IsStarted name e (start calls name e).1
  unfolding start after_begin
  start-Started name e = let (back, world) = begin name (e.pos + 1) e.world in go back world
    where
      begun : World → Engine World
      begun world = record e {
        pos = e.pos + 1;
        world = world;
        started =
            record {
              target = name;
              jobs_before = running_jobs e.jobs;
              deps_before = map (target_status e) (target_of e.targets name).deps;
            }
            ∷ e.started;
      }

      go :
          (back : Resumed) (world : World)
          → IsStarted name e (after_begin name back (begun world)).1
      go (raised printed) world = record {
        status = error;
        settled = refl;
        same_targets = refl;
        first = _;
        first_target = refl;
        same_started = refl;
        next = refl;
        same_jobs = inl ((λ h. cc), refl, refl);
      }
      go dead world = record {
        status = updated;
        settled = refl;
        same_targets = refl;
        first = _;
        first_target = refl;
        same_started = refl;
        next = refl;
        same_jobs = inl ((λ h. cc), refl, refl);
      }
      go (yielded handle) world = record {
        status = running;
        settled = refl;
        same_targets = refl;
        first = _;
        first_target = refl;
        same_started = refl;
        next = refl;
        same_jobs = inr (refl, refl, refl);
      }

  module _ (P : List ℕ → Type 0) where
    Move-Grows : {x y : Engine World} → Move calls P x y → Grows x.targets y.targets
    Move-Grows {x} (noted name f note) = Grows-modify name f x.targets note.tame
    Move-Grows {x} (failed name p same) = Grows-status name error x
    Move-Grows {x} (began name p same command ask) =
        let s = start-Started name x in
        subst (Grows x.targets) (sym s.same_targets) (Grows-status name s.status x)
    Move-Grows {x} (ended job status before after runs p final) = Grows-status job.target status x
    Move-Grows {x} (moved world) = Grows-refl x.targets
    Move-Grows {x} gave_up = Grows-refl x.targets
    Move-Grows {x} (asked goals) = Grows-refl x.targets

    pub Steps-Grows : {x y : Engine World} → Steps calls P x y → Grows x.targets y.targets
    Steps-Grows {x} stay = Grows-refl x.targets
    Steps-Grows {x} (later {x = y} {y = z} steps step) =
        Grows-trans x.targets y.targets z.targets (Steps-Grows steps) (Move-Grows step)

    -- A status stays as it is where the steps do not touch it.
    module _ (n : List ℕ) (away : P n → ⊥) where
      kept :
          (x : Engine World) (name : List ℕ) (status : Status)
          → P name
          → (target_of (set_status name status x).targets n).status ≡ target_status x n
      kept x name status p =
          modify-status (λ s. s ≡ target_status x n) name n status x.targets
            (λ same. absurd (away (subst P (sym same) p))) refl

      Move-frame : {x y : Engine World} → Move calls P x y → target_status y n ≡ target_status x n
      Move-frame {x} (noted name f note) = modify-note name n f x.targets note.keeps_status
      Move-frame {x} (failed name p same) = kept x name error p
      Move-frame {x} (began name p same command ask) =
          let s = start-Started name x in
          ap (λ ts. (target_of ts n).status) s.same_targets ∙ kept x name s.status p
      Move-frame {x} (ended job status before after runs p final) = kept x job.target status p
      Move-frame {x} (moved world) = refl
      Move-frame {x} gave_up = refl
      Move-frame {x} (asked goals) = refl

      pub Steps-frame :
          {x y : Engine World} → Steps calls P x y → target_status y n ≡ target_status x n
      Steps-frame stay = refl
      Steps-frame (later steps step) = Move-frame step ∙ Steps-frame steps
