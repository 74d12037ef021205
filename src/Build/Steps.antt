-- ===== src/Build/Steps.antt =====
-- lua/mkinit.lua: the build engine as a system of steps, which says what a run may do to the state and leaves
-- out in what order.
use presto_build.Base.{ℕ, ◌≡◌, List, ◌∷◌, ◌++◌, Bool, true, false}
use presto_build.Build.Target.{Status, unchanged, updated, running, error, Target, target_of}
use presto_build.Build.Engine.{BuildCalls, Engine, Job, target_status, write, set_status, start}
use presto_build.Build.Jobs.{take_off}
use presto_build.Build.Grows.{Tame}

-- The status is set, and `bring_up_to_date` returns it at once.
abbrev pub is_settled : Status → Bool
is_settled unchanged = false
is_settled updated = true
is_settled running = true
is_settled error = true

-- The status of a target whose job has ended.
abbrev pub is_final : Status → Bool
is_final unchanged = false
is_final updated = true
is_final running = false
is_final error = true

-- A write that leaves alone whether the target is built, and with which command.
pub record IsNote (f : Target → Target) : Type 0 where
  pub tame : Tame f
  pub keeps_status : (t : Target) → (f t).status ≡ t.status
  pub keeps_command : (t : Target) → (f t).has_command ≡ t.has_command

module _ (calls : BuildCalls) where
  open calls use {World}

  -- One step, which sets the status of a target only where `P` holds of it. A target fails or is started only
  -- while its status is not set; started, only where it has a command and the flag question is not set. A job that ends is one of those that run.
  pub data Move (P : List ℕ → Type 0) (e : Engine World) : Engine World → Type 0 where
    noted : (name : List ℕ) (f : Target → Target) → IsNote f → Move P e (write name f e)
    failed :
        (name : List ℕ)
        → P name
        → target_status e name ≡ unchanged
        → Move P e (set_status name error e)
    began :
        (name : List ℕ)
        → P name
        → target_status e name ≡ unchanged
        → (target_of e.targets name).has_command ≡ true
        → e.flags.question ≡ false
        → Move P e (start calls name e).1
    ended :
        (job : Job) (status : Status) (before after : List Job)
        → e.jobs ≡ before ++ job ∷ after
        → P job.target
        → is_final status ≡ true
        → Move P e (set_status job.target status (take_off job e))
    moved : (world : World) → Move P e (record e { world = world })
    gave_up : Move P e (record e { failure = true })
    asked : (goals : List (List ℕ)) → Move P e (record e { goals = goals })

  pub data Steps (P : List ℕ → Type 0) (e : Engine World) : Engine World → Type 0 where
    stay : Steps P e e
    later : {x y : Engine World} → Steps P e x → Move P x y → Steps P e y

  -- Steps that touch no more than `P` touch no more than `Q`.
  module _ (P Q : List ℕ → Type 0) (wider : (n : List ℕ) → P n → Q n) where
    Move-wider : {x y : Engine World} → Move P x y → Move Q x y
    Move-wider (noted name f note) = noted name f note
    Move-wider (failed name p same) = failed name (wider name p) same
    Move-wider (began name p same command ask) = began name (wider name p) same command ask
    Move-wider (ended job status before after runs p final) =
        ended job status before after runs (wider job.target p) final
    Move-wider (moved world) = moved world
    Move-wider gave_up = gave_up
    Move-wider (asked goals) = asked goals

    pub Steps-wider : {x y z : Engine World} → Steps Q x y → Steps P y z → Steps Q x z
    Steps-wider before stay = before
    Steps-wider before (later steps step) = later (Steps-wider before steps) (Move-wider step)

  -- A step of `bring_up_to_date`: nothing but `make.jobs.start` moves the world, and no job ends.
  pub data Touch (P : List ℕ → Type 0) (e : Engine World) : Engine World → Type 0 where
    wrote : (name : List ℕ) (f : Target → Target) → IsNote f → Touch P e (write name f e)
    broke :
        (name : List ℕ)
        → P name
        → target_status e name ≡ unchanged
        → Touch P e (set_status name error e)
    launched :
        (name : List ℕ)
        → P name
        → target_status e name ≡ unchanged
        → (target_of e.targets name).has_command ≡ true
        → e.flags.question ≡ false
        → Touch P e (start calls name e).1

  pub data Builds (P : List ℕ → Type 0) (e : Engine World) : Engine World → Type 0 where
    at_first : Builds P e e
    onward : {x y : Engine World} → Builds P e x → Touch P x y → Builds P e y

  module _ (P : List ℕ → Type 0) where
    Touch-Move : {x y : Engine World} → Touch P x y → Move P x y
    Touch-Move (wrote name f note) = noted name f note
    Touch-Move (broke name p same) = failed name p same
    Touch-Move (launched name p same command ask) = began name p same command ask

    pub Builds-Steps : {x y : Engine World} → Builds P x y → Steps P x y
    Builds-Steps at_first = stay
    Builds-Steps (onward steps step) = later (Builds-Steps steps) (Touch-Move step)

  module _ (P Q : List ℕ → Type 0) (wider : (n : List ℕ) → P n → Q n) where
    Touch-wider : {x y : Engine World} → Touch P x y → Touch Q x y
    Touch-wider (wrote name f note) = wrote name f note
    Touch-wider (broke name p same) = broke name (wider name p) same
    Touch-wider (launched name p same command ask) = launched name (wider name p) same command ask

    pub Builds-wider : {x y z : Engine World} → Builds Q x y → Builds P y z → Builds Q x z
    Builds-wider before at_first = before
    Builds-wider before (onward steps step) = onward (Builds-wider before steps) (Touch-wider step)
