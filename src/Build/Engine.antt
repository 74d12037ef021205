-- ===== src/Build/Engine.antt =====
-- lua/mkinit.lua: the state of the build engine, and `make.jobs.start`.
use presto_build.Base.{
  ℕ, ◌+◌, Option, none, some, List, [], ◌∷◌, ◌++◌, map, Bool, true, false, if◌then◌else◌,
}
use presto_build.Lua.{Value, nil, ticks}
use presto_build.CommandLine.State.{Flags}
use presto_build.Build.Target.{
  Status, updated, running, error, Kind, file_target, phony_target, dir_target, Target, Targets,
  target_of, modify,
}

-- How a coroutine comes back from coroutine.resume: with an error, dead, or with what it yielded, which is
-- a handle or nil. An error has an object that make.error prints or that is not printed, which is a text, a number,
-- nil or false, or one of another type, at which make.error raises an error itself.
pub data Resumed : Type 0 where
  raised : Bool → Resumed
  dead : Resumed
  yielded : Bool → Resumed

-- The disk and the commands of targets, on a state of the world. `begin` is the first resume of a command's
-- coroutine, by the number of its job.
pub record BuildCalls : Type 1 where
  pub World : Type 0
  pub file_exists : List ℕ → World → Bool
  pub file_time : List ℕ → World → Value
  pub beginning_of_time : Value
  pub begin : List ℕ → ℕ → World → Resumed × World
  pub resume : ℕ → World → Resumed × World
  pub wait : List ℕ → World → World

-- A running job, and the target that it updates.
pub record Job : Type 0 where
  pub id : ℕ
  pub target : List ℕ

-- How many jobs there are.
abbrev pub running_jobs : List Job → ℕ
running_jobs [] = 0
running_jobs (job ∷ jobs) = running_jobs jobs + 1

-- What there was when a command was started: the number of running jobs before, and the statuses of the
-- target's dependencies.
pub record Start : Type 0 where
  pub target : List ℕ
  pub jobs_before : ℕ
  pub deps_before : List Status

-- `count`, `slots` and `pos` are those of `make.jobs`, `jobs` is `make.jobs.running`; `failure` is
-- `make.failure`. `started` is every start so far, the last one first, which the program does not keep, and `unprintable` the targets
-- whose field `errmsg` is of a type that make.error does not print.
-- The number of slots is not negative.
pub record Engine (W : Type 0) : Type 0 where
  pub targets : Targets
  pub jobs : List Job
  pub count : ℕ
  pub slots : ℕ
  pub pos : ℕ
  pub flags : Flags
  pub failure : Bool
  pub goals : List (List ℕ)
  pub world : W
  pub started : List Start
  pub unprintable : List (List ℕ)

-- Errors that are raised: the field `command` of a function is read, there is no rule, "Stop.", or
-- make.error does not print its argument.
pub data Thrown : Type 0 where
  index_function : Thrown
  no_rule : List ℕ → Thrown
  no_targets : Thrown
  stop : Thrown
  bad_message : Thrown

-- How a function of a target ends; `unfinished` is fuel that ran out.
pub data Reply : Type 0 where
  gives : Status → Reply
  throws : Thrown → Reply
  unfinished : Reply

abbrev pub target_status : {W : Type 0} → Engine W → List ℕ → Status
target_status e name = (target_of e.targets name).status

abbrev pub write : {W : Type 0} → List ℕ → (Target → Target) → Engine W → Engine W
write name f e = record e { targets = modify name f e.targets }

abbrev pub set_status : {W : Type 0} → List ℕ → Status → Engine W → Engine W
set_status name status e = write name (λ t. record t { status = status }) e

-- The command's coroutine was started with the next job number, and came back.
-- target.errmsg = handle
abbrev pub keep_message : {W : Type 0} → Bool → List ℕ → Engine W → Engine W
keep_message printed name e = record e {
  unprintable = if printed then e.unprintable else name ∷ e.unprintable;
}

unfoldable pub after_begin : {W : Type 0} → List ℕ → Resumed → Engine W → Reply × Engine W
after_begin name (raised printed) e =
    (gives error, set_status name error (keep_message printed name e))
after_begin name dead e = (gives updated, set_status name updated e)
after_begin name (yielded handle) e = (
  gives running,
  set_status name running (record e {
    jobs = e.jobs ++ record { id = e.pos; target = name } ∷ [];
    count = e.count + 1;
  }),
)

-- `v or 0`, where `v` is not false.
abbrev or_zero : Value → Value
or_zero nil = ticks false 0
or_zero v = v

module _ (calls : BuildCalls) where
  open calls use {World, file_exists, file_time, beginning_of_time, begin}

  -- `make.jobs.start`
  unfoldable pub start : List ℕ → Engine World → Reply × Engine World
  start name e =
      let (back, world) = begin name (e.pos + 1) e.world in
      after_begin name back (record e {
        pos = e.pos + 1;
        world = world;
        started =
            record {
              target = name;
              jobs_before = running_jobs e.jobs;
              deps_before = map (target_status e) (target_of e.targets name).deps;
            }
            ∷ e.started;
      })

  -- The field `exists`: of a directory target it is a function, which counts as true.
  abbrev pub exists_from : Kind → Option Bool → List ℕ → World → Bool
  exists_from phony_target known name w = false
  exists_from dir_target known name w = true
  exists_from file_target (some b) name w = b
  exists_from file_target none name w = file_exists name w

  -- The field `timestamp`.
  abbrev pub time_from : Kind → Option Value → List ℕ → World → Value
  time_from phony_target known name w = ticks false 0
  time_from dir_target known name w = beginning_of_time
  time_from file_target (some v) name w = v
  time_from file_target none name w =
      if file_exists name w then or_zero (file_time name w) else ticks false 0

  abbrev pub exists_of : Engine World → List ℕ → Bool
  exists_of e name =
      let t = target_of e.targets name in exists_from t.kind t.known_exists name e.world

  abbrev pub timestamp_of : Engine World → List ℕ → Value
  timestamp_of e name =
      let t = target_of e.targets name in time_from t.kind t.known_time name e.world

  -- What `__target.mt.__index` keeps.
  abbrev pub keep_exists : List ℕ → Engine World → Engine World
  keep_exists name e = write name (λ t. record t { known_exists = some (exists_of e name) }) e

  abbrev pub keep_time : List ℕ → Engine World → Engine World
  keep_time name e = write name (λ t. record t { known_time = some (timestamp_of e name) }) e
