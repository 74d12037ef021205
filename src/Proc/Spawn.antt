-- ===== src/Proc/Spawn.antt =====
-- lmakelib.cpp `make_proc_spawn` and `make_proc_wait`. What the operating system answers to each call of
-- the first is given beforehand.
use presto_build.Base.{
  ℕ, List, [], ◌∷◌, ◌++◌, Bool, true, false, Option, none, some, not, if◌then◌else◌,
}
use presto_build.Lua.{LuaApi, LuaError, message, bad_top, Value, Outcome, returns, raises}
use presto_build.Env.{Block, inherits, block, overruns, spawn_env}
use presto_build.Pipe.{
  Handle, null, invalid, handle, System, file_flag_overlapped, Answer, gives, fails_with, handle_of,
  after, close, PipeAnswers, Pipe, created, refused, create_pipe_ex,
}
use presto_build.Proc.Flush.{Process}

-- The answers to the two DuplicateHandle calls, the CloseHandle calls that are tested, CreateProcessW (the
-- process and its thread) and CreateEvent.
pub record SpawnAnswers : Type 0 where
  pub pipe : PipeAnswers
  pub error_write : Answer
  pub output_read : Answer
  pub closes_tmp : Bool
  pub process : Option (ℕ × ℕ)
  pub closes_output : Bool
  pub closes_error : Bool
  pub event : Answer

-- The fields of a `struct process` that are handles.
pub record Handles : Type 0 where
  pub process : Handle
  pub output_read : Handle
  pub event : Handle

-- `spawned` also has what CreateProcessW was given: the command line and the environment block.
pub data Spawned : Type 0 where
  spawned : List ℕ → Block → Process → Handles → System → Spawned
  spawn_raised : LuaError → System → Spawned
  spawn_overran : Spawned

-- `memset(proc, 0, sizeof(*proc))`: hProcess is not INVALID_HANDLE_VALUE, whatever CreateProcessW did.
abbrev pub new_process : Process
new_process = record {
  running = true;
  waiting = false;
  exit_code = 0;
  lines = record { printed = []; leftovers = [] };
  closed = [];
}

-- `PROCESS_INFORMATION pi = {}` and CreateProcessW, whose result is not tested; then CloseHandle(pi.hThread).
abbrev pub process_of : Option (ℕ × ℕ) → Handle
process_of none = null
process_of (some (process, thread)) = handle process

unfoldable pub launch : Option (ℕ × ℕ) → System → System
launch none s = close null s
launch (some (process, thread)) s =
    close (handle thread) (record s { opened = s.opened ++ handle process ∷ handle thread ∷ [] })

-- An event that cannot be created is 0 in `hEvent`.
abbrev pub event_of : Answer → Handle
event_of (gives h) = handle h
event_of (fails_with error) = null

-- From the closing of the two write ends on; if the first fails, the second is not closed.
unfoldable pub finish_spawn : SpawnAnswers → List ℕ → Block → Handle → Handle → System → Spawned
finish_spawn answers command env write_end error_end s =
    let output_shut = close write_end s in
    let both_shut = close error_end output_shut in
    let done =
      spawned command env new_process
        (record {
          process = process_of answers.process;
          output_read = handle_of answers.output_read;
          event = event_of answers.event;
        })
        (after answers.event both_shut) in
    if answers.closes_output
    then (if answers.closes_error
        then done
        else spawn_raised (message "error closing pipe handle") both_shut)
    else spawn_raised (message "error closing pipe handle") output_shut

abbrev pub is_given : Answer → Bool
is_given (gives h) = true
is_given (fails_with error) = false

-- What follows MyCreatePipeEx.
unfoldable pub with_pipe : SpawnAnswers → List ℕ → Block → Pipe → Spawned
with_pipe answers command env (refused s) = spawn_raised (message "error creating pipe") s
with_pipe answers command env (created read_end write_end s) =
    let duplicated = after answers.error_write s in
    let both = after answers.output_read duplicated in
    let shut = close read_end both in
    if not (is_given answers.error_write)
    then spawn_raised (message "error duplicating pipe handle") duplicated
    else if not (is_given answers.output_read)
    then spawn_raised (message "error duplicating pipe handle") both
    else if not answers.closes_tmp
    then spawn_raised (message "error closing pipe handle") shut
    else finish_spawn answers command env write_end (handle_of answers.error_write)
        (launch answers.process shut)

unfoldable pub with_env : SpawnAnswers → List ℕ → Outcome Block → System → Spawned
with_env answers command (raises e) s = spawn_raised e s
with_env answers command (returns overruns) s = spawn_overran
with_env answers command (returns inherits) s =
    with_pipe answers command inherits (create_pipe_ex answers.pipe 0 file_flag_overlapped 0 s)
with_env answers command (returns (block bytes)) s =
    with_pipe answers command (block bytes) (create_pipe_ex answers.pipe 0 file_flag_overlapped 0 s)

-- The arguments are the command line, which goes to CreateProcessW as UTF-16, and a table of variables or
-- nil.
unfoldable pub spawn :
    LuaApi → SpawnAnswers → List ℕ → Option (List (List ℕ × Value)) → System → Spawned
spawn api answers command env s = with_env answers command (spawn_env api env) s

-- What stands at an index of the array that make.proc.wait is given.
pub data Entry : Type 0 where
  process_entry : Handles → Entry
  other_data : Entry
  no_table : Entry

-- The loop over the array, up to its first nil: the handles that are waited for, behind those that are there.
unfoldable pub wait_handles : List Entry → List Handle → Outcome (List Handle)
wait_handles [] handles = returns handles
wait_handles (no_table ∷ entries) handles = raises bad_top
wait_handles (other_data ∷ entries) handles = raises (message "'process' expected")
wait_handles (process_entry p ∷ entries) handles = wait_handles entries (elim p.event [
  | null ↦ handles ++ p.process ∷ null ∷ []
  | invalid ↦ handles ++ p.process ∷ []
  | handle h ↦ handles ++ p.process ∷ handle h ∷ []
])
