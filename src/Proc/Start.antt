-- ===== src/Proc/Start.antt =====
-- What make.proc.spawn leaves: its handles, the new process, and a process that could not be started.
use presto_build.Base.{
  ℕ, ◌+◌, ◌*◌, ◌<◌, ◌≡◌, refl, sym, ap, ◌∙◌, List, [], ◌∷◌, ◌++◌, map, length, append_assoc,
  append-nil, Bool, true, Option, none, some, arith,
}
use presto_build.Lua.{LuaApi, Value, number, returns}
use presto_build.Env.{Block, inherits, block, overruns, spawn_env}
use presto_build.Pipe.{
  file_flag_overlapped, Handle, null, handle, System, gives, open_write_end, create_pipe_ex,
}
use presto_build.Proc.Flush.{
  Process, finished, failed, broken_pipe, flushio, read_loop, on_error, write_leftovers,
  close_process, exit_code,
}
use presto_build.Proc.Invariant.{IsProcess}
use presto_build.Proc.Spawn.{
  SpawnAnswers, Handles, Spawned, spawned, new_process, process_of, launch, finish_spawn, with_pipe,
  with_env, spawn, Entry, process_entry, wait_handles,
}

-- The operating system gives a handle to every call but perhaps CreateProcessW.
abbrev pub all_given : ℕ → ℕ → ℕ → ℕ → ℕ → Option (ℕ × ℕ) → SpawnAnswers
all_given read write error output event process = record {
  pipe = record { named_pipe = gives read; file = gives write; close_error = 0 };
  error_write = gives error;
  output_read = gives output;
  closes_tmp = true;
  process = process;
  closes_output = true;
  closes_error = true;
  event = gives event;
}

-- Whether the environment can be written, and to what.
abbrev pub CanStart : LuaApi → Option (List (List ℕ × Value)) → Block → Type 0
CanStart api env b = (spawn_env api env ≡ returns b) × ((b ≡ overruns) → ⊥)

-- The handles of a process: those of the operating system's and its thread's, if it could be started.
abbrev pub process_handles : Option (ℕ × ℕ) → List Handle
process_handles none = []
process_handles (some (process, thread)) = handle process ∷ handle thread ∷ []

abbrev pub thread_of : Option (ℕ × ℕ) → Handle
thread_of none = null
thread_of (some (process, thread)) = handle thread

module _ (answers : SpawnAnswers) (command : List ℕ) (s : System) where
  -- What follows the environment, whatever it is.
  abbrev pub rest : Block → Spawned
  rest b = with_pipe answers command b (create_pipe_ex answers.pipe 0 file_flag_overlapped 0 s)

  spawn_rest :
      (api : LuaApi) (env : Option (List (List ℕ × Value))) (b : Block)
      → CanStart api env b
      → spawn api answers command env s ≡ rest b
  unfolding spawn with_env
  spawn_rest api env inherits (e, room) = rw e refl
  spawn_rest api env (block bytes) (e, room) = rw e refl
  spawn_rest api env overruns (e, room) = absurd (room refl)

module _ (read write error output event : ℕ) (command : List ℕ) (s : System) where
  -- The system after a process was started, or was not.
  after_start : Option (ℕ × ℕ) → System
  after_start process = record {
    opened =
        s.opened
        ++ (handle read
            ∷ handle write
            ∷ handle error
            ∷ handle output
            ∷ (process_handles process ++ handle event ∷ []));
    closed = s.closed ++ handle read ∷ thread_of process ∷ handle write ∷ handle error ∷ [];
    last_error = s.last_error;
    serial = s.serial + 1;
    buffer_sizes = s.buffer_sizes ++ 4096 ∷ [];
  }

  rest_lem :
      (process : Option (ℕ × ℕ)) (b : Block)
      → rest (all_given read write error output event process) command s b
        ≡ spawned command b new_process
            (record {
              process = process_of process;
              output_read = handle output;
              event = handle event;
            })
            (after_start process)
  unfolding after_start with_pipe finish_spawn launch create_pipe_ex open_write_end
  rest_lem none b = simp append_assoc
  rest_lem (some (process, thread)) b = simp append_assoc

  -- Where every call but perhaps CreateProcessW gives a handle and the environment can be written:
  -- make.proc.spawn gives CreateProcessW the command line and the block, returns a process that keeps the
  -- invariant, and has closed every handle that it opened but the output, the process and the event.
  pub spawn-IsProcess :
      (api : LuaApi) (env : Option (List (List ℕ × Value))) (b : Block) (process : Option (ℕ × ℕ))
      → CanStart api env b
      → (p : Process) × (t : System) × (spawn api
            (all_given read write error output event process)
            command
            env
            s
          ≡ spawned command b p
              (record {
                process = process_of process;
                output_read = handle output;
                event = handle event;
              })
              t)
        × IsProcess p
        × (t.opened
            ≡ s.opened
              ++ (handle read
                  ∷ handle write
                  ∷ handle error
                  ∷ handle output
                  ∷ (process_handles process ++ handle event ∷ [])))
        × (t.closed
            ≡ s.closed ++ handle read ∷ thread_of process ∷ handle write ∷ handle error ∷ [])
  unfolding after_start
  spawn-IsProcess api env b process can = (
    new_process,
    after_start process,
    spawn_rest (all_given read write error output event process) command s api env b can
        ∙ rest_lem process b,
    record {
      room = omega arith;
      open_handles = λ e. refl;
      closed_once = λ e. cc;
      idle = λ e. refl;
    },
    refl,
    refl,
  )

  -- A command that CreateProcessW cannot start, where every other call gives a handle, ends as a success:
  -- make.proc.spawn returns a process all the same, and when its pipe reads as broken, with the exit code
  -- left as it was, make.proc.flushio ends it and make.proc.exitcode gives 0.
  pub failed_start :
      (api : LuaApi) (env : Option (List (List ℕ × Value))) (b : Block) (print_ok : Bool)
      → CanStart api env b
      → (p : Process) × (h : Handles) × (t : System) × (q : Process) × (spawn api
            (all_given read write error output event none)
            command
            env
            s
          ≡ spawned command b p h t)
        × (flushio print_ok p.exit_code (failed broken_pipe ∷ []) p ≡ finished q)
        × (exit_code q ≡ number 0)
  unfolding flushio read_loop on_error write_leftovers close_process exit_code
  failed_start api env b print_ok can = (
    new_process,
    _,
    after_start none,
    close_process 0 new_process,
    spawn_rest (all_given read write error output event none) command s api env b can
        ∙ rest_lem none b,
    refl,
    refl,
  )

-- The handles of some processes, two for each, in their order.
abbrev pub handles_of : List (Handle × ℕ) → List Handle
handles_of [] = []
handles_of ((process, event) ∷ ps) = process ∷ handle event ∷ handles_of ps

abbrev pub entry_of : Handle × ℕ → Entry
entry_of (process, event) =
    process_entry (record { process = process; output_read = null; event = handle event })

wait_handles_lem :
    (ps : List (Handle × ℕ)) (acc : List Handle)
    → wait_handles (map entry_of ps) acc ≡ returns (acc ++ handles_of ps)
unfolding wait_handles
wait_handles_lem [] acc = ap returns (sym (append-nil acc))
wait_handles_lem ((process, event) ∷ ps) acc =
    wait_handles_lem ps (acc ++ process ∷ handle event ∷ [])
    ∙ ap returns (append_assoc acc (process ∷ handle event ∷ []) (handles_of ps))

length-handles_of : (ps : List (Handle × ℕ)) → length (handles_of ps) ≡ 2 * length ps
length-handles_of [] = refl
length-handles_of ((process, event) ∷ ps) = omega (arith, length-handles_of ps)

-- make.proc.wait waits for the process and the event of each of its processes, in order, so with more than
-- 32 processes it asks for more than the 64 handles that WaitForMultipleObjects takes.
wait_handles_limit :
    (ps : List (Handle × ℕ))
    → (hs : List Handle) × (wait_handles (map entry_of ps) [] ≡ returns hs)
      × (hs ≡ handles_of ps)
      × (32 < length ps → 64 < length hs)
wait_handles_limit ps =
    (handles_of ps, wait_handles_lem ps [], refl, λ more. omega (arith, more, length-handles_of ps))
