-- ===== src/Tests/Starts.antt =====
-- Runs of make.proc.spawn, of the environment block, and of `MyCreatePipeEx`.
use presto_build.Base.{ℕ, ◌≤◌, ◌≡◌, refl, List, [], ◌∷◌, ◌++◌, map, length, true, none, some, arith}
use presto_build.Lua.{LuaApi, number}
use presto_build.Env.{block, c_string, put, write_env, spawn_env, reads, env_size, read_env}
use presto_build.Env.RoundTrip.{
  AllVariables, as_field, upper, block_of, fits, read_of, read_env-spawn_env,
}
use presto_build.Pipe.{handle, System, file_flag_overlapped, gives, fails_with, create_pipe_ex}
use presto_build.Pipe.Handles.{Pays, create_pipe_ex-Pays}
use presto_build.Proc.Flush.{Process, failed, finished, broken_pipe, flushio, exit_code}
use presto_build.Proc.Invariant.{IsProcess}
use presto_build.Proc.Spawn.{Handles, spawned, spawn}
use presto_build.Proc.Start.{all_given, spawn-IsProcess, failed_start}

abbrev api : LuaApi
api = record { number_text = λ v. b'1' ∷ [] }

-- "a" = "x" and "b" = ""
abbrev variables : List ((List ℕ) × List ℕ)
variables = (b'a' ∷ [], b'x' ∷ []) ∷ (b'b' ∷ [], []) ∷ []

variables-AllVariables : AllVariables variables
variables-AllVariables = (
  ((λ e. cc), (ground arith, tt), (ground arith, tt), (ground arith, tt)),
  (((λ e. cc), (ground arith, tt), (ground arith, tt), tt), tt),
)

read_env-spawn_env_example :
    (spawn_env api (some (map as_field variables))
      ≡ fits (length (block_of variables)) (block_of variables))
    × (read_env 3 (block_of variables) ≡ read_of variables)
    × (length (block_of variables) ≤ env_size
        → read_env 3 (block_of variables) ≡ reads (map upper variables))
read_env-spawn_env_example = read_env-spawn_env api variables 3 variables-AllVariables (omega arith)

abbrev system : System
system = record { opened = []; closed = []; last_error = 0; serial = 0; buffer_sizes = [] }

create_pipe_ex-Pays_example : Pays system 4 (fails_with 5) true (
    create_pipe_ex
      (record { named_pipe = gives 4; file = fails_with 5; close_error = 6 })
      0
      file_flag_overlapped
      0
      system)
create_pipe_ex-Pays_example = create_pipe_ex-Pays (fails_with 5) 6 0 file_flag_overlapped 0 system 4

failed_start_example :
    (p : Process) × (h : Handles) × (t : System) × (q : Process) × (spawn api
        (all_given 1 2 3 4 5 none)
        (b'x' ∷ [])
        (some (map as_field variables))
        system
      ≡ spawned (b'x' ∷ []) (block (block_of variables)) p h t)
    × (flushio true p.exit_code (failed broken_pipe ∷ []) p ≡ finished q)
    × (exit_code q ≡ number 0)
unfolding spawn_env write_env put c_string
failed_start_example =
    failed_start 1 2 3 4 5 (b'x' ∷ []) system api (some (map as_field variables))
      (block (block_of variables)) true (refl, λ e. cc)

spawn-IsProcess_example :
    (p : Process) × (t : System) × (spawn api
        (all_given 1 2 3 4 5 (some (6, 7)))
        (b'x' ∷ [])
        (some (map as_field variables))
        system
      ≡ spawned
          (b'x' ∷ [])
          (block (block_of variables))
          p
          (record { process = handle 6; output_read = handle 4; event = handle 5 })
          t)
    × IsProcess p
    × (t.opened
        ≡ [] ++ (handle 1 ∷ handle 2 ∷ handle 3 ∷ handle 4 ∷ handle 6 ∷ handle 7 ∷ handle 5 ∷ []))
    × (t.closed ≡ [] ++ handle 1 ∷ handle 7 ∷ handle 2 ∷ handle 3 ∷ [])
unfolding spawn_env write_env put c_string
spawn-IsProcess_example =
    spawn-IsProcess 1 2 3 4 5 (b'x' ∷ []) system api (some (map as_field variables))
      (block (block_of variables)) (some (6, 7)) (refl, λ e. cc)
