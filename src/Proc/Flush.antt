-- ===== src/Proc/Flush.antt =====
-- lmakelib.cpp `struct process`, `make_proc_flushio` and `make_proc_exitcode`. What the operating system
-- answers to GetOverlappedResult and ReadFile, call by call, is a list of events.
use presto_build.Base.{ℕ, List, [], ◌∷◌, ◌++◌, Bool, true, false, ◌==◌, ◌||◌, if◌then◌else◌}
use presto_build.Lua.{Value, nil, number}
use presto_build.Proc.Output.{Lines, Flushed, flushed, raised, overrun, flush_helper}

pub data HandleName : Type 0 where
  output_read process_handle event : HandleName

-- `running` says that `hProcess` is not INVALID_HANDLE_VALUE; `closed` is the handles that were given to
-- CloseHandle, in order.
pub record Process : Type 0 where
  pub running : Bool
  pub waiting : Bool
  pub exit_code : ℕ
  pub lines : Lines
  pub closed : List HandleName

-- A call that has data, with the bytes that it wrote to `buffer`, or one that fails with an error code.
pub data Io : Type 0 where
  got : List ℕ → Io
  failed : ℕ → Io

-- `blocked` is no return: the list of events ended before the call did.
pub data Flush : Type 0 where
  finished : Process → Flush
  error_raised : Process → Flush
  overran : Flush
  blocked : Flush

abbrev pub broken_pipe : ℕ
broken_pipe = 109

abbrev pub io_incomplete : ℕ
io_incomplete = 996

abbrev pub io_pending : ℕ
io_pending = 997

-- ERROR_BROKEN_PIPE: `code` is what GetExitCodeProcess answers.
unfoldable pub close_process : ℕ → Process → Process
close_process code p = record p {
  running = false;
  waiting = false;
  exit_code = code;
  closed = p.closed ++ output_read ∷ process_handle ∷ event ∷ [];
}

-- What follows a call of `make_proc_flushio_helper`.
unfoldable pub with_lines : Process → Flushed → (Process → Flush) → Flush
with_lines p (flushed s) continue = continue (record p { lines = s })
with_lines p (raised s) continue = error_raised (record p { lines = s })
with_lines p overrun continue = overran

-- `if(p->leftovers[0])`: the last line has no line end, so the helper is given one.
unfoldable pub write_leftovers : Bool → List ℕ → Process → Flush
write_leftovers print_ok [] p = finished p
write_leftovers print_ok (c ∷ rest) p =
    with_lines p (flush_helper print_ok (13 ∷ []) p.lines) finished

unfoldable pub on_error : Bool → ℕ → ℕ → Process → Flush
on_error print_ok code error p =
    if error == broken_pipe
    then write_leftovers print_ok p.lines.leftovers (close_process code p)
    else if error == io_incomplete || error == io_pending
    then finished (record p { waiting = true })
    else error_raised p

-- `while(ReadFile(...))` and the switch behind it.
unfoldable pub read_loop : Bool → ℕ → List Io → Process → Flush
read_loop print_ok code [] p = blocked
read_loop print_ok code (got bytes ∷ events) p =
    with_lines p (flush_helper print_ok bytes p.lines)
      (λ q. read_loop print_ok code events (record q { waiting = false }))
read_loop print_ok code (failed error ∷ events) p = on_error print_ok code error p

-- The result of the read that an earlier call left pending.
unfoldable pub resume : Bool → ℕ → List Io → Process → Flush
resume print_ok code [] p = blocked
resume print_ok code (got bytes ∷ events) p =
    with_lines p (flush_helper print_ok bytes p.lines)
      (λ q. read_loop print_ok code events (record q { waiting = false }))
resume print_ok code (failed error ∷ events) p = on_error print_ok code error p

unfoldable pub flushio : Bool → ℕ → List Io → Process → Flush
flushio print_ok code events p =
    if p.running
    then (if p.waiting then resume print_ok code events p else read_loop print_ok code events p)
    else finished p

unfoldable pub exit_code : Process → Value
exit_code p = if p.running then nil else number p.exit_code
