-- ===== src/Tests/Output.antt =====
-- Runs of the make.proc functions.
use presto_build.Base.{
  ℕ, ◌≡◌, refl, inl, List, [], ◌∷◌, ◌++◌, true, false, length, map, leb, replicate, arith,
  if◌then◌else◌,
}
use presto_build.Proc.Output.{
  Lines, flushed, overrun, leftovers_size, keep_line, end_line, scan, flush_helper,
}
use presto_build.Proc.Stream.{step, read, stream}
use presto_build.Proc.Lines.{flush_helper-eq-stream}
use presto_build.Proc.Flush.{
  Process, got, failed, finished, output_read, process_handle, event, broken_pipe, io_pending,
  flushio,
}
use presto_build.Proc.Chunks.{join}
use presto_build.Proc.Drain.{last_line, flushio_drains}
use presto_build.Proc.Run.{make_run}
use presto_build.Proc.Whole.{pending, ending, IsOver, make_run-IsOver}
use presto_build.Proc.Invariant.{IsProcess, Keeps, flushio-IsProcess}
use presto_build.Proc.Limits.{long_line_overruns}

abbrev empty : Lines
empty = record { printed = []; leftovers = [] }

-- "ok\r\nx"
abbrev two_lines : List ℕ
two_lines = b'o' ∷ b'k' ∷ 13 ∷ 10 ∷ b'x' ∷ []

two_lines_run :
    flush_helper true two_lines empty
    ≡ flushed (record { printed = (b'o' ∷ b'k' ∷ []) ∷ []; leftovers = b'x' ∷ [] })
unfolding flush_helper scan keep_line end_line
two_lines_run = refl

flush_helper-eq-stream_example : flush_helper true two_lines empty ≡ (
    if leb leftovers_size (length (stream empty two_lines).leftovers)
    then overrun
    else flushed (stream empty two_lines))
flush_helper-eq-stream_example = flush_helper-eq-stream two_lines empty (ground arith) (omega arith)

abbrev reads : List (List ℕ)
reads = (b'o' ∷ []) ∷ (b'k' ∷ 13 ∷ 10 ∷ b'x' ∷ []) ∷ []

abbrev running : Process
running = record { running = true; waiting = false; exit_code = 0; lines = empty; closed = [] }

running-IsProcess : IsProcess running
running-IsProcess = record {
  room = omega arith;
  open_handles = λ e. refl;
  closed_once = λ e. cc;
  idle = λ e. refl;
}

flushio_drains_example :
    flushio true 3 (map got reads ++ failed broken_pipe ∷ []) running
    ≡ finished (record {
      running = false;
      waiting = false;
      exit_code = 3;
      lines = last_line (stream empty (join reads)) (stream empty (join reads)).leftovers;
      closed = output_read ∷ process_handle ∷ event ∷ [];
    })
unfolding stream read step end_line
flushio_drains_example =
    flushio_drains reads 3 running refl refl (omega arith)
      (ground arith, omega arith, (ground arith, omega arith, tt)) (inl refl, (inl refl, tt))

flushio-IsProcess_example : Keeps (flushio true 3 (got two_lines ∷ failed io_pending ∷ []) running)
flushio-IsProcess_example =
    flushio-IsProcess true 3 (got two_lines ∷ failed io_pending ∷ []) running running-IsProcess

abbrev half_line : Lines
half_line = record { printed = []; leftovers = replicate 1023 b'a' }

long_line_overruns_example : flush_helper true (b'a' ∷ []) half_line ≡ overrun
long_line_overruns_example =
    long_line_overruns (b'a' ∷ []) half_line (ground arith) (ground arith) (omega arith)
      (omega arith)

-- "o" is read, then a read is pending; the next call reads "k\r\nx" and the end. The exit code is 3.
make_run-IsOver_example : IsOver 3 running (stream empty (join reads)) (
    make_run 3
      (map pending (((b'o' ∷ []) ∷ []) ∷ []) ++ ending ((b'k' ∷ 13 ∷ 10 ∷ b'x' ∷ []) ∷ []) ∷ [])
      running)
unfolding stream read step end_line
make_run-IsOver_example =
    make_run-IsOver 3 (((b'o' ∷ []) ∷ []) ∷ []) ((b'k' ∷ 13 ∷ 10 ∷ b'x' ∷ []) ∷ []) running refl
      (omega arith) (ground arith, omega arith, (ground arith, omega arith, tt))
      (inl refl, (inl refl, tt))
