-- ===== src/Proc/Drain.antt =====
-- lmakelib.cpp, make.proc.flushio: proofs on a process that ends.
use presto_build.Base.{
  ℕ, ◌<◌, ◌≡◌, refl, ap, ◌∙◌, List, [], ◌∷◌, ◌++◌, Bool, true, false, length, map, append-nil,
  if◌then◌else◌,
}
use presto_build.Proc.Output.{Lines, flush_helper, scan, keep_line, end_line}
use presto_build.Proc.Stream.{stream}
use presto_build.Proc.Lines.{fresh}
use presto_build.Proc.Flush.{
  Process, Io, got, failed, finished, output_read, process_handle, event, broken_pipe,
  close_process, with_lines, write_leftovers, on_error, read_loop, resume, flushio,
}
use presto_build.Proc.Chunks.{join, streams, AllFit, IsClean, streams-eq-stream, read_loop-got}

-- A last line with no line end is a line too.
unfoldable pub last_line : Lines → List ℕ → Lines
last_line s [] = s
last_line s (c ∷ rest) = record { printed = s.printed ++ (c ∷ rest) ∷ []; leftovers = [] }

pub write_leftovers_lem :
    (p : Process) (waits : List ℕ)
    → p.lines.leftovers ≡ waits
    → write_leftovers true waits p ≡ finished (record p { lines = last_line p.lines waits })
unfolding write_leftovers with_lines flush_helper scan keep_line end_line last_line
write_leftovers_lem p [] e = refl
write_leftovers_lem p (c ∷ rest) e = rw append-nil (
    ap
      (λ t.
        finished
          (record p { lines = record { printed = p.lines.printed ++ t ∷ []; leftovers = [] } }))
      e)

flushio_reads :
    (print_ok : Bool) (code : ℕ) (events : List Io) (p : Process)
    → p.running ≡ true
    → p.waiting ≡ false
    → flushio print_ok code events p ≡ read_loop print_ok code events p
unfolding flushio
flushio_reads print_ok code events p runs idle =
    ap
      (λ b.
        if b
        then (if p.waiting then resume print_ok code events p else read_loop print_ok code events p)
        else finished p)
      runs
    ∙ ap (λ b. if b then resume print_ok code events p else read_loop print_ok code events p) idle

-- For a running process that waits for no read, whose reads have data and then end with
-- ERROR_BROKEN_PIPE, where no read has a zero byte, leaves 1024 bytes or more behind, or begins with the LF
-- of a CR LF: the lines of the whole output are printed in order, the last one also without a line end,
-- the three handles are closed once each, and the exit code is kept.
pub flushio_drains :
    (cs : List (List ℕ)) (code : ℕ) (p : Process)
    → p.running ≡ true
    → p.waiting ≡ false
    → length p.lines.leftovers < 1024
    → AllFit p.lines cs
    → IsClean (fresh p.lines) cs
    → flushio true code (map got cs ++ failed broken_pipe ∷ []) p
      ≡ finished (record {
        running = false;
        waiting = false;
        exit_code = code;
        lines = last_line (stream p.lines (join cs)) (stream p.lines (join cs)).leftovers;
        closed = p.closed ++ output_read ∷ process_handle ∷ event ∷ [];
      })
flushio_drains cs code p runs idle room fit clean =
    flushio_reads true code (map got cs ++ failed broken_pipe ∷ []) p runs idle
    ∙ read_loop-got cs code (failed broken_pipe ∷ []) p room fit idle
    ∙ unfold read_loop on_error close_process in
      write_leftovers_lem (close_process code (record p { lines = streams p.lines cs }))
        (streams p.lines cs).leftovers refl
      ∙ ap
          (λ s. finished (record {
            running = false;
            waiting = false;
            exit_code = code;
            lines = last_line s s.leftovers;
            closed = p.closed ++ output_read ∷ process_handle ∷ event ∷ [];
          }))
          (streams-eq-stream cs (fresh p.lines) clean ∙ unfold stream in refl)
