-- ===== src/Proc/Whole.antt =====
-- lua/mkinit.lua, `make.run` on a process: proofs on a whole run.
use presto_build.Base.{
  ℕ, ◌<◌, ◌≡◌, refl, sym, subst, ap, ◌∙◌, List, [], ◌∷◌, ◌++◌, Bool, true, false, ◌==◌, length, map,
  if◌then◌else◌,
}
use presto_build.Lua.{nil, number}
use presto_build.Proc.Output.{Lines}
use presto_build.Proc.Stream.{stream}
use presto_build.Proc.Lines.{fresh}
use presto_build.Proc.Flush.{
  Process, Io, got, failed, finished, output_read, process_handle, event, broken_pipe, io_pending,
  close_process, with_lines, on_error, read_loop, resume, flushio, exit_code,
}
use presto_build.Proc.Chunks.{
  join, streams, AllFit, IsClean, streams-eq-stream, flush_fits, read_loop-got,
}
use presto_build.Proc.Drain.{last_line, write_leftovers_lem}
use presto_build.Proc.Run.{Ran, ran_well, exits_with, after_flush, by_code, make_run}

resume-eq-read_loop :
    (code : ℕ) (events : List Io) (p : Process)
    → resume true code events p ≡ read_loop true code events p
unfolding resume read_loop
resume-eq-read_loop code [] p = refl
resume-eq-read_loop code (got bytes ∷ events) p = refl
resume-eq-read_loop code (failed error ∷ events) p = refl

flushio-eq-read_loop :
    (code : ℕ) (events : List Io) (p : Process)
    → p.running ≡ true
    → flushio true code events p ≡ read_loop true code events p
unfolding flushio
flushio-eq-read_loop code events p runs =
    ap
      (λ b.
        if b
        then (if p.waiting then resume true code events p else read_loop true code events p)
        else finished p)
      runs
    ∙ go p.waiting
  where
    go :
        (b : Bool)
        → (if b then resume true code events p else read_loop true code events p)
          ≡ read_loop true code events p
    go true = resume-eq-read_loop code events p
    go false = refl

-- A read is still awaited where none came.
abbrev still : Bool → List (List ℕ) → Bool
still w [] = w
still w (c ∷ cs) = false

abbrev read_on : List (List ℕ) → Process → Process
read_on cs p = record p { lines = streams p.lines cs; waiting = still p.waiting cs }

read_loop-read_on :
    (cs : List (List ℕ)) (code : ℕ) (events : List Io) (p : Process)
    → length p.lines.leftovers < 1024
    → AllFit p.lines cs
    → read_loop true code (map got cs ++ events) p ≡ read_loop true code events (read_on cs p)
unfolding read_loop with_lines
read_loop-read_on [] code events p room fit = refl
read_loop-read_on (c ∷ cs) code events p room fit = rw (flush_fits c p.lines fit.0 room fit.1) (
    read_loop-got cs code events (record p { lines = stream p.lines c; waiting = false }) fit.1
      fit.2 refl)

-- The reads of one call that ends with a read pending.
abbrev pub pending : List (List ℕ) → List Io
pending cs = map got cs ++ failed io_pending ∷ []

-- The reads of the last call.
abbrev pub ending : List (List ℕ) → List Io
ending cs = map got cs ++ failed broken_pipe ∷ []

module _ (code : ℕ) (p : Process) (runs : p.running ≡ true) (room : length p.lines.leftovers < 1024)
    (cs : List (List ℕ)) (fit : AllFit p.lines cs) where
  flushio-pending :
      flushio true code (pending cs) p
      ≡ finished (record p { lines = streams p.lines cs; waiting = true })
  unfolding read_loop on_error
  flushio-pending =
      flushio-eq-read_loop code (pending cs) p runs
      ∙ read_loop-read_on cs code (failed io_pending ∷ []) p room fit

  closed_process : Process
  closed_process = record p { lines = streams p.lines cs }

  flushio-ending :
      flushio true code (ending cs) p
      ≡ finished (record (close_process code (read_on cs p)) {
        lines = last_line (streams p.lines cs) (streams p.lines cs).leftovers;
      })
  unfolding read_loop on_error close_process
  flushio-ending =
      flushio-eq-read_loop code (ending cs) p runs
      ∙ read_loop-read_on cs code (failed broken_pipe ∷ []) p room fit
      ∙ write_leftovers_lem (close_process code (read_on cs p)) (streams p.lines cs).leftovers refl

AllFit-append :
    (s : Lines) (cs ds : List (List ℕ))
    → AllFit s (cs ++ ds)
    → AllFit s cs × AllFit (streams s cs) ds
AllFit-append s [] ds fit = (tt, fit)
AllFit-append s (c ∷ cs) ds (text, room, fit) =
    let (a, b) = AllFit-append (stream s c) cs ds fit in ((text, room, a), b)

streams-append :
    (s : Lines) (cs ds : List (List ℕ)) → streams s (cs ++ ds) ≡ streams (streams s cs) ds
streams-append s [] ds = refl
streams-append s (c ∷ cs) ds = streams-append (stream s c) cs ds

AllFit-room :
    (s : Lines) (cs : List (List ℕ))
    → length s.leftovers < 1024
    → AllFit s cs
    → length (streams s cs).leftovers < 1024
AllFit-room s [] room fit = room
AllFit-room s (c ∷ cs) room (text, fits, fit) = AllFit-room (stream s c) cs fits fit

-- All the reads, those of the last call behind the others.
abbrev pub flat : List (List (List ℕ)) → List (List ℕ) → List (List ℕ)
flat [] cs = cs
flat (b ∷ bs) cs = b ++ flat bs cs

-- What is left when the run ends: the process has ended, and the lines and handles are these.
pub record IsOver (code : ℕ) (p : Process) (lines : Lines) (r : Ran) : Type 0 where
  pub last : Process
  pub result : r ≡ (if code == 0 then ran_well last else exits_with code last)
  pub ended : last.running ≡ false
  pub all_printed : last.lines ≡ last_line lines lines.leftovers
  pub all_closed : last.closed ≡ p.closed ++ output_read ∷ process_handle ∷ event ∷ []

while_running : (p : Process) (r : Ran) → p.running ≡ true → by_code (exit_code p) p r ≡ r
unfolding exit_code
while_running p r runs = ap (λ b. by_code (if b then nil else number p.exit_code) p r) runs

make_run-streams :
    (code : ℕ) (bs : List (List (List ℕ))) (cs : List (List ℕ)) (p : Process)
    → p.running ≡ true
    → length p.lines.leftovers < 1024
    → AllFit p.lines (flat bs cs)
    → IsOver code p
        (streams p.lines (flat bs cs))
        (make_run code (map pending bs ++ ending cs ∷ []) p)
unfolding make_run exit_code close_process
make_run-streams code [] cs p runs room fit =
    let last : Process = record (close_process code (read_on cs p)) {
      lines = last_line (streams p.lines cs) (streams p.lines cs).leftovers;
    } in
    record {
      last = last;
      result =
          while_running p _ runs
          ∙ ap (after_flush (make_run code [])) (flushio-ending code p runs room cs fit);
      ended = refl;
      all_printed = refl;
      all_closed = refl;
    }
make_run-streams code (b ∷ bs) cs p runs room fit =
    let (fit_b, fit_rest) = AllFit-append p.lines b (flat bs cs) fit in
    let rest =
      make_run-streams code bs cs (record p { lines = streams p.lines b; waiting = true }) runs
        (AllFit-room p.lines b room fit_b) fit_rest in
    record {
      last = rest.last;
      result =
          while_running p _ runs
          ∙ ap (after_flush (make_run code (map pending bs ++ ending cs ∷ [])))
              (flushio-pending code p runs room b fit_b)
          ∙ rest.result;
      ended = rest.ended;
      all_printed =
          rest.all_printed
          ∙ ap (λ s. last_line s s.leftovers) (sym (streams-append p.lines b (flat bs cs)));
      all_closed = rest.all_closed;
    }

-- For a running process, where the calls of make.proc.flushio each read some data and then find a read
-- pending, but the last finds ERROR_BROKEN_PIPE, and where no read has a zero byte, leaves 1024 bytes or more
-- behind, or begins with the LF of a CR LF: `make.run` comes to its end, with the error of the exit code when
-- that is not 0. Then the lines of the whole output are printed in order, the last one also without a line
-- end, and the three handles are closed once each.
pub make_run-IsOver :
    (code : ℕ) (bs : List (List (List ℕ))) (cs : List (List ℕ)) (p : Process)
    → p.running ≡ true
    → length p.lines.leftovers < 1024
    → AllFit p.lines (flat bs cs)
    → IsClean (fresh p.lines) (flat bs cs)
    → IsOver code p
        (stream p.lines (join (flat bs cs)))
        (make_run code (map pending bs ++ ending cs ∷ []) p)
make_run-IsOver code bs cs p runs room fit clean =
    subst (λ s. IsOver code p s (make_run code (map pending bs ++ ending cs ∷ []) p))
      (streams-eq-stream (flat bs cs) (fresh p.lines) clean ∙ unfold stream in refl)
      (make_run-streams code bs cs p runs room fit)
