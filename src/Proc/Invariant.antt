-- ===== src/Proc/Invariant.antt =====
-- What every call of make.proc.flushio keeps, whatever the operating system answers.
use presto_build.Base.{
  ℕ, ◌+◌, ◌<◌, ◌≡◌, refl, ◌∙◌, ◌⊎◌, inl, inr, List, [], ◌∷◌, ◌++◌, Bool, true, false, ◌==◌, ◌||◌,
  leb, length, length-append, Bool-cases, if◌then◌else◌, arith,
}
use presto_build.Proc.Output.{
  Lines, Flushed, flushed, raised, overrun, leftovers_size, keep_line, end_line, scan, flush_helper,
}
use presto_build.Proc.Flush.{
  Process, Io, got, failed, Flush, finished, error_raised, overran, blocked, output_read,
  process_handle, event, broken_pipe, io_incomplete, io_pending, close_process, with_lines,
  write_leftovers, on_error, read_loop, resume, flushio,
}

abbrev pub HasRoom : Lines → Type 0
HasRoom s = length s.leftovers < 1024

abbrev pub KeepsRoom : Flushed → Type 0
KeepsRoom (flushed s) = HasRoom s
KeepsRoom (raised s) = HasRoom s
KeepsRoom overrun = Unit

keep_line-KeepsRoom : (line : List ℕ) (s : Lines) → HasRoom s → KeepsRoom (keep_line line s)
unfolding keep_line
keep_line-KeepsRoom [] s h = h
keep_line-KeepsRoom (c ∷ line) s h =
    elim (Bool-cases (leb leftovers_size (length s.leftovers + length (c ∷ line)))) [
      | inl over ↦ rw over tt
      | inr fits ↦ rw fits (ground (arith, length-append s.leftovers (c ∷ line)))
    ]

KeepsRoom-if :
    (b : Bool) (x y : Flushed) → KeepsRoom x → KeepsRoom y → KeepsRoom (if b then x else y)
KeepsRoom-if true x y hx hy = hx
KeepsRoom-if false x y hx hy = hy

end_line-HasRoom : (line : List ℕ) (s : Lines) → HasRoom (end_line line s)
unfolding end_line
end_line-HasRoom line s = omega arith

scan-KeepsRoom :
    (print_ok : Bool) (bytes line : List ℕ) (s : Lines)
    → HasRoom s
    → KeepsRoom (scan print_ok line bytes s)
unfolding scan
scan-KeepsRoom print_ok [] line s h = keep_line-KeepsRoom line s h
scan-KeepsRoom print_ok (c ∷ []) line s h =
    KeepsRoom-if (c == 0) _ _ (keep_line-KeepsRoom line s h) (
      KeepsRoom-if (c == 13) _ _
        (KeepsRoom-if print_ok _ _
          (keep_line-KeepsRoom [] (end_line line s) (end_line-HasRoom line s)) h)
        (keep_line-KeepsRoom (line ++ c ∷ []) s h))
scan-KeepsRoom print_ok (c ∷ d ∷ rest) line s h =
    KeepsRoom-if (c == 0) _ _ (keep_line-KeepsRoom line s h) (
      KeepsRoom-if (c == 13) _ _
        (KeepsRoom-if print_ok _ _
          (KeepsRoom-if (d == 10) _ _
            (scan-KeepsRoom print_ok rest [] (end_line line s) (end_line-HasRoom line s))
            (scan-KeepsRoom print_ok (d ∷ rest) [] (end_line line s) (end_line-HasRoom line s)))
          h)
        (scan-KeepsRoom print_ok (d ∷ rest) (line ++ c ∷ []) s h))

-- The handles of a process are open while it runs and closed once each when it has ended, no read is
-- pending then, and `leftovers` has a terminating zero in its 1024 bytes.
pub record IsProcess (p : Process) : Type 0 where
  pub room : HasRoom p.lines
  pub open_handles : p.running ≡ true → p.closed ≡ []
  pub closed_once : p.running ≡ false → p.closed ≡ output_read ∷ process_handle ∷ event ∷ []
  pub idle : p.running ≡ false → p.waiting ≡ false

abbrev pub Keeps : Flush → Type 0
Keeps (finished p) = IsProcess p
Keeps (error_raised p) = IsProcess p
Keeps overran = Unit
Keeps blocked = Unit

Keeps-if : (b : Bool) (x y : Flush) → Keeps x → Keeps y → Keeps (if b then x else y)
Keeps-if true x y hx hy = hx
Keeps-if false x y hx hy = hy

Keeps-choice :
    (b : Bool) (x y : Flush)
    → (b ≡ true → Keeps x)
    → (b ≡ false → Keeps y)
    → Keeps (if b then x else y)
Keeps-choice true x y hx hy = hx refl
Keeps-choice false x y hx hy = hy refl

-- The parts of a process that the invariant names beside its lines.
set_lines : {p : Process} (s : Lines) → HasRoom s → IsProcess p → IsProcess (record p { lines = s })
set_lines s h v = record {
  room = h;
  open_handles = v.open_handles;
  closed_once = v.closed_once;
  idle = v.idle;
}

with_lines-Keeps :
    (p : Process) (f : Flushed) (continue : Process → Flush)
    → KeepsRoom f
    → ((s : Lines) → HasRoom s → IsProcess (record p { lines = s }))
    → ((q : Process) → IsProcess q → q.running ≡ p.running → Keeps (continue q))
    → Keeps (with_lines p f continue)
unfolding with_lines
with_lines-Keeps p (flushed s) continue h v k = k (record p { lines = s }) (v s h) refl
with_lines-Keeps p (raised s) continue h v k = v s h
with_lines-Keeps p overrun continue h v k = tt

set_waiting :
    (p : Process) (b : Bool)
    → IsProcess p
    → (b ≡ false) ⊎ (p.running ≡ true)
    → IsProcess (record p { waiting = b })
set_waiting p b v h = record {
  room = v.room;
  open_handles = v.open_handles;
  closed_once = v.closed_once;
  idle = λ stopped. ground (arith, stopped);
}

close_process-IsProcess :
    (code : ℕ) (p : Process) → IsProcess p → p.running ≡ true → IsProcess (close_process code p)
unfolding close_process
close_process-IsProcess code p v runs = record {
  room = v.room;
  open_handles = λ e. cc;
  closed_once = λ e. rw (v.open_handles runs);
  idle = λ e. refl;
}

flush_helper-KeepsRoom :
    (print_ok : Bool) (bytes : List ℕ) (s : Lines)
    → HasRoom s
    → KeepsRoom (flush_helper print_ok bytes s)
unfolding flush_helper
flush_helper-KeepsRoom print_ok bytes s h = scan-KeepsRoom print_ok bytes [] s h

write_leftovers-Keeps :
    (print_ok : Bool) (waits : List ℕ) (p : Process)
    → IsProcess p
    → Keeps (write_leftovers print_ok waits p)
unfolding write_leftovers
write_leftovers-Keeps print_ok [] p v = v
write_leftovers-Keeps print_ok (c ∷ waits) p v =
    with_lines-Keeps p (flush_helper print_ok (13 ∷ []) p.lines) finished
      (flush_helper-KeepsRoom print_ok (13 ∷ []) p.lines v.room) (λ s h. set_lines s h v)
      (λ q w e. w)

on_error-Keeps :
    (print_ok : Bool) (code error : ℕ) (p : Process)
    → IsProcess p
    → p.running ≡ true
    → Keeps (on_error print_ok code error p)
unfolding on_error
on_error-Keeps print_ok code error p v runs =
    Keeps-if (error == broken_pipe) _ _
      (write_leftovers-Keeps print_ok p.lines.leftovers (close_process code p)
        (close_process-IsProcess code p v runs))
      (Keeps-if (error == io_incomplete || error == io_pending) _ _
        (set_waiting p true v (inr runs)) v)

read_loop-Keeps :
    (print_ok : Bool) (code : ℕ) (events : List Io) (p : Process)
    → IsProcess p
    → p.running ≡ true
    → Keeps (read_loop print_ok code events p)
unfolding read_loop
read_loop-Keeps print_ok code [] p v runs = tt
read_loop-Keeps print_ok code (failed error ∷ events) p v runs =
    on_error-Keeps print_ok code error p v runs
read_loop-Keeps print_ok code (got bytes ∷ events) p v runs =
    with_lines-Keeps p (flush_helper print_ok bytes p.lines) _
      (flush_helper-KeepsRoom print_ok bytes p.lines v.room) (λ s h. set_lines s h v)
      (λ q w e.
        read_loop-Keeps print_ok code events (record q { waiting = false })
          (set_waiting q false w (inl refl)) (e ∙ runs))

resume-eq-read_loop :
    (print_ok : Bool) (code : ℕ) (events : List Io) (p : Process)
    → resume print_ok code events p ≡ read_loop print_ok code events p
unfolding resume read_loop
resume-eq-read_loop print_ok code [] p = refl
resume-eq-read_loop print_ok code (got bytes ∷ events) p = refl
resume-eq-read_loop print_ok code (failed error ∷ events) p = refl

-- Whatever the operating system answers, and whether the call returns or raises, make.proc.flushio
-- keeps the invariant of a process, unless it overran the leftovers.
pub flushio-IsProcess :
    (print_ok : Bool) (code : ℕ) (events : List Io) (p : Process)
    → IsProcess p
    → Keeps (flushio print_ok code events p)
unfolding flushio
flushio-IsProcess print_ok code events p v = rw resume-eq-read_loop (
    Keeps-choice p.running _ _
      (λ runs.
        Keeps-if p.waiting _ _ (read_loop-Keeps print_ok code events p v runs)
          (read_loop-Keeps print_ok code events p v runs))
      (λ ended. v))
