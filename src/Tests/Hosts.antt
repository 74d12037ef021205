-- ===== src/Tests/Hosts.antt =====
-- Runs of the host program: signals, protected calls, and the tables that the library opens.
use mathlib.Core.List.{Memᴰ}
use presto_build.Base.{
  ℕ, ◌≡◌, ◌≢◌, ◌<◌, refl, ap, subst, List, [], ◌∷◌, Option, none, some, true, false, length, arith,
}
use presto_build.Lua.{Value, nil, number, string, function, Fields, end, table, returns, get_field}
use presto_build.CommandLine.State as Line
use presto_build.CommandLine.State.{
  FlagName, always_make, debug, keep_going, noisy, question, quit, State,
}
use presto_build.Env.{c_string}
use presto_build.Interrupt.{
  Signal, interrupt, Signals, default, Reach, begin, came, died, running, raising, killed, laction,
  lstop, setsignal,
}
use presto_build.Interrupt.Deaths.{armed, Reach-killed}
use presto_build.Protect.{message_of, Lua, dolibrary, traceback}
use presto_build.Protect.Stacks.{alike}
use presto_build.Protect.Failures.{Reports, traced, require_call, dolibrary-Reports}
use presto_build.Register.{
  set_flag, luaopen_make, make_field, key_make, key_env, key_jobs, key_path, key_file, key_dir,
  key_proc, make_rootlib, make_pathlib, make_filelib, make_dirlib, make_proclib,
}
use presto_build.Register.Reads.{flag_of, IsRead, set_flag-IsRead}
use presto_build.Register.Opened.{AreFunctions, IsIdle, luaopen_make-IsRead}
use presto_build.Tests.Arguments.{initial}

abbrev at_start : Signals
at_start = record { handlers = alike default; hook = false }

Reach-killed_example :
    (Reach (armed at_start) (interrupt ∷ []) killed
      → (k : Signal) × (rest : List Signal) × ((interrupt ∷ []) ≡ k ∷ rest) × Memᴰ k rest)
    × ((i : Signal) (x : Signals)
        → Reach (armed at_start) (interrupt ∷ []) (running x)
        → (Memᴰ i (interrupt ∷ []) → ⊥)
        → Reach (armed at_start) (i ∷ interrupt ∷ []) (running (laction i x))
          × Reach (armed at_start) (i ∷ interrupt ∷ []) (raising (lstop (laction i x))))
    × ((x : Signals) → Reach (armed at_start) (interrupt ∷ []) (raising x) → (interrupt ∷ []) ≢ [])
Reach-killed_example = Reach-killed at_start refl (interrupt ∷ [])

-- A second SIGINT kills the process.
killed_at_second : Reach (armed at_start) (interrupt ∷ interrupt ∷ []) killed
unfolding setsignal laction
killed_at_second = died interrupt (came interrupt begin refl) refl

-- Every function fails with the error object "bad", and debug.traceback adds "!".
abbrev failing : Lua
failing = record {
  api = record { number_text = λ v. b'1' ∷ [] };
  call = λ f args s. record { failure = some (1, string (b'b' ∷ b'a' ∷ b'd' ∷ [])); signals = s };
  debug = table end;
  stack_trace = λ v. v;
}

abbrev bad : Value
bad = string (b'b' ∷ b'a' ∷ b'd' ∷ [])

abbrev failure_of : ℕ → Value → Option (ℕ × Value)
failure_of n v = some (n, v)

abbrev object_of : Option (ℕ × Value) → Value
object_of none = nil
object_of (some (code, e)) = e

short_message :
    (n code : ℕ) (e : Value)
    → failure_of n bad ≡ failure_of code e
    → length (message_of failing e) < 4
unfolding c_string
short_message n code e same =
    subst (λ v. length (message_of failing v) < 4) (ap object_of same) (ground arith)

no_flags : (k : FlagName) → flag_of k initial.flags ≡ false
no_flags always_make = refl
no_flags debug = refl
no_flags keep_going = refl
no_flags noisy = refl
no_flags question = refl
no_flags quit = refl

dolibrary-Reports_example :
    Reports failing 7
      (number 5 ∷ [])
      (traced failing (require_call failing function (b'x' ∷ []) at_start).failure)
      (dolibrary failing 4 7 function (b'x' ∷ []) (number 5 ∷ []) at_start)
    × ((dolibrary failing 4 7 function (b'x' ∷ []) (number 5 ∷ []) at_start).left.signals.handlers
        ≡ alike default)
unfolding traceback get_field
dolibrary-Reports_example =
    dolibrary-Reports failing 4 7 function (b'x' ∷ []) (number 5 ∷ []) at_start (short_message 1)

abbrev opened : Fields
opened = luaopen_make (number 0) end end

luaopen_make-IsRead_example :
    IsRead opened initial
    × IsIdle (make_field key_jobs opened)
    × (make_field key_env opened ≡ table end)
    × AreFunctions make_rootlib (get_field key_make opened)
    × AreFunctions make_pathlib (make_field key_path opened)
    × AreFunctions make_filelib (make_field key_file opened)
    × AreFunctions make_dirlib (make_field key_dir opened)
    × AreFunctions make_proclib (make_field key_proc opened)
luaopen_make-IsRead_example = luaopen_make-IsRead (number 0) end end initial no_flags refl refl

opened-IsRead : IsRead opened initial
opened-IsRead = luaopen_make-IsRead_example.0

set_flag-IsRead_example :
    (after : Fields) × (set_flag question true opened ≡ returns after)
    × IsRead after (Line.set_flag question initial)
set_flag-IsRead_example = set_flag-IsRead question opened initial opened-IsRead
