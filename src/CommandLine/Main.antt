-- ===== src/CommandLine/Main.antt =====
-- make.cpp `pmain` and `main`.
use presto_build.Base.{
  ℕ, zero, suc, List, [], ◌∷◌, Bool, true, false, ◌==◌, Option, none, some, if◌then◌else◌,
}
use presto_build.Lua.{LuaError, bad_top, message, thrown, nil}
use presto_build.CommandLine.State.{
  Chunk, statement, file, update_goals, State, Runtime, docall, load_and_call, dolibrary,
}
use presto_build.CommandLine.Parse.{Parse, goes_on, stops, fails, parse}

-- What the program finds when it starts. `initial` is the state that `luaopen_make` leaves: no flags, one
-- slot, the environment, and no goals table.
pub record World : Type 0 where
  pub arguments : List (List ℕ)
  pub initial : State
  pub presto_init : Option (List ℕ)
  pub exists : List ℕ → State → Bool

-- `pmain` goes on, returns, or is left by a Lua error.
pub data Run : Type 0 where
  runs : State → Run
  over : State → Run
  errored : LuaError → Run

infixl 5 ◌>>=◌
abbrev pub ◌>>=◌ : Run → (State → Run) → Run
runs s >>= k = k s
over s >>= k = over s
errored e >>= k = errored e

-- `handle_status`
unfoldable pub or_return : ℕ × State → Run
or_return (zero, s) = runs (record s { exit_status = 0 })
or_return (suc n, s) = over (record s { exit_status = suc n })

-- `parse_commandline(L, ...); if(s->status) return 0;`: a parse that stopped without a status goes on too.
unfoldable pub after_pass : Parse → Run
after_pass (goes_on b s) = if s.exit_status == 0 then runs s else over s
after_pass (stops s) = if s.exit_status == 0 then runs s else over s
after_pass (fails e) = errored e

unfoldable pub pass : Runtime → World → Bool → State → Run
pass rt w executes s = after_pass (parse rt executes true w.arguments s)

-- "mkinit" and "mksite"
abbrev pub mkinit : List ℕ
mkinit = b'm' ∷ b'k' ∷ b'i' ∷ b'n' ∷ b'i' ∷ b't' ∷ []

abbrev pub mksite : List ℕ
mksite = b'm' ∷ b'k' ∷ b's' ∷ b'i' ∷ b't' ∷ b'e' ∷ []

-- "makefile" and "makefile.lua"
abbrev pub makefile : List ℕ
makefile = b'm' ∷ b'a' ∷ b'k' ∷ b'e' ∷ b'f' ∷ b'i' ∷ b'l' ∷ b'e' ∷ []

abbrev pub makefile_lua : List ℕ
makefile_lua =
    b'm' ∷ b'a' ∷ b'k' ∷ b'e' ∷ b'f' ∷ b'i' ∷ b'l' ∷ b'e' ∷ b'.' ∷ b'l' ∷ b'u' ∷ b'a' ∷ []

-- The PRESTO_INIT variable: a file behind an `@`, or a statement.
unfoldable pub init_chunk : List ℕ → Chunk
init_chunk [] = statement []
init_chunk (c ∷ cs) = if c == b'@' then file cs else statement (c ∷ cs)

unfoldable pub run_init : Runtime → Option (List ℕ) → State → Run
run_init rt none s = runs s
run_init rt (some text) s = or_return (load_and_call rt (init_chunk text) s)

unfoldable pub load_makefile : Runtime → World → State → Run
load_makefile rt w s =
    if s.loaded_file
    then runs s
    else if w.exists makefile_lua s
    then or_return (load_and_call rt (file makefile_lua) s)
    else if w.exists makefile s
    then or_return (load_and_call rt (file makefile) s)
    else errored (message "No targets specified and no makefile found.  Stop.")

-- `make.update_goals()`: `load` says whether the field is a function; a failing call raises nil.
unfoldable pub finish : ℕ × State → Run
finish (zero, s) = over s
finish (suc n, s) = errored (thrown nil)

unfoldable pub run_goals : Runtime → State → Run
run_goals rt s =
    if rt.load update_goals s == 0 then finish (docall rt update_goals s) else errored bad_top

unfoldable pub build : Runtime → World → State → Run
build rt w s = if s.stop_early then over s else do t ← load_makefile rt w s; run_goals rt t

unfoldable pub pmain : Runtime → World → Run
pmain rt w = do
  s ← pass rt w false w.initial
  s ← or_return (dolibrary rt mkinit s)
  s ← or_return (dolibrary rt mksite s)
  s ← run_init rt w.presto_init s
  s ← pass rt w true s
  build rt w s

-- EXIT_SUCCESS is 0 and EXIT_FAILURE 1.
unfoldable pub exit_code_of : Run → ℕ
exit_code_of (runs s) = if s.exit_status == 0 then 0 else 1
exit_code_of (over s) = if s.exit_status == 0 then 0 else 1
exit_code_of (errored e) = 1

unfoldable pub main : Runtime → World → ℕ
main rt w = exit_code_of (pmain rt w)
