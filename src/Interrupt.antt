-- ===== src/Interrupt.antt =====
-- make.cpp: `setsignal`, `laction` and `lstop`, and what signals do to the process while Lua code runs.
pub mod Deaths
use presto_build.Base.{◌≡◌, List, [], ◌∷◌, Bool, true, false}

-- SIGABRT, SIGBREAK, SIGTERM and SIGINT
pub data Signal : Type 0 where
  abort stop terminate interrupt : Signal

-- SIG_DFL, which ends the process, `laction`, or another handler.
pub data Handler : Type 0 where
  default : Handler
  action : Handler
  other : Handler

pub record Handlers : Type 0 where
  pub on_abort : Handler
  pub on_stop : Handler
  pub on_terminate : Handler
  pub on_interrupt : Handler

-- `hook` says that `lstop` is the hook of the Lua state.
pub record Signals : Type 0 where
  pub handlers : Handlers
  pub hook : Bool

abbrev pub handler_of : Signal → Handlers → Handler
handler_of abort hs = hs.on_abort
handler_of stop hs = hs.on_stop
handler_of terminate hs = hs.on_terminate
handler_of interrupt hs = hs.on_interrupt

-- signal(i, handler)
abbrev pub set_handler : Signal → Handler → Handlers → Handlers
set_handler abort h hs = record hs { on_abort = h }
set_handler stop h hs = record hs { on_stop = h }
set_handler terminate h hs = record hs { on_terminate = h }
set_handler interrupt h hs = record hs { on_interrupt = h }

-- The handler of SIGINT that there was is returned.
unfoldable pub setsignal : Handler → Signals → Handler × Signals
setsignal h s = (
  s.handlers.on_interrupt,
  record s {
    handlers =
        set_handler interrupt h
          (set_handler terminate h (set_handler stop h (set_handler abort h s.handlers)));
  },
)

-- lua_sethook(g_L, lstop, LUA_MASKCALL | LUA_MASKRET | LUA_MASKCOUNT, 1)
unfoldable pub laction : Signal → Signals → Signals
laction i s = record { handlers = set_handler i default s.handlers; hook = true }

-- The hook is taken off; then "interrupted!" is raised.
unfoldable pub lstop : Signals → Signals
lstop s = record s { hook = false }

-- Lua code runs, an error goes through it, or the process is dead.
pub data Host : Type 0 where
  running : Signals → Host
  raising : Signals → Host
  killed : Host

-- What may become of the process, with the signals that came, the last one first. A call, a return or an
-- instruction runs the hook; Lua code may catch the error.
pub data Reach (start : Signals) : List Signal → Host → Type 0 where
  begin : Reach start [] (running start)
  came :
      {got : List Signal} {s : Signals} (i : Signal)
      → Reach start got (running s)
      → handler_of i s.handlers ≡ action
      → Reach start (i ∷ got) (running (laction i s))
  died :
      {got : List Signal} {s : Signals} (i : Signal)
      → Reach start got (running s)
      → handler_of i s.handlers ≡ default
      → Reach start (i ∷ got) killed
  stopped :
      {got : List Signal} {s : Signals}
      → Reach start got (running s)
      → s.hook ≡ true
      → Reach start got (raising (lstop s))
  caught :
      {got : List Signal} {s : Signals} → Reach start got (raising s) → Reach start got (running s)
