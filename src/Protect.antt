-- ===== src/Protect.antt =====
-- make.cpp: `traceback`, `docall`, `report`, `dofile`, `dostring` and `dolibrary`, on the stack of the Lua state.
pub mod Stacks
pub mod Failures
use presto_build.Base.{
  ℕ, zero, suc, ◌+◌, ◌-◌, ◌||◌, ◌==◌, Option, none, some, List, [], ◌∷◌, ◌++◌, length, take, drop,
  Bool, true, false, same_text, if◌then◌else◌,
}
use presto_build.Lua.{
  Value, nil, boolean, number, ticks, string, table, function, userdata, Fields, end, field, LuaApi,
  Frame, at_index, to_text, get_field,
}
use presto_build.Env.{c_string}
use presto_build.Console.{Call, l_message}
use presto_build.Interrupt.{Handler, action, Signals, setsignal}

-- How lua_pcall ends: with the status, less 1, and the error object of a failure,
-- before the function at `base` has had it, and with the signals as they are then.
pub record Called : Type 0 where
  pub failure : Option (ℕ × Value)
  pub signals : Signals

-- The Lua runtime: what a function does with its arguments, the text of a value, the global `debug`, and
-- what debug.traceback returns for a message.
pub record Lua : Type 0 where
  pub api : LuaApi
  pub call : Value → List Value → Signals → Called
  pub debug : Value
  pub stack_trace : Value → Value

-- "traceback"
abbrev pub traceback_name : List ℕ
traceback_name = b't' ∷ b'r' ∷ b'a' ∷ b'c' ∷ b'e' ∷ b'b' ∷ b'a' ∷ b'c' ∷ b'k' ∷ []

-- lua_isstring
abbrev pub is_string : Value → Bool
is_string (string s) = true
is_string (number n) = true
is_string (ticks b n) = true
is_string _ = false

abbrev pub is_function : Value → Bool
is_function function = true
is_function _ = false

abbrev trace_with : Lua → Value → Value → Value
trace_with lua (table fields) message =
    if is_function (get_field traceback_name fields) then lua.stack_trace message else message
trace_with lua _ message = message

-- `traceback`: the message is kept where it is no text, or where debug.traceback is no function.
unfoldable pub traceback : Lua → Value → Value
traceback lua message = if is_string message then trace_with lua lua.debug message else message

-- lua_insert: the value on top is moved to an index, counted from 1 at the bottom.
abbrev pub insert_at : ℕ → Value → List Value → List Value
insert_at index v stack = take (index - 1) stack ++ v ∷ drop (index - 1) stack

-- lua_remove
abbrev pub remove_at : ℕ → List Value → List Value
remove_at index stack = take (index - 1) stack ++ drop index stack

-- The arguments of a call and its function, taken off the stack.
abbrev pub function_of : ℕ → List Value → Value
function_of narg stack = at_index stack (length stack - narg)

abbrev pub arguments_of : ℕ → List Value → List Value
arguments_of narg stack = drop (length stack - narg) stack

abbrev pub below : ℕ → List Value → List Value
below narg stack = take (length stack - (narg + 1)) stack

-- LUA_ERRRUN, less 1. The function at the index `base` is called for this status only: a memory error, an
-- error in that function itself and the like leave their own object.
abbrev pub is_run_error : ℕ → Bool
is_run_error code = code == 1

-- The error object: it goes through the function at the index `base`, which is `traceback`, unless that is 0.
abbrev pub error_object : Lua → Bool → ℕ → Value → Value
error_object lua true code e = if is_run_error code then traceback lua e else e
error_object lua false code e = e

-- lua_pcall(L, narg, 0, base): the status, and the stack.
abbrev pub after_call : Lua → Bool → List Value → Option (ℕ × Value) → ℕ × List Value
after_call lua traced stack none = (0, stack)
after_call lua traced stack (some (code, e)) =
    (suc code, stack ++ error_object lua traced code e ∷ [])

-- What a call leaves.
pub record Left : Type 0 where
  pub status : ℕ
  pub stack : List Value
  pub signals : Signals

-- lua_pcall between the two calls of setsignal, and what it leaves.
abbrev pub protected : Lua → Bool → ℕ → List Value → Signals → Left
protected lua traced narg stack s =
    let (oldsig, armed) = setsignal action s in
    let called = lua.call (function_of narg stack) (arguments_of narg stack) armed in
    let (status, left) = after_call lua traced (below narg stack) called.failure in
    record { status = status; stack = left; signals = (setsignal oldsig called.signals).1 }

-- lua_remove(L, base)
abbrev pub without : ℕ → Left → Left
without base left = record left { stack = remove_at base left.stack }

-- `docall`; a C function stands for `traceback` on the stack.
unfoldable pub docall : Lua → ℕ → Bool → List Value → Signals → Left
docall lua narg false stack s = protected lua false narg stack s
docall lua narg true stack s =
    let base = length stack - narg in
    without base (protected lua true narg (insert_at base function stack) s)

-- "(error object is not a string)"
abbrev pub no_text : List ℕ
no_text =
    b'(' ∷ b'e' ∷ b'r' ∷ b'r' ∷ b'o' ∷ b'r' ∷ b' ' ∷ b'o' ∷ b'b' ∷ b'j' ∷ b'e' ∷ b'c' ∷ b't' ∷ b' '
    ∷ b'i' ∷ b's' ∷ b' ' ∷ b'n' ∷ b'o' ∷ b't' ∷ b' ' ∷ b'a' ∷ b' ' ∷ b's' ∷ b't' ∷ b'r' ∷ b'i'
    ∷ b'n' ∷ b'g' ∷ b')' ∷ []

abbrev pub message_of : Lua → Value → List ℕ
message_of lua v = elim (to_text lua.api v) [ none ↦ no_text | some text ↦ c_string text ]

abbrev pub is_nil_object : Value → Bool
is_nil_object nil = true
is_nil_object _ = false

-- LUA_OK is 0.
abbrev pub succeeded : ℕ → Bool
succeeded zero = true
succeeded (suc n) = false

-- What `report` leaves: the calls on the console, where `none` is fuel that ran out, the status, and the rest.
pub record Reported : Type 0 where
  pub console : Option (List Call)
  pub left : Left

-- The value on top of the stack; of an empty one, nil.
abbrev pub top : List Value → Value
top stack = at_index stack (length stack)

unfoldable pub report : Lua → ℕ → ℕ → Left → Reported
report lua fuel attributes left =
    if succeeded left.status || is_nil_object (top left.stack)
    then record { console = some []; left = left }
    else record {
      console = l_message fuel attributes (message_of lua (top left.stack));
      left = record left { stack = take (length left.stack - 1) left.stack };
    }

-- luaL_loadfile and luaL_loadbuffer push a function, or give a status that is not 0 and push a message.
pub data Loaded : Type 0 where
  loaded : Value → Loaded
  unloaded : Value → Loaded

-- `status = luaL_load...(...) || docall(L, 0)`
abbrev pub load_or_call : Lua → Loaded → List Value → Signals → Left
load_or_call lua (unloaded e) stack s = record { status = 1; stack = stack ++ e ∷ []; signals = s }
load_or_call lua (loaded f) stack s =
    let left = docall lua 0 true (stack ++ f ∷ []) s in
    record left { status = if succeeded left.status then 0 else 1 }

-- `dofile` and `dostring`
unfoldable pub dofile : Lua → ℕ → ℕ → Loaded → List Value → Signals → Reported
dofile lua fuel attributes chunk stack s =
    report lua fuel attributes (load_or_call lua chunk stack s)

-- `dolibrary`: the global `require` is called with the name.
unfoldable pub dolibrary : Lua → ℕ → ℕ → Value → List ℕ → List Value → Signals → Reported
dolibrary lua fuel attributes require name stack s =
    report lua fuel attributes (docall lua 1 true (stack ++ require ∷ string name ∷ []) s)
