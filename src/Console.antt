-- ===== src/Console.antt =====
-- make.cpp `l_message`, and lmakelib.cpp `make_message_helper` with its four callers: what is
-- done to the console, in order.
pub mod Texts
use presto_build.Base.{
  ℕ, zero, suc, bit_and, bit_or, List, [], ◌∷◌, ◌++◌, Bool, true, false, ◌==◌, ◌&&◌, Option, none,
  some, if◌then◌else◌,
}
use presto_build.Lua.{LuaApi, Frame, Value, nil, to_text, Outcome, returns, check_text, ◌>>=◌}
use presto_build.Env.{c_string}

-- SetConsoleTextAttribute on stdout, and bytes that are written to stderr.
pub data Call : Type 0 where
  attribute : ℕ → Call
  text : List ℕ → Call

-- "presto: *** "
abbrev pub prefix : List ℕ
prefix = b'p' ∷ b'r' ∷ b'e' ∷ b's' ∷ b't' ∷ b'o' ∷ b':' ∷ b' ' ∷ b'*' ∷ b'*' ∷ b'*' ∷ b' ' ∷ []

-- "stack traceback:"
abbrev pub stack_traceback : List ℕ
stack_traceback =
    b's' ∷ b't' ∷ b'a' ∷ b'c' ∷ b'k' ∷ b' ' ∷ b't' ∷ b'r' ∷ b'a' ∷ b'c' ∷ b'e' ∷ b'b' ∷ b'a' ∷ b'c'
    ∷ b'k' ∷ b':' ∷ []

-- `sbi.wAttributes & 0xf0 | color`
unfoldable pub colored : ℕ → ℕ → ℕ
colored attributes color = bit_or (bit_and attributes 0xf0) color

-- while(*next_line && *next_line++ != '\n') {}
unfoldable pub next_line : List ℕ → (List ℕ) × List ℕ
next_line [] = ([], [])
next_line (c ∷ cs) =
    let (line, rest) = next_line cs in if c == 10 then (c ∷ [], cs) else (c ∷ line, rest)

-- strncmp("stack traceback:", msg, 16) == 0
unfoldable pub begins_with : List ℕ → List ℕ → Bool
begins_with [] msg = true
begins_with (c ∷ cs) [] = false
begins_with (c ∷ cs) (d ∷ msg) = c == d && begins_with cs msg

abbrev pub write_line : ℕ → List ℕ → List ℕ → Option (List Call) → Option (List Call)
write_line attributes msg line none = none
write_line attributes msg line (some more) = some (
    if begins_with stack_traceback msg
    then attribute (colored attributes 0x08) ∷ text line ∷ more
    else text line ∷ more)

-- while(msg && *msg); none is fuel that ran out.
unfoldable pub write_lines : ℕ → ℕ → List ℕ → Option (List Call)
write_lines zero attributes msg = none
write_lines (suc fuel) attributes [] = some []
write_lines (suc fuel) attributes (c ∷ cs) =
    let (line, rest) = next_line (c ∷ cs) in
    write_line attributes (c ∷ cs) line (write_lines fuel attributes rest)

abbrev pub framed : ℕ → Option (List Call) → Option (List Call)
framed attributes none = none
framed attributes (some lines) = some (
    attribute (colored attributes 0x0c)
    ∷ text prefix
    ∷ attribute attributes
    ∷ (lines ++ text (10 ∷ []) ∷ attribute attributes ∷ []))

-- The attributes are those that GetConsoleScreenBufferInfo finds.
unfoldable pub l_message : ℕ → ℕ → List ℕ → Option (List Call)
l_message fuel attributes msg = framed attributes (write_lines fuel attributes msg)

unfoldable pub make_message_helper : LuaApi → ℕ → Frame → ℕ → Outcome (List Call)
make_message_helper api attributes frame color = do
  string ← check_text api frame 1
  returns (
      attribute (colored attributes color)
      ∷ text prefix
      ∷ attribute attributes
      ∷ text (c_string string)
      ∷ text (10 ∷ [])
      ∷ [])

unfoldable pub make_message : LuaApi → ℕ → Frame → Outcome (List Call)
make_message api attributes frame = make_message_helper api attributes frame 0x0b

unfoldable pub make_error : LuaApi → ℕ → Frame → Outcome (List Call)
make_error api attributes frame = make_message_helper api attributes frame 0x0c

unfoldable pub make_warning : LuaApi → ℕ → Frame → Outcome (List Call)
make_warning api attributes frame = make_message_helper api attributes frame 0x0e

unfoldable pub make_success : LuaApi → ℕ → Frame → Outcome (List Call)
make_success api attributes frame = make_message_helper api attributes frame 0x0a
