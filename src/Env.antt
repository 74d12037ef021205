-- ===== src/Env.antt =====
-- lmakelib.cpp: the environment block that `make_proc_spawn` writes for a child, and the reading of such
-- a block in `luaopen_make`.
pub mod RoundTrip
use presto_build.Base.{
  ℕ, Bool, zero, suc, ◌+◌, List, [], ◌∷◌, ◌++◌, map, length, Option, none, some, ◌==◌, leb, ltb,
  if◌then◌else◌,
}
use presto_build.Lua.{LuaApi, Value, to_text, Outcome, returns, raises, bad_top}
use presto_build.CommandLine.Parse.{toupper}

-- `NULL`, the bytes in `env_buffer`, or a write past its end, which C leaves undefined.
pub data Block : Type 0 where
  inherits : Block
  block : List ℕ → Block
  overruns : Block

abbrev pub env_size : ℕ
env_size = 32768

-- `while(*name)`: a C string ends at its first zero byte.
unfoldable pub c_string : List ℕ → List ℕ
c_string [] = []
c_string (c ∷ cs) = let rest = c_string cs in if c == 0 then [] else c ∷ rest

-- `*env++ = ...` for some bytes, behind those that are there, and what follows.
unfoldable pub put : List ℕ → List ℕ → (List ℕ → Outcome Block) → Outcome Block
put buffer bytes next =
    let more = next (buffer ++ bytes) in
    if leb (length buffer + length bytes) env_size then more else returns overruns

-- luaL_checkstring(L,-1)
abbrev pub with_value : Option (List ℕ) → (List ℕ → Outcome Block) → Outcome Block
with_value none next = raises bad_top
with_value (some value) next = next value

-- The loop over the table: its string keys with their values, in the order of lua_next. (A key that is a
-- number would be changed in place by luaL_checkstring, which lua_next does not allow.)
unfoldable pub write_env : LuaApi → List (List ℕ × Value) → List ℕ → Outcome Block
write_env api [] buffer = put buffer (0 ∷ []) (λ done. returns (block done))
write_env api ((name, v) ∷ fields) buffer = put buffer (c_string name ++ b'=' ∷ []) (λ named.
    with_value (to_text api v)
      (λ value. put named (c_string value ++ 0 ∷ []) (write_env api fields)))

-- The second argument of make.proc.spawn: nil, or a table.
unfoldable pub spawn_env : LuaApi → Option (List (List ℕ × Value)) → Outcome Block
spawn_env api none = returns inherits
spawn_env api (some fields) = write_env api fields []

abbrev consed : ℕ → Option ((List ℕ) × List ℕ) → Option ((List ℕ) × List ℕ)
consed c none = none
consed c (some (before, after)) = some (c ∷ before, after)

-- The bytes before the first `stop` and those behind it; none reads past the end of the block.
unfoldable pub until : ℕ → List ℕ → Option ((List ℕ) × List ℕ)
until stop [] = none
until stop (c ∷ cs) = let rest = until stop cs in if c == stop then some ([], cs) else consed c rest

-- The assignments to `make.env`, in order; or a write past the end of `keyb` or `valueb`; or a read past the end
-- of the block, or fuel that ran out.
pub data Reading : Type 0 where
  reads : List ((List ℕ) × List ℕ) → Reading
  overran : Reading
  astray : Reading

-- `char keyb[32768], valueb[32768]`: there is room for the bytes and the zero behind them.
abbrev pub has_room : List ℕ → Bool
has_room bytes = ltb (length bytes) 32768

-- `make.env[key] = value`, unless the key is empty.
abbrev pub set_env : List ℕ → List ℕ → Reading → Reading
set_env [] value (reads more) = reads more
set_env (k ∷ ks) value (reads more) = reads ((map toupper (k ∷ ks), value) ∷ more)
set_env key value overran = overran
set_env key value astray = astray

abbrev pub read_value : List ℕ → Option ((List ℕ) × List ℕ) → (List ℕ → Reading) → Reading
read_value key none next = astray
read_value key (some (value, rest)) next =
    let more = set_env key value (next rest) in if has_room value then more else overran

abbrev pub read_key : Option ((List ℕ) × List ℕ) → (List ℕ → Reading) → Reading
read_key none next = astray
read_key (some (key, rest)) next =
    let more = read_value key (until 0 rest) next in if has_room key then more else overran

-- The loop `while(*env)`, on fuel.
unfoldable pub read_env : ℕ → List ℕ → Reading
read_env zero bytes = astray
read_env (suc fuel) [] = astray
read_env (suc fuel) (c ∷ cs) =
    let entry = read_key (until b'=' (c ∷ cs)) (read_env fuel) in if c == 0 then reads [] else entry
