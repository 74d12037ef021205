-- ===== src/Lua.antt =====
-- What the C code uses of a running Lua state (lua.h and lauxlib.h, a library of another project):
-- values, the frame of arguments that a C function is called with, and errors that are raised.
use presto_build.Base.{
  ℕ, zero, suc, Bool, Option, none, some, List, [], ◌∷◌, same_text, false, if◌then◌else◌,
}
use Prim.Native.String.{String}

-- Text is bytes: UTF-8 on the Lua side.
abbrev pub Bytes : Type 0
Bytes = List ℕ

-- `number` is an integral number, `ticks` a time that is pushed as `time * 1.0e-7` seconds: the
-- units before the stated second, and whether it lies before the start.
mutual
  pub data Value : Type 0 where
    nil : Value
    boolean : Bool → Value
    number : ℕ → Value
    ticks : Bool → ℕ → Value
    string : List ℕ → Value
    table : Fields → Value
    function : Value
    userdata : Value

  pub data Fields : Type 0 where
    end : Fields
    field : Value → Value → Fields → Fields

-- The stack as a C function sees it, index 1 first.
abbrev pub Frame : Type 0
Frame = List Value

pub data LuaError : Type 0 where
  -- luaL_checktype, luaL_checklstring and luaL_argcheck at a stack index
  bad_argument : ℕ → LuaError
  -- luaL_checktype at the top of the stack
  bad_top : LuaError
  -- luaL_error, by its format
  message : String → LuaError
  -- an error that a called function raised
  thrown : Value → LuaError

pub data Outcome {ℓ} (A : Type ℓ) : Type ℓ where
  returns : A → Outcome A
  raises : LuaError → Outcome A

infixl 5 ◌>>=◌
abbrev pub ◌>>=◌ {ℓ κ} : {A : Type ℓ} {B : Type κ} → Outcome A → (A → Outcome B) → Outcome B
returns a >>= f = f a
raises e >>= f = raises e

-- How lua_tolstring writes a number.
pub record LuaApi : Type 0 where
  pub number_text : Value → List ℕ

-- The value at an index; an index past the top reads as none, here as nil.
abbrev pub at_index : Frame → ℕ → Value
at_index frame zero = nil
at_index [] (suc i) = nil
at_index (v ∷ frame) (suc zero) = v
at_index (v ∷ frame) (suc (suc i)) = at_index frame (suc i)

-- lua_tolstring: a number is written as text, any other value is refused.
abbrev pub to_text : LuaApi → Value → Option (List ℕ)
to_text api (string s) = some s
to_text api (number n) = some (api.number_text (number n))
to_text api (ticks b n) = some (api.number_text (ticks b n))
to_text api _ = none

abbrev text_or : ℕ → Option (List ℕ) → Outcome (List ℕ)
text_or i none = raises (bad_argument i)
text_or i (some s) = returns s

abbrev pub is_key : List ℕ → Value → Bool
is_key key (string name) = same_text name key
is_key key _ = false

-- lua_getfield on a table: a key that is not there reads as nil.
unfoldable pub get_field : List ℕ → Fields → Value
get_field key end = nil
get_field key (field name v fields) =
    let rest = get_field key fields in if is_key key name then v else rest

-- lua_setfield on a table.
unfoldable pub set_field : List ℕ → Value → Fields → Fields
set_field key v end = field (string key) v end
set_field key v (field name old fields) =
    let rest = set_field key v fields in
    if is_key key name then field name v fields else field name old rest

-- luaL_checklstring
abbrev pub check_text : LuaApi → Frame → ℕ → Outcome (List ℕ)
check_text api frame i = text_or i (to_text api (at_index frame i))
