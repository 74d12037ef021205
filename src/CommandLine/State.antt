-- ===== src/CommandLine/State.antt =====
-- make.cpp `Smain` and the tables of the Lua library that the command line writes to.
use presto_build.Base.{
  ℕ, zero, suc, ◌+◌, ◌-◌, ◌*◌, List, [], ◌∷◌, Bool, true, false, ◌==◌, leb, ◌&&◌, ◌||◌, Option,
  if◌then◌else◌,
}
use presto_build.Lua.{Frame, Outcome, returns, LuaApi, check_text, ◌>>=◌}

-- The keys of `make.flags` that the switches set.
pub record Flags : Type 0 where
  pub always_make : Bool
  pub debug : Bool
  pub keep_going : Bool
  pub noisy : Bool
  pub question : Bool
  pub quit : Bool

pub data FlagName : Type 0 where
  always_make debug keep_going noisy question quit : FlagName

-- `slots` is a signed number; `negative` says that it lies below 0.
pub record Slots : Type 0 where
  pub negative : Bool
  pub count : ℕ

-- What Lua is asked to run.
pub data Chunk : Type 0 where
  statement : List ℕ → Chunk
  file : List ℕ → Chunk
  library : List ℕ → Chunk
  update_goals : Chunk

-- `goals` is none while `make.goals` is nil, as it is until mkinit.lua makes the table; `exit_status`,
-- `loaded_file` and `stop_early` are `status`, `loaded_file` and `quit` of `Smain`; `ran` is every chunk
-- that was called, in order.
pub record State : Type 0 where
  pub flags : Flags
  pub slots : Slots
  pub env : List ℕ → Option (List ℕ)
  pub goals : Option (List (List ℕ))
  pub directory : List ℕ
  pub exit_status : ℕ
  pub loaded_file : Bool
  pub stop_early : Bool
  pub ran : List Chunk

-- The Lua runtime: the status of luaL_loadfile and luaL_loadbuffer, and what lua_pcall does.
pub record Runtime : Type 0 where
  pub api : LuaApi
  pub load : Chunk → State → ℕ
  pub call : Chunk → State → ℕ × State
  pub set_directory : List ℕ → List ℕ → List ℕ

-- `set_flag(L, name, 1)`
unfoldable pub set_flag : FlagName → State → State
set_flag always_make s = record s { flags = record s.flags { always_make = true } }
set_flag debug s = record s { flags = record s.flags { debug = true } }
set_flag keep_going s = record s { flags = record s.flags { keep_going = true } }
set_flag noisy s = record s { flags = record s.flags { noisy = true } }
set_flag question s = record s { flags = record s.flags { question = true } }
set_flag quit s = record s { flags = record s.flags { quit = true }; stop_early = true }

unfoldable pub set_max_jobs : Slots → State → State
set_max_jobs n s =
    if n.count == 0
    then record s { slots = record { negative = false; count = 1024 } }
    else record s { slots = n }

abbrev pub is_space : ℕ → Bool
is_space c = c == 32 || (leb 9 c && leb c 13)

abbrev pub is_digit : ℕ → Bool
is_digit c = leb 48 c && leb c 57

unfoldable pub digits_from : ℕ → List ℕ → ℕ
digits_from n [] = n
digits_from n (c ∷ cs) =
    let more = digits_from (n * 10 + (c - 48)) cs in if is_digit c then more else n

abbrev after_spaces : List ℕ → Slots
after_spaces [] = record { negative = false; count = 0 }
after_spaces (c ∷ cs) =
    if c == 45
    then record { negative = true; count = digits_from 0 cs }
    else if c == 43
    then record { negative = false; count = digits_from 0 cs }
    else record { negative = false; count = digits_from 0 (c ∷ cs) }

-- `atoi`, on texts whose number fits an int.
unfoldable pub atoi : List ℕ → Slots
atoi [] = record { negative = false; count = 0 }
atoi (c ∷ cs) = let more = atoi cs in if is_space c then more else after_spaces (c ∷ cs)

-- lmakelib.cpp `make_dir_cd` on a frame: argument 1, if there is any argument, is the new directory.
unfoldable pub make_dir_cd : Runtime → Frame → State → Outcome State
make_dir_cd rt [] s = returns s
make_dir_cd rt (v ∷ frame) s = do
  path ← check_text rt.api (v ∷ frame) 1
  returns (record s { directory = rt.set_directory path s.directory })

-- `docall`: the chunk is logged, and then runs.
unfoldable pub docall : Runtime → Chunk → State → ℕ × State
docall rt c s = rt.call c (record s { ran = c ∷ s.ran })

abbrev or_status : ℕ → ℕ
or_status zero = 0
or_status (suc n) = 1

-- `dostring` and `dofile`: `luaL_load... || docall(...)`
unfoldable pub load_and_call : Runtime → Chunk → State → ℕ × State
unfolding docall
load_and_call rt c s =
    if rt.load c s == 0 then (let (status, t) = docall rt c s in (or_status status, t)) else (1, s)

-- `dolibrary`: `require` is a function that is there already.
unfoldable pub dolibrary : Runtime → List ℕ → State → ℕ × State
unfolding docall
dolibrary rt name s = docall rt (library name) s
