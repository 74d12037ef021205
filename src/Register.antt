-- ===== src/Register.antt =====
-- lmakelib.cpp: `luaopen_make`, the arrays of the functions that it registers, and `make_dofile`; make.cpp:
-- `set_flag` and `set_max_jobs` on the tables.
pub mod Lookups
pub mod Reads
pub mod Opened
use presto_build.Base.{ℕ, zero, suc, List, [], ◌∷◌, Bool, true, false}
use presto_build.Lua.{
  Value, nil, boolean, number, string, table, function, Fields, end, Frame, Outcome, returns,
  raises, message, bad_top, ◌>>=◌, at_index, get_field, set_field,
}
use presto_build.CommandLine.State.{FlagName, always_make, debug, keep_going, noisy, question, quit}

abbrev pub key_make : List ℕ
key_make = b'm' ∷ b'a' ∷ b'k' ∷ b'e' ∷ []

abbrev pub key_env : List ℕ
key_env = b'e' ∷ b'n' ∷ b'v' ∷ []

abbrev pub key_jobs : List ℕ
key_jobs = b'j' ∷ b'o' ∷ b'b' ∷ b's' ∷ []

abbrev pub key_pos : List ℕ
key_pos = b'p' ∷ b'o' ∷ b's' ∷ []

abbrev pub key_slots : List ℕ
key_slots = b's' ∷ b'l' ∷ b'o' ∷ b't' ∷ b's' ∷ []

abbrev pub key_count : List ℕ
key_count = b'c' ∷ b'o' ∷ b'u' ∷ b'n' ∷ b't' ∷ []

abbrev pub key_running : List ℕ
key_running = b'r' ∷ b'u' ∷ b'n' ∷ b'n' ∷ b'i' ∷ b'n' ∷ b'g' ∷ []

abbrev pub key_flags : List ℕ
key_flags = b'f' ∷ b'l' ∷ b'a' ∷ b'g' ∷ b's' ∷ []

abbrev pub key_goals : List ℕ
key_goals = b'g' ∷ b'o' ∷ b'a' ∷ b'l' ∷ b's' ∷ []

abbrev pub key_beginning_of_time : List ℕ
key_beginning_of_time =
    b'b' ∷ b'e' ∷ b'g' ∷ b'i' ∷ b'n' ∷ b'n' ∷ b'i' ∷ b'n' ∷ b'g' ∷ b'_' ∷ b'o' ∷ b'f' ∷ b'_' ∷ b't'
    ∷ b'i' ∷ b'm' ∷ b'e' ∷ []

abbrev pub key_dofile : List ℕ
key_dofile = b'd' ∷ b'o' ∷ b'f' ∷ b'i' ∷ b'l' ∷ b'e' ∷ []

abbrev pub key_path : List ℕ
key_path = b'p' ∷ b'a' ∷ b't' ∷ b'h' ∷ []

abbrev pub key_file : List ℕ
key_file = b'f' ∷ b'i' ∷ b'l' ∷ b'e' ∷ []

abbrev pub key_dir : List ℕ
key_dir = b'd' ∷ b'i' ∷ b'r' ∷ []

abbrev pub key_proc : List ℕ
key_proc = b'p' ∷ b'r' ∷ b'o' ∷ b'c' ∷ []

-- `make_pathlib`
abbrev pub make_pathlib : List (List ℕ)
make_pathlib =
    (b'c' ∷ b'a' ∷ b'n' ∷ b'o' ∷ b'n' ∷ b'i' ∷ b'c' ∷ b'a' ∷ b'l' ∷ b'i' ∷ b'z' ∷ b'e' ∷ [])
    ∷ (b'a' ∷ b'd' ∷ b'd' ∷ b'_' ∷ b's' ∷ b'l' ∷ b'a' ∷ b's' ∷ b'h' ∷ [])
    ∷ (b'r' ∷ b'e' ∷ b'm' ∷ b'o' ∷ b'v' ∷ b'e' ∷ b'_' ∷ b's' ∷ b'l' ∷ b'a' ∷ b's' ∷ b'h' ∷ [])
    ∷ (b'i' ∷ b's' ∷ b'_' ∷ b'r' ∷ b'e' ∷ b'l' ∷ b'a' ∷ b't' ∷ b'i' ∷ b'v' ∷ b'e' ∷ [])
    ∷ (b'q' ∷ b'u' ∷ b'o' ∷ b't' ∷ b'e' ∷ [])
    ∷ (b'u' ∷ b'n' ∷ b'q' ∷ b'u' ∷ b'o' ∷ b't' ∷ b'e' ∷ [])
    ∷ (b'a' ∷ b'd' ∷ b'd' ∷ b'_' ∷ b'e' ∷ b'x' ∷ b't' ∷ [])
    ∷ (b'g' ∷ b'e' ∷ b't' ∷ b'_' ∷ b'e' ∷ b'x' ∷ b't' ∷ [])
    ∷ (b'c' ∷ b'h' ∷ b'a' ∷ b'n' ∷ b'g' ∷ b'e' ∷ b'_' ∷ b'e' ∷ b'x' ∷ b't' ∷ [])
    ∷ (b'r' ∷ b'e' ∷ b'm' ∷ b'o' ∷ b'v' ∷ b'e' ∷ b'_' ∷ b'e' ∷ b'x' ∷ b't' ∷ [])
    ∷ (b'g' ∷ b'e' ∷ b't' ∷ b'_' ∷ b'n' ∷ b'a' ∷ b'm' ∷ b'e' ∷ [])
    ∷ (b'g' ∷ b'e' ∷ b't' ∷ b'_' ∷ b'd' ∷ b'i' ∷ b'r' ∷ [])
    ∷ (b'c' ∷ b'o' ∷ b'm' ∷ b'b' ∷ b'i' ∷ b'n' ∷ b'e' ∷ [])
    ∷ (b'c' ∷ b'o' ∷ b'm' ∷ b'm' ∷ b'o' ∷ b'n' ∷ [])
    ∷ (b's' ∷ b'h' ∷ b'o' ∷ b'r' ∷ b't' ∷ [])
    ∷ (b'l' ∷ b'o' ∷ b'n' ∷ b'g' ∷ [])
    ∷ (b'f' ∷ b'u' ∷ b'l' ∷ b'l' ∷ [])
    ∷ (b'g' ∷ b'l' ∷ b'o' ∷ b'b' ∷ [])
    ∷ (b'w' ∷ b'h' ∷ b'e' ∷ b'r' ∷ b'e' ∷ [])
    ∷ (b't' ∷ b'o' ∷ b'_' ∷ b'o' ∷ b's' ∷ [])
    ∷ (b'f' ∷ b'r' ∷ b'o' ∷ b'm' ∷ b'_' ∷ b'o' ∷ b's' ∷ [])
    ∷ []

-- `make_filelib`
abbrev pub make_filelib : List (List ℕ)
make_filelib =
    (b'e' ∷ b'x' ∷ b'i' ∷ b's' ∷ b't' ∷ b's' ∷ [])
    ∷ (b't' ∷ b'e' ∷ b'm' ∷ b'p' ∷ [])
    ∷ (b'c' ∷ b'o' ∷ b'p' ∷ b'y' ∷ [])
    ∷ (b't' ∷ b'o' ∷ b'u' ∷ b'c' ∷ b'h' ∷ [])
    ∷ (b'd' ∷ b'e' ∷ b'l' ∷ b'e' ∷ b't' ∷ b'e' ∷ [])
    ∷ (b's' ∷ b'i' ∷ b'z' ∷ b'e' ∷ [])
    ∷ (b't' ∷ b'i' ∷ b'm' ∷ b'e' ∷ [])
    ∷ (b'm' ∷ b'd' ∷ b'5' ∷ [])
    ∷ []

-- `make_dirlib`
abbrev pub make_dirlib : List (List ℕ)
make_dirlib =
    (b'i' ∷ b's' ∷ b'_' ∷ b'd' ∷ b'i' ∷ b'r' ∷ [])
    ∷ (b'i' ∷ b's' ∷ b'_' ∷ b'e' ∷ b'm' ∷ b'p' ∷ b't' ∷ b'y' ∷ [])
    ∷ (b't' ∷ b'e' ∷ b'm' ∷ b'p' ∷ [])
    ∷ (b'c' ∷ b'd' ∷ [])
    ∷ (b'm' ∷ b'd' ∷ [])
    ∷ (b'r' ∷ b'd' ∷ [])
    ∷ []

-- `make_proclib`
abbrev pub make_proclib : List (List ℕ)
make_proclib =
    (b's' ∷ b'p' ∷ b'a' ∷ b'w' ∷ b'n' ∷ [])
    ∷ (b'f' ∷ b'l' ∷ b'u' ∷ b's' ∷ b'h' ∷ b'i' ∷ b'o' ∷ [])
    ∷ (b'w' ∷ b'a' ∷ b'i' ∷ b't' ∷ [])
    ∷ (b'e' ∷ b'x' ∷ b'i' ∷ b't' ∷ b'_' ∷ b'c' ∷ b'o' ∷ b'd' ∷ b'e' ∷ [])
    ∷ []

-- `make_rootlib`
abbrev pub make_rootlib : List (List ℕ)
make_rootlib =
    (b'n' ∷ b'o' ∷ b'w' ∷ [])
    ∷ (b'm' ∷ b'd' ∷ b'5' ∷ [])
    ∷ (b'm' ∷ b'e' ∷ b's' ∷ b's' ∷ b'a' ∷ b'g' ∷ b'e' ∷ [])
    ∷ (b'e' ∷ b'r' ∷ b'r' ∷ b'o' ∷ b'r' ∷ [])
    ∷ (b'w' ∷ b'a' ∷ b'r' ∷ b'n' ∷ b'i' ∷ b'n' ∷ b'g' ∷ [])
    ∷ (b's' ∷ b'u' ∷ b'c' ∷ b'c' ∷ b'e' ∷ b's' ∷ b's' ∷ [])
    ∷ []

abbrev pub flag_key : FlagName → List ℕ
flag_key always_make =
    b'a' ∷ b'l' ∷ b'w' ∷ b'a' ∷ b'y' ∷ b's' ∷ b'_' ∷ b'm' ∷ b'a' ∷ b'k' ∷ b'e' ∷ []
flag_key debug = b'd' ∷ b'e' ∷ b'b' ∷ b'u' ∷ b'g' ∷ []
flag_key keep_going = b'k' ∷ b'e' ∷ b'e' ∷ b'p' ∷ b'_' ∷ b'g' ∷ b'o' ∷ b'i' ∷ b'n' ∷ b'g' ∷ []
flag_key noisy = b'n' ∷ b'o' ∷ b'i' ∷ b's' ∷ b'y' ∷ []
flag_key question = b'q' ∷ b'u' ∷ b'e' ∷ b's' ∷ b't' ∷ b'i' ∷ b'o' ∷ b'n' ∷ []
flag_key quit = b'q' ∷ b'u' ∷ b'i' ∷ b't' ∷ []

-- The table at a key; one that is not there is made.
abbrev pub fields_of : Value → Fields
fields_of (table fields) = fields
fields_of _ = end

-- luaL_register: each name of the array becomes a function of the table.
unfoldable pub add_functions : List (List ℕ) → Fields → Fields
add_functions [] fields = fields
add_functions (name ∷ names) fields = add_functions names (set_field name function fields)

-- luaL_register(L, "make.<key>", library)
unfoldable pub register_library : List ℕ → List (List ℕ) → Fields → Fields
register_library key library make =
    set_field key (table (add_functions library (fields_of (get_field key make)))) make

-- `make.jobs`
abbrev pub initial_jobs : Fields
initial_jobs = set_field key_running (table end) (
    set_field key_count (number 0)
      (set_field key_slots (number 1) (set_field key_pos (number 0) end)))

-- The `make` table before its functions are registered.
abbrev pub initial_make : Value → Fields → Fields
initial_make lowest env = set_field key_beginning_of_time lowest (
    set_field key_flags (table end)
      (set_field key_jobs (table initial_jobs) (set_field key_env (table env) end)))

-- The `make` table with its functions.
unfoldable pub make_table : Value → Fields → Fields
make_table lowest env = add_functions make_rootlib (
    register_library key_proc make_proclib (
      register_library key_dir make_dirlib (
        register_library key_file make_filelib
          (register_library key_path make_pathlib (initial_make lowest env)))))

-- `luaopen_make` on the table of globals, with the environment and the lowest number.
unfoldable pub luaopen_make : Value → Fields → Fields → Fields
luaopen_make lowest env globals =
    set_field key_make (table (make_table lowest env)) (set_field key_dofile function globals)

-- make[key]
abbrev pub make_field : List ℕ → Fields → Value
make_field key globals = get_field key (fields_of (get_field key_make globals))

-- A value of the table `make.<key>` is set; luaL_checktype refuses another value than a table there.
abbrev pub set_in : List ℕ → List ℕ → Value → Fields → Value → Outcome Fields
set_in key name v globals (table fields) = returns (
    set_field key_make
      (table
        (set_field key (table (set_field name v fields)) (fields_of (get_field key_make globals))))
      globals)
set_in key name v globals _ = raises bad_top

unfoldable pub set_flag : FlagName → Bool → Fields → Outcome Fields
set_flag name value globals =
    set_in key_flags (flag_key name) (boolean value) globals (make_field key_flags globals)

abbrev some_jobs : ℕ → ℕ
some_jobs zero = 1024
some_jobs (suc n) = suc n

-- For a number of jobs that is not negative.
unfoldable pub set_max_jobs : ℕ → Fields → Outcome Fields
set_max_jobs max_jobs globals =
    set_in key_jobs key_slots (number (some_jobs max_jobs)) globals (make_field key_jobs globals)

-- `make_dofile`: what it writes to stderr, and what it returns; `original` is the function that it replaces.
unfoldable pub make_dofile :
    (Value → Outcome (List Value)) → Frame → (List ℕ) × Outcome (List Value)
make_dofile original frame = (b'1' ∷ 10 ∷ [], original (at_index frame 1) >>= λ results. returns [])
