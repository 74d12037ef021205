-- ===== src/Register/Opened.antt =====
-- lmakelib.cpp, `luaopen_make`: proofs on the tables that it leaves.
use presto_build.Base.{
  ℕ, ◌≡◌, inl, inr, refl, sym, ap, subst, List, [], ◌∷◌, Bool, true, false, Bool-cases, same_text,
  none, All, if◌then◌else◌,
}
use presto_build.Lua.{
  Value, nil, boolean, number, ticks, string, table, function, userdata, Fields, end, get_field,
  set_field,
}
use presto_build.CommandLine.State.{FlagName, State}
use presto_build.Register.{
  key_make, key_pos, key_slots, key_count, key_running, key_env, key_jobs, key_flags, key_goals,
  key_dofile, key_path, key_file, key_dir, key_proc, make_pathlib, make_filelib, make_dirlib,
  make_proclib, make_rootlib, fields_of, add_functions, register_library, initial_jobs, make_table,
  luaopen_make, make_field,
}
use presto_build.Register.Lookups.{get_field-set_field}
use presto_build.Register.Reads.{flag_of, IsRead}

-- The names are functions of a table.
abbrev pub AreFunctions : List (List ℕ) → Value → Type 0
AreFunctions names v = All (λ name. get_field name (fields_of v) ≡ function) names

abbrev is_function : Value → Bool
is_function function = true
is_function _ = false

abbrev are_functions : List (List ℕ) → Fields → Bool
are_functions [] fields = true
are_functions (name ∷ names) fields =
    let rest = are_functions names fields in
    if is_function (get_field name fields) then rest else false

function_lem : (v : Value) → is_function v ≡ true → v ≡ function
function_lem function h = refl
function_lem nil h = cc
function_lem (boolean x) h = cc
function_lem (number n) h = cc
function_lem (ticks x n) h = cc
function_lem (string t) h = cc
function_lem (table f) h = cc
function_lem userdata h = cc

are_functions-AreFunctions :
    (names : List (List ℕ)) (v : Value)
    → are_functions names (fields_of v) ≡ true
    → AreFunctions names v
are_functions-AreFunctions [] v h = tt
are_functions-AreFunctions (name ∷ names) v h =
    elim (Bool-cases (is_function (get_field name (fields_of v)))) [
      | inl e ↦ (function_lem _ e, are_functions-AreFunctions names v (rw e at h))
      | inr e ↦ cc (rw e at h)
    ]

-- The job table of a start: no job runs, none has had a number, and one slot is open.
abbrev pub IsIdle : Value → Type 0
IsIdle v =
    (get_field key_pos (fields_of v) ≡ number 0)
    × (get_field key_slots (fields_of v) ≡ number 1)
    × (get_field key_count (fields_of v) ≡ number 0)
    × (get_field key_running (fields_of v) ≡ table end)

-- Whatever the globals were, `luaopen_make` leaves the state that the command line starts from: no flag, one
-- job slot and no goals table. In make.jobs, pos and count are 0, slots is 1 and running is an empty table;
-- the environment is the given one, and each name of the arrays of functions is a function of its table.
pub luaopen_make-IsRead :
    (lowest : Value) (env globals : Fields) (s : State)
    → ((k : FlagName) → flag_of k s.flags ≡ false)
    → s.slots ≡ record { negative = false; count = 1 }
    → s.goals ≡ none
    → IsRead (luaopen_make lowest env globals) s
      × IsIdle (make_field key_jobs (luaopen_make lowest env globals))
      × (make_field key_env (luaopen_make lowest env globals) ≡ table env)
      × AreFunctions make_rootlib (get_field key_make (luaopen_make lowest env globals))
      × AreFunctions make_pathlib (make_field key_path (luaopen_make lowest env globals))
      × AreFunctions make_filelib (make_field key_file (luaopen_make lowest env globals))
      × AreFunctions make_dirlib (make_field key_dir (luaopen_make lowest env globals))
      × AreFunctions make_proclib (make_field key_proc (luaopen_make lowest env globals))
unfolding luaopen_make make_table add_functions register_library get_field set_field same_text
luaopen_make-IsRead lowest env globals s no_flags one_slot no_goals =
    let opened : get_field key_make (luaopen_make lowest env globals)
        ≡ table (make_table lowest env) =
      get_field-set_field key_make (table (make_table lowest env))
        (set_field key_dofile function globals) in
    subst
      (λ v.
        IsRead (luaopen_make lowest env globals) s
        × IsIdle (get_field key_jobs (fields_of v))
        × (get_field key_env (fields_of v) ≡ table env)
        × AreFunctions make_rootlib v
        × AreFunctions make_pathlib (get_field key_path (fields_of v))
        × AreFunctions make_filelib (get_field key_file (fields_of v))
        × AreFunctions make_dirlib (get_field key_dir (fields_of v))
        × AreFunctions make_proclib (get_field key_proc (fields_of v)))
      (sym opened)
      (
        record {
          flags_table =
              (end, ap (λ v. get_field key_flags (fields_of v)) opened, λ k. sym (no_flags k));
          jobs_table = (
            initial_jobs,
            ap (λ v. get_field key_jobs (fields_of v)) opened,
            ap (λ x. x.negative) one_slot,
            ap (λ x. number x.count) (sym one_slot),
          );
          no_goals = λ none_yet. ap (λ v. get_field key_goals (fields_of v)) opened;
        },
        (refl, refl, refl, refl),
        refl,
        are_functions-AreFunctions make_rootlib (table (make_table lowest env)) refl,
        are_functions-AreFunctions make_pathlib (get_field key_path (make_table lowest env)) refl,
        are_functions-AreFunctions make_filelib (get_field key_file (make_table lowest env)) refl,
        are_functions-AreFunctions make_dirlib (get_field key_dir (make_table lowest env)) refl,
        are_functions-AreFunctions make_proclib (get_field key_proc (make_table lowest env)) refl,
      )
