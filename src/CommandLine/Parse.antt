-- ===== src/CommandLine/Parse.antt =====
-- make.cpp `parse_commandline`, one argument at a time; `executes` is its `executeCode`.
use presto_build.Base.{
  same_text, ℕ, zero, suc, List, [], ◌∷◌, Bool, true, false, ◌==◌, ◌&&◌, leb, ◌-◌, Option, none,
  some, if◌then◌else◌, map,
}
use presto_build.Lua.{LuaError, bad_top, userdata, string, Outcome, returns, raises}
use presto_build.CommandLine.State.{
  FlagName, always_make, debug, keep_going, noisy, question, quit, statement, file, State, Runtime,
  set_flag, set_max_jobs, atoi, make_dir_cd, load_and_call, dolibrary,
}

-- The function goes on, returns early with a status, or a Lua error leaves it. A switch that took the
-- next argument says so.
pub data Parse : Type 0 where
  goes_on : Bool → State → Parse
  stops : State → Parse
  fails : LuaError → Parse

pub data ArgSwitch : Type 0 where
  change_directory execute_statement execute_file require_library max_jobs : ArgSwitch

pub data Switch : Type 0 where
  flag : FlagName → Switch
  version : Switch
  with_arg : ArgSwitch → Switch
  bad : Switch

-- The cases of `switch(*sw)`; `h` is with the unknown ones.
unfoldable pub switch_of : ℕ → Switch
switch_of c =
    if c == b'B'
    then flag always_make
    else if c == b'd'
    then flag debug
    else if c == b'k'
    then flag keep_going
    else if c == b'n'
    then flag noisy
    else if c == b'q'
    then flag question
    else if c == b'Q'
    then flag quit
    else if c == b'v'
    then version
    else if c == b'C'
    then with_arg change_directory
    else if c == b'e'
    then with_arg execute_statement
    else if c == b'f'
    then with_arg execute_file
    else if c == b'l'
    then with_arg require_library
    else if c == b'j'
    then with_arg max_jobs
    else bad

unfoldable pub stop_with_1 : State → Parse
stop_with_1 s = stops (record s { exit_status = 1 })

-- What a switch with an argument does.
pub data Act : Type 0 where
  acts : State → Act
  ends : State → Act
  throws : LuaError → Act

-- `handle_status`: the status is stored, and one that is not 0 ends the function.
unfoldable pub handle_status : ℕ × State → (State → State) → Act
handle_status (zero, s) then_do = acts (then_do (record s { exit_status = 0 }))
handle_status (suc n, s) then_do = ends (record s { exit_status = suc n })

abbrev pub act_of : Outcome State → Act
act_of (returns s) = acts s
act_of (raises e) = throws e

-- A switch with its argument. For `-C` the frame is that of `pmain`, whose first value is the pointer to
-- `Smain`, and the argument that was pushed on top of it.
unfoldable pub run_switch : Runtime → Bool → ArgSwitch → List ℕ → State → Act
run_switch rt executes change_directory arg s =
    act_of (make_dir_cd rt (userdata ∷ string arg ∷ []) s)
run_switch rt executes execute_statement arg s =
    if executes then handle_status (load_and_call rt (statement arg) s) (λ t. t) else acts s
run_switch rt executes execute_file arg s =
    if executes
    then handle_status (load_and_call rt (file arg) s) (λ t. record t { loaded_file = true })
    else acts s
run_switch rt executes require_library arg s =
    if executes then handle_status (dolibrary rt arg s) (λ t. t) else acts s
run_switch rt executes max_jobs arg s = acts (set_max_jobs (atoi arg) s)

abbrev pub parse_of : Bool → Act → Parse
parse_of taken (acts s) = goes_on taken s
parse_of taken (ends s) = stops s
parse_of taken (throws e) = fails e

-- `get_arg`: the rest of this argument, or the next argument, or bad usage.
unfoldable pub get_arg : Runtime → Bool → ArgSwitch → List ℕ → Option (List ℕ) → State → Parse
get_arg rt executes a (c ∷ cs) next s = parse_of false (run_switch rt executes a (c ∷ cs) s)
get_arg rt executes a [] (some arg) s = parse_of true (run_switch rt executes a arg s)
get_arg rt executes a [] none s = stop_with_1 s

-- The loop over the switches of one argument; an argument of a switch ends it.
unfoldable pub switches : Runtime → Bool → List ℕ → Option (List ℕ) → State → Parse
switches rt executes [] next s = goes_on false s
switches rt executes (c ∷ cs) next s = elim (switch_of c) [
  | flag f ↦ switches rt executes cs next (set_flag f s)
  | version ↦ stop_with_1 s
  | with_arg a ↦ get_arg rt executes a cs next s
  | bad ↦ stop_with_1 s
]

unfoldable pub toupper : ℕ → ℕ
toupper c = if leb b'a' c && leb c b'z' then c - 32 else c

-- What stands before the first `=`, and behind it if there is one.
unfoldable pub split_equals : List ℕ → (List ℕ) × Option (List ℕ)
split_equals [] = ([], none)
split_equals (c ∷ cs) =
    let (key, value) = split_equals cs in if c == b'=' then ([], some cs) else (c ∷ key, value)

abbrev pub value_of : List ℕ → Option (List ℕ)
value_of [] = none
value_of (c ∷ cs) = some (c ∷ cs)

-- `make.env[key] = value`, an empty value being nil.
unfoldable pub assign : List ℕ → List ℕ → State → State
assign key value s = record s { env = λ k. if same_text k key then value_of value else s.env k }

unfoldable pub contains : List (List ℕ) → List ℕ → Bool
contains [] g = false
contains (h ∷ gs) g = let r = contains gs g in if same_text h g then true else r

-- `make.goals[goal] = true`; luaL_checktype refuses what is no table, at the top of the stack.
unfoldable pub add_goal : List ℕ → State → Parse
add_goal g s = elim s.goals [
  | none ↦ fails bad_top
  | some gs ↦ goes_on false (record s { goals = some (if contains gs g then gs else g ∷ gs) })
]

unfoldable pub plain_of : (List ℕ) × Option (List ℕ) → List ℕ → State → Parse
plain_of (key, none) arg s = add_goal arg s
plain_of (key, some value) arg s = goes_on false (assign (map toupper key) value s)

-- An argument that is no switch.
unfoldable pub plain : List ℕ → State → Parse
plain arg s = plain_of (split_equals arg) arg s

-- How an argument reads while switches are being parsed.
pub data Shape : Type 0 where
  switch_list : List ℕ → Shape
  end_of_switches : Shape
  long_switch : Shape
  no_switch : Shape

unfoldable pub shape_of : List ℕ → Shape
shape_of [] = no_switch
shape_of (c ∷ []) = if c == b'-' then switch_list [] else no_switch
shape_of (c ∷ d ∷ []) =
    if c == b'-' then (if d == b'-' then end_of_switches else switch_list (d ∷ [])) else no_switch
shape_of (c ∷ d ∷ e ∷ cs) =
    if c == b'-' then (if d == b'-' then long_switch else switch_list (d ∷ e ∷ cs)) else no_switch

-- One round of the outer loop, up to where `i` is advanced; the flag is `parsing_switches`.
pub data Round : Type 0 where
  round : Bool → Parse → Round

unfoldable pub one_arg : Runtime → Bool → Bool → List ℕ → Option (List ℕ) → State → Round
one_arg rt executes false arg next s = round false (plain arg s)
one_arg rt executes true arg next s = elim (shape_of arg) [
  | switch_list sw ↦ round true (switches rt executes sw next s)
  | end_of_switches ↦ round false (goes_on false s)
  | long_switch ↦ round true (stop_with_1 s)
  | no_switch ↦ round true (plain arg s)
]

-- What follows a round: the rest of the arguments, or all but the first of them.
abbrev pub continue : Round → (Bool → State → Parse) → (Bool → State → Parse) → Parse
continue (round p (goes_on false s)) rest rest_but_one = rest p s
continue (round p (goes_on true s)) rest rest_but_one = rest_but_one p s
continue (round p (stops s)) rest rest_but_one = stops s
continue (round p (fails e)) rest rest_but_one = fails e

unfoldable pub parse : Runtime → Bool → Bool → List (List ℕ) → State → Parse
parse rt executes parsing [] s = goes_on false s
parse rt executes parsing (arg ∷ []) s =
    continue (one_arg rt executes parsing arg none s) (λ p t. goes_on false t)
      (λ p t. goes_on false t)
parse rt executes parsing (arg ∷ next ∷ rest) s =
    continue (one_arg rt executes parsing arg (some next) s)
      (λ p t. parse rt executes p (next ∷ rest) t) (λ p t. parse rt executes p rest t)
