-- ===== src/CommandLine/Clusters.antt =====
-- Switches that stand together in one argument, and arguments of switches.
use presto_build.Base.{
  ℕ, ◌≡◌, ◌≢◌, refl, ap, sym, ◌∙◌, List, [], ◌∷◌, ◌++◌, Bool, true, false, ◌==◌, ne→==, append-nil,
  Option, none, some, map,
}
use presto_build.CommandLine.State.{
  FlagName, always_make, debug, keep_going, noisy, question, quit, State, Runtime, set_flag,
}
use presto_build.CommandLine.Parse.{
  Parse, Act, acts, ends, throws, parse_of, ArgSwitch, change_directory, execute_statement,
  execute_file, require_library, max_jobs, flag, with_arg, switch_of, run_switch, get_arg, switches,
  switch_list, shape_of, Round, round, one_arg, continue, parse,
}

abbrev pub flag_char : FlagName → ℕ
flag_char always_make = b'B'
flag_char debug = b'd'
flag_char keep_going = b'k'
flag_char noisy = b'n'
flag_char question = b'q'
flag_char quit = b'Q'

abbrev pub arg_char : ArgSwitch → ℕ
arg_char change_directory = b'C'
arg_char execute_statement = b'e'
arg_char execute_file = b'f'
arg_char require_library = b'l'
arg_char max_jobs = b'j'

abbrev pub set_flags : List FlagName → State → State
set_flags [] s = s
set_flags (f ∷ fs) s = set_flags fs (set_flag f s)

switch_of-flag_char : (f : FlagName) → switch_of (flag_char f) ≡ flag f
unfolding switch_of
switch_of-flag_char always_make = refl
switch_of-flag_char debug = refl
switch_of-flag_char keep_going = refl
switch_of-flag_char noisy = refl
switch_of-flag_char question = refl
switch_of-flag_char quit = refl

switch_of-arg_char : (a : ArgSwitch) → switch_of (arg_char a) ≡ with_arg a
unfolding switch_of
switch_of-arg_char change_directory = refl
switch_of-arg_char execute_statement = refl
switch_of-arg_char execute_file = refl
switch_of-arg_char require_library = refl
switch_of-arg_char max_jobs = refl

shape_of-switches :
    (c : ℕ) (cs : List ℕ) → (c == b'-') ≡ false → shape_of (b'-' ∷ c ∷ cs) ≡ switch_list (c ∷ cs)
unfolding shape_of
shape_of-switches c [] h = rw h
shape_of-switches c (d ∷ cs) h = rw h

flag_char_ne_dash : (f : FlagName) → (flag_char f == b'-') ≡ false
flag_char_ne_dash always_make = refl
flag_char_ne_dash debug = refl
flag_char_ne_dash keep_going = refl
flag_char_ne_dash noisy = refl
flag_char_ne_dash question = refl
flag_char_ne_dash quit = refl

arg_char_ne_dash : (a : ArgSwitch) → (arg_char a == b'-') ≡ false
arg_char_ne_dash change_directory = refl
arg_char_ne_dash execute_statement = refl
arg_char_ne_dash execute_file = refl
arg_char_ne_dash require_library = refl
arg_char_ne_dash max_jobs = refl

module _ (rt : Runtime) (executes : Bool) where
  switches-flag :
      (f : FlagName) (cs : List ℕ) (next : Option (List ℕ)) (s : State)
      → switches rt executes (flag_char f ∷ cs) next s ≡ switches rt executes cs next (set_flag f s)
  unfolding switches
  switches-flag f cs next s = rw (switch_of-flag_char f, switches)

  switches-arg :
      (a : ArgSwitch) (cs : List ℕ) (next : Option (List ℕ)) (s : State)
      → switches rt executes (arg_char a ∷ cs) next s ≡ get_arg rt executes a cs next s
  unfolding switches
  switches-arg a cs next s = rw (switch_of-arg_char a, switches)

  switches-flags :
      (fs : List FlagName) (cs : List ℕ) (next : Option (List ℕ)) (s : State)
      → switches rt executes (map flag_char fs ++ cs) next s
        ≡ switches rt executes cs next (set_flags fs s)
  switches-flags [] cs next s = refl
  switches-flags (f ∷ fs) cs next s =
      switches-flag f (map flag_char fs ++ cs) next s ∙ switches-flags fs cs next (set_flag f s)

  -- A list of switches that does not begin with a second dash.
  one_arg-switches :
      (c : ℕ) (cs : List ℕ) (next : Option (List ℕ)) (s : State)
      → (c == b'-') ≡ false
      → one_arg rt executes true (b'-' ∷ c ∷ cs) next s
        ≡ round true (switches rt executes (c ∷ cs) next s)
  unfolding one_arg
  one_arg-switches c cs next s h = rw (shape_of-switches c cs h, one_arg)

  one_arg-flags :
      (f : FlagName) (fs : List FlagName) (cs : List ℕ) (next : Option (List ℕ)) (s : State)
      → one_arg rt executes true (b'-' ∷ map flag_char (f ∷ fs) ++ cs) next s
        ≡ round true (switches rt executes cs next (set_flags (f ∷ fs) s))
  one_arg-flags f fs cs next s =
      one_arg-switches (flag_char f) (map flag_char fs ++ cs) next s (flag_char_ne_dash f)
      ∙ ap (round true) (switches-flags (f ∷ fs) cs next s)

-- After a round, whichever argument the switch's own was read from.
continue_taken :
    (p : Bool) (r : Act) (f g h : Bool → State → Parse)
    → continue (round p (parse_of true r)) f g ≡ continue (round p (parse_of false r)) g h
continue_taken p (acts s) f g h = refl
continue_taken p (ends s) f g h = refl
continue_taken p (throws e) f g h = refl

abbrev pub next_of : List (List ℕ) → Option (List ℕ)
next_of [] = none
next_of (a ∷ rest) = some a

abbrev pub tail_of : List (List ℕ) → List (List ℕ)
tail_of [] = []
tail_of (a ∷ rest) = rest

-- The rest of the arguments, whatever their number.
pub parse-cons :
    (rt : Runtime) (executes parsing : Bool) (arg : List ℕ) (rest : List (List ℕ)) (s : State)
    → parse rt executes parsing (arg ∷ rest) s
      ≡ continue
          (one_arg rt executes parsing arg (next_of rest) s)
          (λ p t. parse rt executes p rest t)
          (λ p t. parse rt executes p (tail_of rest) t)
unfolding parse
parse-cons rt executes parsing arg [] s = refl
parse-cons rt executes parsing arg (next ∷ rest) s = refl

module _ (rt : Runtime) (executes : Bool) (rest : List (List ℕ)) where
  -- What follows the round of the first argument.
  abbrev pub after : Round → Parse
  after r =
      continue r (λ p t. parse rt executes p rest t) (λ p t. parse rt executes p (tail_of rest) t)

  parse_flags :
      (f : FlagName) (fs : List FlagName) (s : State)
      → parse rt executes true ((b'-' ∷ map flag_char (f ∷ fs)) ∷ rest) s
        ≡ parse rt executes true rest (set_flags (f ∷ fs) s)
  unfolding switches
  parse_flags f fs s =
      parse-cons rt executes true (b'-' ∷ map flag_char (f ∷ fs)) rest s
      ∙ ap (λ t. after (one_arg rt executes true (b'-' ∷ flag_char f ∷ t) (next_of rest) s))
          (sym (append-nil (map flag_char fs)))
      ∙ ap after (one_arg-flags rt executes f fs [] (next_of rest) s)

  parse-switches :
      (c : ℕ) (cs : List ℕ) (s : State)
      → (c == b'-') ≡ false
      → parse rt executes true ((b'-' ∷ c ∷ cs) ∷ rest) s
        ≡ after (round true (switches rt executes (c ∷ cs) (next_of rest) s))
  parse-switches c cs s h =
      parse-cons rt executes true (b'-' ∷ c ∷ cs) rest s
      ∙ ap after (one_arg-switches rt executes c cs (next_of rest) s h)

  pub parse_flags_arg :
      (fs : List FlagName) (a : ArgSwitch) (cs : List ℕ) (s : State)
      → parse rt executes true ((b'-' ∷ (map flag_char fs ++ arg_char a ∷ cs)) ∷ rest) s
        ≡ after (round true (get_arg rt executes a cs (next_of rest) (set_flags fs s)))
  parse_flags_arg [] a cs s =
      parse-switches (arg_char a) cs s (arg_char_ne_dash a)
      ∙ ap (λ t. after (round true t)) (switches-arg rt executes a cs (next_of rest) s)
  parse_flags_arg (f ∷ fs) a cs s =
      parse-switches (flag_char f) (map flag_char fs ++ arg_char a ∷ cs) s (flag_char_ne_dash f)
      ∙ ap (λ t. after (round true t))
          (switches-flags rt executes (f ∷ fs) (arg_char a ∷ cs) (next_of rest) s
            ∙ switches-arg rt executes a cs (next_of rest) (set_flags (f ∷ fs) s))

-- One or more flags may stand with other switches in one argument or before them in one of their own:
-- `-Bkx...` reads as `-Bk -x...`, on either pass, whatever follows, where x is no dash.
pub parse_cluster :
    (rt : Runtime) (executes : Bool) (rest : List (List ℕ)) (f : FlagName) (fs : List FlagName)
    (c : ℕ) (cs : List ℕ) (s : State)
    → c ≢ b'-'
    → parse rt executes true ((b'-' ∷ (map flag_char (f ∷ fs) ++ c ∷ cs)) ∷ rest) s
      ≡ parse rt executes true ((b'-' ∷ map flag_char (f ∷ fs)) ∷ (b'-' ∷ c ∷ cs) ∷ rest) s
parse_cluster rt executes rest f fs c cs s ne =
    let h = ne→== c b'-' ne in
    parse-switches rt executes rest (flag_char f) (map flag_char fs ++ c ∷ cs) s
      (flag_char_ne_dash f)
    ∙ ap (λ t. after rt executes rest (round true t))
        (switches-flags rt executes (f ∷ fs) (c ∷ cs) (next_of rest) s)
    ∙ sym (parse-switches rt executes rest c cs (set_flags (f ∷ fs) s) h)
    ∙ sym (parse_flags rt executes ((b'-' ∷ c ∷ cs) ∷ rest) f fs s)

-- The argument of a switch, if it is not empty, may stand behind it or be the next argument: `-fFILE`
-- reads as `-f FILE`, on either pass, also behind flags.
pub parse_attached :
    (rt : Runtime) (executes : Bool) (rest : List (List ℕ)) (fs : List FlagName) (a : ArgSwitch)
    (c : ℕ) (cs : List ℕ) (s : State)
    → parse rt executes true ((b'-' ∷ (map flag_char fs ++ arg_char a ∷ c ∷ cs)) ∷ rest) s
      ≡ parse rt executes true ((b'-' ∷ (map flag_char fs ++ arg_char a ∷ [])) ∷ (c ∷ cs) ∷ rest) s
unfolding get_arg
parse_attached rt executes rest fs a c cs s =
    parse_flags_arg rt executes rest fs a (c ∷ cs) s
    ∙ sym (
        parse_flags_arg rt executes ((c ∷ cs) ∷ rest) fs a [] s
        ∙ continue_taken true (run_switch rt executes a (c ∷ cs) (set_flags fs s)) _ _ _)
