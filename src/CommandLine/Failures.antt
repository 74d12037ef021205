-- ===== src/CommandLine/Failures.antt =====
-- Command lines that the program cannot take: `-C`, goals, and a site without "mksite".
use presto_build.Base.{
  same_text, same_text_refl, ℕ, suc, ◌≡◌, ◌≢◌, refl, ap, ◌∙◌, List, [], ◌∷◌, ◌++◌, Bool, true,
  false, Option, none, some, map, arith, ne→==,
}
use presto_build.Lua.{bad_argument, bad_top}
use presto_build.CommandLine.State.{FlagName, State, Runtime, make_dir_cd, dolibrary}
use presto_build.CommandLine.Parse.{
  goes_on, fails, change_directory, run_switch, get_arg, toupper, split_equals, plain_of, plain,
  add_goal, assign, value_of, no_switch, shape_of, round, one_arg, parse,
}
use presto_build.CommandLine.Clusters.{flag_char, parse_flags_arg, parse-cons, after, next_of}
use presto_build.CommandLine.Passes.{add_goal_fails}
use presto_build.CommandLine.Main.{
  World, runs, over, errored, after_pass, pass, or_return, pmain, exit_code_of, main, mkinit,
  mksite,
}

-- `-CDIRECTORY`, alone or behind flags in the first argument, never changes the directory: on either pass
-- `make_dir_cd` takes the pointer to `Smain` for its first argument and raises a type error.
pub change_directory_fails :
    (rt : Runtime) (executes : Bool) (fs : List FlagName) (c : ℕ) (cs : List ℕ)
    (rest : List (List ℕ)) (s : State)
    → parse rt executes true ((b'-' ∷ (map flag_char fs ++ b'C' ∷ c ∷ cs)) ∷ rest) s
      ≡ fails (bad_argument 1)
unfolding get_arg run_switch make_dir_cd
change_directory_fails rt executes fs c cs rest s =
    parse_flags_arg rt executes rest fs change_directory (c ∷ cs) s

-- An argument that is read as `key=value` on either side of the first "=".
abbrev pub assignment : List ℕ × List ℕ → List ℕ
assignment (key, value) = key ++ b'=' ∷ value

abbrev pub NoEquals : List ℕ → Type 0
NoEquals [] = Unit
NoEquals (c ∷ cs) = (c ≢ b'=') × NoEquals cs

pub split_equals-none : (g : List ℕ) → NoEquals g → split_equals g ≡ (g, none)
unfolding split_equals
split_equals-none [] h = refl
split_equals-none (c ∷ cs) h = rw (split_equals-none cs h.1, ne→== c b'=' h.0)

pub split_equals-some :
    (key value : List ℕ) → NoEquals key → split_equals (key ++ b'=' ∷ value) ≡ (key, some value)
unfolding split_equals
split_equals-some [] value h = refl
split_equals-some (c ∷ cs) value h = rw (split_equals-some cs value h.1, ne→== c b'=' h.0)

-- An assignment of the command line whose first byte is no dash and no "=".
abbrev pub IsKey : List ℕ → Type 0
IsKey [] = ⊥
IsKey (c ∷ cs) = (c ≢ b'-') × NoEquals (c ∷ cs)

shape_of-no_switch : (c : ℕ) (cs : List ℕ) → c ≢ b'-' → shape_of (c ∷ cs) ≡ no_switch
unfolding shape_of
shape_of-no_switch c [] h = rw (ne→== c b'-' h)
shape_of-no_switch c (d ∷ []) h = rw (ne→== c b'-' h)
shape_of-no_switch c (d ∷ e ∷ cs) h = rw (ne→== c b'-' h)

-- The round of an argument that is no switch, whether or not switches are being parsed.
one_arg-plain :
    (rt : Runtime) (executes parsing : Bool) (c : ℕ) (cs : List ℕ) (next : Option (List ℕ))
    (s : State)
    → c ≢ b'-'
    → one_arg rt executes parsing (c ∷ cs) next s ≡ round parsing (plain (c ∷ cs) s)
unfolding one_arg
one_arg-plain rt executes false c cs next s h = refl
one_arg-plain rt executes true c cs next s h = rw (shape_of-no_switch c cs h, one_arg)

plain-assignment :
    (key value : List ℕ) (s : State)
    → NoEquals key
    → plain (key ++ b'=' ∷ value) s ≡ goes_on false (assign (map toupper key) value s)
unfolding plain plain_of
plain-assignment key value s h = rw (split_equals-some key value h)

plain-goal : (g : List ℕ) (s : State) → NoEquals g → plain g s ≡ add_goal g s
unfolding plain plain_of
plain-goal g s h = rw (split_equals-none g h)

-- `KEY=VALUE` binds the key in upper case, for later arguments and on either pass.
parse_assignment :
    (rt : Runtime) (executes parsing : Bool) (key value : List ℕ) (rest : List (List ℕ)) (s : State)
    → IsKey key
    → parse rt executes parsing ((key ++ b'=' ∷ value) ∷ rest) s
      ≡ parse rt executes parsing rest (assign (map toupper key) value s)
parse_assignment rt executes parsing [] value rest s h = absurd h
parse_assignment rt executes parsing (c ∷ cs) value rest s h =
    parse-cons rt executes parsing ((c ∷ cs) ++ b'=' ∷ value) rest s
    ∙ ap (after rt executes rest) (
        one_arg-plain rt executes parsing c (cs ++ b'=' ∷ value) (next_of rest) s h.0
        ∙ ap (round parsing) (plain-assignment (c ∷ cs) value s h.1))

-- An argument `KEY=VALUE` with a key that is not empty and begins with no dash, on either pass and whether or
-- not switches are being parsed, sets `make.env` at the key in upper case to the value, or to nil if the
-- value is empty, leaves every other key as it was, and the rest of the arguments is read from there.
pub parse_assignment_env :
    (rt : Runtime) (executes parsing : Bool) (key value : List ℕ) (rest : List (List ℕ)) (s : State)
    → IsKey key
    → (t : State) × (parse rt executes parsing ((key ++ b'=' ∷ value) ∷ rest) s
        ≡ parse rt executes parsing rest t)
      × (t.env (map toupper key) ≡ value_of value)
      × ((k : List ℕ) → same_text k (map toupper key) ≡ false → t.env k ≡ s.env k)
unfolding assign
parse_assignment_env rt executes parsing key value rest s h = (
  assign (map toupper key) value s,
  parse_assignment rt executes parsing key value rest s h,
  rw (same_text_refl (map toupper key)),
  λ k e. rw e,
)

abbrev pub AllKeys : List (List ℕ × List ℕ) → Type 0
AllKeys [] = Unit
AllKeys ((key, value) ∷ rest) = IsKey key × AllKeys rest

-- A goal on the command line, behind any assignments, is refused by the first pass: `make.goals` is made
-- by mkinit.lua, which runs after it.
pub goal_fails :
    (rt : Runtime) (executes parsing : Bool) (settings : List (List ℕ × List ℕ)) (goal : List ℕ)
    (rest : List (List ℕ)) (s : State)
    → AllKeys settings
    → IsKey goal
    → s.goals ≡ none
    → parse rt executes parsing (map assignment settings ++ goal ∷ rest) s ≡ fails bad_top
unfolding assign
goal_fails rt executes parsing [] [] rest s h g none_yet = absurd g
goal_fails rt executes parsing [] (c ∷ cs) rest s h g none_yet =
    parse-cons rt executes parsing (c ∷ cs) rest s
    ∙ ap (after rt executes rest) (
        one_arg-plain rt executes parsing c cs (next_of rest) s g.0
        ∙ ap (round parsing) (plain-goal (c ∷ cs) s g.1 ∙ add_goal_fails (c ∷ cs) s none_yet))
goal_fails rt executes parsing ((key, value) ∷ settings) goal rest s h g none_yet =
    parse_assignment rt executes parsing key value (map assignment settings ++ goal ∷ rest) s h.0
    ∙ goal_fails rt executes parsing settings goal rest (assign (map toupper key) value s) h.1 g
        none_yet

-- The program fails on a command line of assignments and then a goal, where `make.goals` is nil at its
-- start: the first pass raises an error, and the exit code is 1.
pub main_goal_fails :
    (rt : Runtime) (w : World) (settings : List (List ℕ × List ℕ)) (goal : List ℕ)
    (rest : List (List ℕ))
    → w.arguments ≡ map assignment settings ++ goal ∷ rest
    → AllKeys settings
    → IsKey goal
    → w.initial.goals ≡ none
    → (pmain rt w ≡ errored bad_top) × (main rt w ≡ 1)
unfolding main exit_code_of
main_goal_fails rt w settings goal rest e h g none_yet = (left, ap exit_code_of left)
  where
    first : pass rt w false w.initial ≡ errored bad_top
    first =
        unfold pass after_pass in
        ap (λ a. after_pass (parse rt false true a w.initial)) e
        ∙ ap after_pass (goal_fails rt false true settings goal rest w.initial h g none_yet)

    left : pmain rt w ≡ errored bad_top
    left = unfold pmain in rw first

-- Where the first pass and `require "mkinit"` succeed, a failing `require "mksite"` ends the program in the
-- state that it left, with the status of the failure, and the exit code is 1.
mksite_required :
    (rt : Runtime) (w : World) (s t u : State) (n : ℕ)
    → pass rt w false w.initial ≡ runs s
    → dolibrary rt mkinit s ≡ (0, t)
    → dolibrary rt mksite (record t { exit_status = 0 }) ≡ (suc n, u)
    → (pmain rt w ≡ over (record u { exit_status = suc n })) × (main rt w ≡ 1)
unfolding main exit_code_of
mksite_required rt w s t u n first init site = (left, ap exit_code_of left ∙ ground arith)
  where
    left : pmain rt w ≡ over (record u { exit_status = suc n })
    left = unfold pmain or_return in rw (first, init, site)
