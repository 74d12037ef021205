-- ===== src/CommandLine/Passes.antt =====
-- What the first pass over the command line leaves alone, and where it fails.
use presto_build.Base.{
  ℕ, ◌≡◌, refl, ◌∙◌, List, [], ◌∷◌, Bool, true, false, ◌==◌, Option, none, some, inl, inr,
  Bool-cases,
}
use presto_build.Lua.{bad_top}
use presto_build.CommandLine.State.{
  FlagName, always_make, debug, keep_going, noisy, question, quit, Chunk, Slots, State, Runtime,
  set_flag, set_max_jobs, atoi, make_dir_cd,
}
use presto_build.CommandLine.Parse.{
  Parse, goes_on, stops, fails, Act, acts, ends, throws, parse_of, ArgSwitch, change_directory,
  execute_statement, execute_file, require_library, max_jobs, Switch, flag, version, with_arg, bad,
  switch_of, stop_with_1, run_switch, get_arg, switches, split_equals, assign, add_goal, plain_of,
  plain, Shape, switch_list, end_of_switches, long_switch, no_switch, shape_of, Round, round,
  one_arg, continue, parse,
}

-- No chunk has run since, there is no goals table, and the working directory is the same.
pub record IsUntouched (ran : List Chunk) (directory : List ℕ) (s : State) : Type 0 where
  pub same_ran : s.ran ≡ ran
  pub no_goals : s.goals ≡ none
  pub same_directory : s.directory ≡ directory

pub add_goal_fails : (g : List ℕ) (s : State) → s.goals ≡ none → add_goal g s ≡ fails bad_top
unfolding add_goal
add_goal_fails g s h = rw (h, add_goal)

module _ (ran : List Chunk) (directory : List ℕ) where
  abbrev pub Ok : State → Type 0
  Ok = IsUntouched ran directory

  abbrev pub Leaves : Parse → Type 0
  Leaves (goes_on b s) = Ok s
  Leaves (stops s) = Ok s
  Leaves (fails e) = Unit

  abbrev ActLeaves : Act → Type 0
  ActLeaves (acts s) = Ok s
  ActLeaves (ends s) = Ok s
  ActLeaves (throws e) = Unit

  copied :
      (s t : State) → t.ran ≡ s.ran → t.goals ≡ s.goals → t.directory ≡ s.directory → Ok s → Ok t
  copied s t e f g h = record {
    same_ran = e ∙ h.same_ran;
    no_goals = f ∙ h.no_goals;
    same_directory = g ∙ h.same_directory;
  }

  set_flag-Ok : (f : FlagName) (s : State) → Ok s → Ok (set_flag f s)
  unfolding set_flag
  set_flag-Ok always_make s h = copied s _ refl refl refl h
  set_flag-Ok debug s h = copied s _ refl refl refl h
  set_flag-Ok keep_going s h = copied s _ refl refl refl h
  set_flag-Ok noisy s h = copied s _ refl refl refl h
  set_flag-Ok question s h = copied s _ refl refl refl h
  set_flag-Ok quit s h = copied s _ refl refl refl h

  set_max_jobs-Ok : (n : Slots) (s : State) → Ok s → Ok (set_max_jobs n s)
  unfolding set_max_jobs
  set_max_jobs-Ok n s h = elim (Bool-cases (n.count == 0)) [
    | inl e ↦ rw e (copied s _ refl refl refl h)
    | inr e ↦ rw e (copied s _ refl refl refl h)
  ]

  stop_with_1-Leaves : (s : State) → Ok s → Leaves (stop_with_1 s)
  unfolding stop_with_1
  stop_with_1-Leaves s h = copied s _ refl refl refl h

  module _ (rt : Runtime) where
    run_switch-Leaves :
        (a : ArgSwitch) (arg : List ℕ) (s : State) → Ok s → ActLeaves (run_switch rt false a arg s)
    unfolding run_switch make_dir_cd
    run_switch-Leaves change_directory arg s h = tt
    run_switch-Leaves execute_statement arg s h = h
    run_switch-Leaves execute_file arg s h = h
    run_switch-Leaves require_library arg s h = h
    run_switch-Leaves max_jobs arg s h = set_max_jobs-Ok (atoi arg) s h

    parse_of-Leaves : (b : Bool) (r : Act) → ActLeaves r → Leaves (parse_of b r)
    parse_of-Leaves b (acts s) h = h
    parse_of-Leaves b (ends s) h = h
    parse_of-Leaves b (throws e) h = tt

    get_arg-Leaves :
        (a : ArgSwitch) (cs : List ℕ) (next : Option (List ℕ)) (s : State)
        → Ok s
        → Leaves (get_arg rt false a cs next s)
    unfolding get_arg
    get_arg-Leaves a (c ∷ cs) next s h = parse_of-Leaves false _ (run_switch-Leaves a (c ∷ cs) s h)
    get_arg-Leaves a [] (some arg) s h = parse_of-Leaves true _ (run_switch-Leaves a arg s h)
    get_arg-Leaves a [] none s h = stop_with_1-Leaves s h

    switches-Leaves :
        (cs : List ℕ) (next : Option (List ℕ)) (s : State)
        → Ok s
        → Leaves (switches rt false cs next s)
    unfolding switches
    switches-Leaves [] next s h = h
    switches-Leaves (c ∷ cs) next s h =
        go (switch_of c) refl (λ f. switches-Leaves cs next (set_flag f s) (set_flag-Ok f s h))
      where
        go :
            (w : Switch)
            → switch_of c ≡ w
            → ((f : FlagName) → Leaves (switches rt false cs next (set_flag f s)))
            → Leaves (switches rt false (c ∷ cs) next s)
        go (flag f) e ih = rw (e, switches) (ih f)
        go version e ih = rw (e, switches) (stop_with_1-Leaves s h)
        go (with_arg a) e ih = rw (e, switches) (get_arg-Leaves a cs next s h)
        go bad e ih = rw (e, switches) (stop_with_1-Leaves s h)

    plain_of-Leaves :
        (r : (List ℕ) × Option (List ℕ)) (arg : List ℕ) (s : State)
        → Ok s
        → Leaves (plain_of r arg s)
    unfolding plain_of assign
    plain_of-Leaves (key, none) arg s h = rw (add_goal_fails arg s h.no_goals) tt
    plain_of-Leaves (key, some value) arg s h = copied s _ refl refl refl h

    plain-Leaves : (arg : List ℕ) (s : State) → Ok s → Leaves (plain arg s)
    unfolding plain
    plain-Leaves arg s h = plain_of-Leaves (split_equals arg) arg s h

    abbrev RoundLeaves : Round → Type 0
    RoundLeaves (round p r) = Leaves r

    one_arg-Leaves :
        (parsing : Bool) (arg : List ℕ) (next : Option (List ℕ)) (s : State)
        → Ok s
        → RoundLeaves (one_arg rt false parsing arg next s)
    unfolding one_arg
    one_arg-Leaves false arg next s h = plain-Leaves arg s h
    one_arg-Leaves true arg next s h = go (shape_of arg) refl
      where
        go : (w : Shape) → shape_of arg ≡ w → RoundLeaves (one_arg rt false true arg next s)
        go (switch_list sw) e = rw (e, one_arg) (switches-Leaves sw next s h)
        go end_of_switches e = rw (e, one_arg) h
        go long_switch e = rw (e, one_arg) (stop_with_1-Leaves s h)
        go no_switch e = rw (e, one_arg) (plain-Leaves arg s h)

    continue-Leaves :
        (r : Round) (f g : Bool → State → Parse)
        → RoundLeaves r
        → ((p : Bool) (t : State) → Ok t → Leaves (f p t))
        → ((p : Bool) (t : State) → Ok t → Leaves (g p t))
        → Leaves (continue r f g)
    continue-Leaves (round p (goes_on false t)) f g h hf hg = hf p t h
    continue-Leaves (round p (goes_on true t)) f g h hf hg = hg p t h
    continue-Leaves (round p (stops t)) f g h hf hg = h
    continue-Leaves (round p (fails e)) f g h hf hg = tt

    -- The first pass, on any arguments and from a state without a goals table: unless a Lua error ends it,
    -- it has run no code, changed no directory and made no goals table, whether it goes on or stops.
    pub first_pass-Leaves :
        (args : List (List ℕ)) (parsing : Bool) (s : State)
        → Ok s
        → Leaves (parse rt false parsing args s)
    unfolding parse
    first_pass-Leaves [] parsing s h = h
    first_pass-Leaves (arg ∷ []) parsing s h =
        continue-Leaves (one_arg rt false parsing arg none s) _ _
          (one_arg-Leaves parsing arg none s h) (λ p t k. k) (λ p t k. k)
    first_pass-Leaves (arg ∷ next ∷ rest) parsing s h =
        continue-Leaves (one_arg rt false parsing arg (some next) s) _ _
          (one_arg-Leaves parsing arg (some next) s h)
          (λ p t k. first_pass-Leaves (next ∷ rest) p t k) (λ p t k. first_pass-Leaves rest p t k)
