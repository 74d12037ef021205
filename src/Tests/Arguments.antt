-- ===== src/Tests/Arguments.antt =====
-- Runs of the command line.
use presto_build.Base.{
  same_text, ℕ, ◌≡◌, refl, List, [], ◌∷◌, true, false, none, map, arith, if◌then◌else◌,
}
use presto_build.Lua.{bad_argument, bad_top}
use presto_build.CommandLine.State.{always_make, keep_going, Chunk, library, State, Runtime}
use presto_build.CommandLine.Parse.{fails, value_of, toupper, execute_file, parse}
use presto_build.CommandLine.Clusters.{parse_cluster, parse_attached}
use presto_build.CommandLine.Passes.{Leaves, first_pass-Leaves}
use presto_build.CommandLine.Failures.{
  change_directory_fails, parse_assignment_env, main_goal_fails,
}
use presto_build.CommandLine.Main.{World, errored, pmain, main}

abbrev pub initial : State
initial = record {
  flags = record {
    always_make = false;
    debug = false;
    keep_going = false;
    noisy = false;
    question = false;
    quit = false;
  };
  slots = record { negative = false; count = 1 };
  env = λ key. none;
  goals = none;
  directory = b'/' ∷ [];
  exit_status = 0;
  loaded_file = false;
  stop_early = false;
  ran = [];
}

-- Every chunk loads and runs, but for a library whose name is not "mkinit".
abbrev status_of : Chunk → ℕ
status_of (library name) =
    if same_text name (b'm' ∷ b'k' ∷ b'i' ∷ b'n' ∷ b'i' ∷ b't' ∷ []) then 0 else 1
status_of c = 0

abbrev runtime : Runtime
runtime = record {
  api = record { number_text = λ v. b'1' ∷ [] };
  load = λ chunk s. 0;
  call = λ chunk s. (status_of chunk, s);
  set_directory = λ path directory. path;
}

abbrev world : List (List ℕ) → World
world arguments = record {
  arguments = arguments;
  initial = initial;
  presto_init = none;
  exists = λ path s. true;
}

-- "-Bkfx" and "-Bk" "-fx"
parse_cluster_example :
    parse runtime true true ((b'-' ∷ b'B' ∷ b'k' ∷ b'f' ∷ b'x' ∷ []) ∷ []) initial
    ≡ parse runtime true true ((b'-' ∷ b'B' ∷ b'k' ∷ []) ∷ (b'-' ∷ b'f' ∷ b'x' ∷ []) ∷ []) initial
parse_cluster_example =
    parse_cluster runtime true [] always_make (keep_going ∷ []) b'f' (b'x' ∷ []) initial
      (ground arith)

-- "-Bfx" and "-Bf" "x"
parse_attached_example :
    parse runtime true true ((b'-' ∷ b'B' ∷ b'f' ∷ b'x' ∷ []) ∷ []) initial
    ≡ parse runtime true true ((b'-' ∷ b'B' ∷ b'f' ∷ []) ∷ (b'x' ∷ []) ∷ []) initial
parse_attached_example =
    parse_attached runtime true [] (always_make ∷ []) execute_file b'x' [] initial

first_pass-Leaves_example :
    Leaves []
      (b'/' ∷ [])
      (parse runtime false true ((b'-' ∷ b'B' ∷ b'f' ∷ b'x' ∷ []) ∷ (b'g' ∷ []) ∷ []) initial)
first_pass-Leaves_example =
    first_pass-Leaves [] (b'/' ∷ []) runtime ((b'-' ∷ b'B' ∷ b'f' ∷ b'x' ∷ []) ∷ (b'g' ∷ []) ∷ [])
      true initial (record { same_ran = refl; no_goals = refl; same_directory = refl })

change_directory_fails_example :
    parse runtime true true ((b'-' ∷ b'B' ∷ b'C' ∷ b'/' ∷ []) ∷ []) initial ≡ fails (bad_argument 1)
change_directory_fails_example =
    change_directory_fails runtime true (always_make ∷ []) b'/' [] [] initial

-- "a=x"
parse_assignment_env_example :
    (t : State) × (parse runtime true true ((b'a' ∷ b'=' ∷ b'x' ∷ []) ∷ []) initial
      ≡ parse runtime true true [] t)
    × (t.env (map toupper (b'a' ∷ [])) ≡ value_of (b'x' ∷ []))
    × ((k : List ℕ) → same_text k (map toupper (b'a' ∷ [])) ≡ false → t.env k ≡ initial.env k)
parse_assignment_env_example =
    parse_assignment_env runtime true true (b'a' ∷ []) (b'x' ∷ []) [] initial
      (ground arith, (ground arith, tt))

-- "a=x" "all"
main_goal_fails_example :
    (pmain runtime (world ((b'a' ∷ b'=' ∷ b'x' ∷ []) ∷ (b'a' ∷ b'l' ∷ b'l' ∷ []) ∷ []))
      ≡ errored bad_top)
    × (main runtime (world ((b'a' ∷ b'=' ∷ b'x' ∷ []) ∷ (b'a' ∷ b'l' ∷ b'l' ∷ []) ∷ [])) ≡ 1)
main_goal_fails_example =
    main_goal_fails runtime (world ((b'a' ∷ b'=' ∷ b'x' ∷ []) ∷ (b'a' ∷ b'l' ∷ b'l' ∷ []) ∷ []))
      ((b'a' ∷ [], b'x' ∷ []) ∷ []) (b'a' ∷ b'l' ∷ b'l' ∷ []) [] refl
      ((ground arith, (ground arith, tt)), tt)
      (ground arith, (ground arith, (ground arith, (ground arith, tt)))) refl
