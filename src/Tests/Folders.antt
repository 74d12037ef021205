-- ===== src/Tests/Folders.antt =====
-- Runs of make.dir.md.
use presto_build.Base.{
  same_text, ℕ, ◌≡◌, refl, List, [], ◌∷◌, drop, true, false, none, some, arith, Bool, zero, suc,
  ◌<◌, if◌then◌else◌,
}
use presto_build.CommandLine.Parse.{contains}
use presto_build.Dir.{DirCalls, make_dirs}
use presto_build.Dir.Created.{Creates, up, make_dirs-IsMade, make_dirs_loops}

-- A file system is its directories; a path is its names, the last one first.
abbrev dirs : DirCalls
dirs = record {
  FileSystem = List (List ℕ);
  parent = λ path. drop 1 path;
  is_directory = λ path s. contains s path;
  is_empty = λ path s. false;
  create_directory = λ path s. (true, path ∷ s);
  remove_directory = λ path s. (false, s);
  temp_path = [];
  set_current_directory = λ path s. s;
  current_directory = λ s. [];
}

abbrev root : List (List ℕ)
root = [] ∷ []

abbrev Any : List (List ℕ) → Type 0
Any s = Unit

contains-more :
    (path other : List ℕ) (s : List (List ℕ))
    → contains s other ≡ true
    → contains (path ∷ s) other ≡ true
unfolding contains
contains-more path other s e = rw e (go (same_text path other))
  where
    go : (b : Bool) → (if b then true else true) ≡ true
    go true = refl
    go false = refl

dirs-Creates : Creates dirs Any 2 (1 ∷ 2 ∷ [])
unfolding contains same_text
dirs-Creates zero lt s good above missing = (
  refl,
  tt,
  record {
    made = refl;
    kept = λ other. contains-more (1 ∷ 2 ∷ []) other s;
    below = λ j less e. absurd (omega (arith, less));
  },
)
dirs-Creates (suc zero) lt s good above missing = (
  refl,
  tt,
  record { made = refl; kept = λ other. contains-more (2 ∷ []) other s; below = below_one s },
)
  where
    below_one :
        (s : List (List ℕ)) (j : ℕ)
        → j < 1
        → contains s (up dirs j (1 ∷ 2 ∷ [])) ≡ false
        → contains ((2 ∷ []) ∷ s) (up dirs j (1 ∷ 2 ∷ [])) ≡ false
    below_one s zero less e = e
    below_one s (suc j) less e = absurd (omega (arith, less))
dirs-Creates (suc (suc i)) lt s good above missing = absurd (omega (arith, lt))

make_dirs-IsMade_example :
    (t : List (List ℕ)) × (make_dirs dirs 3 (1 ∷ 2 ∷ []) root ≡ some (true, t))
    × Any t
    × (contains t (1 ∷ 2 ∷ []) ≡ true)
    × ((other : List ℕ) → contains root other ≡ true → contains t other ≡ true)
unfolding contains same_text
make_dirs-IsMade_example = make_dirs-IsMade dirs Any (1 ∷ 2 ∷ []) 2 dirs-Creates root tt refl

nothing : (n : ℕ) → contains [] (up dirs n (1 ∷ [])) ≡ false
unfolding contains
nothing n = refl

make_dirs_loops_example : make_dirs dirs 5 (1 ∷ []) [] ≡ none
make_dirs_loops_example = make_dirs_loops dirs 5 (1 ∷ []) [] nothing
