-- ===== src/Tests/Paths.antt =====
-- Runs of the make.path functions.
use presto_build.Base.{ℕ, ◌≡◌, ◌≢◌, refl, List, [], ◌∷◌, ◌++◌, map, false, All, arith}
use presto_build.Lua.{string, table, returns}
use presto_build.Path.{PathCalls}
use presto_build.Path.Functions.{make_path_to_os, make_path_from_os, full, call_path}
use presto_build.Path.Presto.{GivesPresto}
use presto_build.Path.Slashes.{call_path-GivesPresto}
use presto_build.Path.Search.{make_path_where}
use presto_build.Path.Places.{joined, make_path_where-joined}
use presto_build.Path.Texts.{numbered, from_os-to_os}

-- A system of ASCII texts, whose calls give their path back.
abbrev pub os : PathCalls
os = record {
  api = record { number_text = λ v. b'1' ∷ [] };
  to_wide = λ s. s;
  to_utf8 = λ s. s;
  to_string = λ v. b'v' ∷ [];
  get_short_path_name = λ s. s;
  get_long_path_name = λ s. s;
  get_full_path_name = λ s. b'c' ∷ b':' ∷ 92 ∷ s;
  path_canonicalize = λ s. s;
  path_add_backslash = λ s. s ++ 92 ∷ [];
  path_remove_backslash = λ s. s;
  path_remove_extension = λ s. s;
  path_quote_spaces = λ s. s;
  path_unquote_spaces = λ s. s;
  path_find_extension = λ s. [];
  path_find_file_name = λ s. ([], s);
  path_is_relative = λ s. false;
  path_add_extension = λ s t. s ++ t;
  path_rename_extension = λ s t. s ++ t;
  path_combine = λ s t. s ++ 92 ∷ t;
  path_common_prefix = λ s t. [];
  find_files = λ s. (b'.' ∷ []) ∷ (b'.' ∷ b'.' ∷ []) ∷ s ∷ [];
  search_path = λ places s. s;
  is_numeric = λ s. false;
  unset_text = b'?' ∷ [];
}

call_path-GivesPresto_example :
    GivesPresto (call_path full os (string (b'a' ∷ b'/' ∷ b'b' ∷ []) ∷ []))
call_path-GivesPresto_example =
    call_path-GivesPresto full os (string (b'a' ∷ b'/' ∷ b'b' ∷ []) ∷ []) (λ e. cc)

from_os-to_os_example :
    (q : List ℕ) × (make_path_to_os os (string (b'a' ∷ b'/' ∷ []) ∷ []) ≡ returns (string q ∷ []))
    × All (λ c. c ≢ b'/') q
    × (make_path_from_os os (string q ∷ []) ≡ returns (string (b'a' ∷ b'/' ∷ []) ∷ []))
from_os-to_os_example =
    from_os-to_os os (b'a' ∷ b'/' ∷ [])
      ((ground arith, ground arith), ((ground arith, ground arith), tt))

-- The places "a/b" and "c", and the file "x".
make_path_where-joined_example :
    make_path_where os (
      string (b'x' ∷ [])
      ∷ table (numbered 1 (map (λ t. string t) ((b'a' ∷ b'/' ∷ b'b' ∷ []) ∷ (b'c' ∷ []) ∷ [])))
      ∷ [])
    ≡ make_path_where os
        (string (b'x' ∷ []) ∷ string (joined ((b'a' ∷ b'/' ∷ b'b' ∷ []) ∷ (b'c' ∷ []) ∷ [])) ∷ [])
make_path_where-joined_example =
    make_path_where-joined os (b'x' ∷ []) (b'a' ∷ b'/' ∷ b'b' ∷ []) ((b'c' ∷ []) ∷ []) refl refl
      (((λ e. cc), ((λ e. cc), ((λ e. cc), tt))), (((λ e. cc), tt), tt)) (ground arith)
