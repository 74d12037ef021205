-- ===== src/Path.antt =====
-- lmakelib.cpp: `lua_getpath`, `lua_pushpath`, `lua_converttostring`, and what the make.path functions ask
-- of the operating system.
pub mod Search
pub mod Functions
pub mod Presto
pub mod Slashes
pub mod Texts
pub mod Places
use presto_build.Base.{
  ℕ, ◌+◌, List, [], ◌∷◌, ◌++◌, map, length, Bool, true, false, ◌==◌, leb, Option, none, some,
  if◌then◌else◌,
}
use presto_build.Lua.{
  LuaApi, Frame, Value, string, number, ticks, Outcome, returns, raises, check_text, ◌>>=◌,
}
use presto_build.Env.{c_string}

-- The calls, on UTF-16 strings without their final zero. A call that fails leaves `path_out` empty.
pub record PathCalls : Type 0 where
  pub api : LuaApi
  pub to_wide : List ℕ → List ℕ
  pub to_utf8 : List ℕ → List ℕ
  pub to_string : Value → List ℕ
  pub get_short_path_name : List ℕ → List ℕ
  pub get_long_path_name : List ℕ → List ℕ
  pub get_full_path_name : List ℕ → List ℕ
  pub path_canonicalize : List ℕ → List ℕ
  pub path_add_backslash : List ℕ → List ℕ
  pub path_remove_backslash : List ℕ → List ℕ
  pub path_remove_extension : List ℕ → List ℕ
  pub path_quote_spaces : List ℕ → List ℕ
  pub path_unquote_spaces : List ℕ → List ℕ
  pub path_find_extension : List ℕ → List ℕ
  -- the text before the file name, and the file name
  pub path_find_file_name : List ℕ → (List ℕ) × List ℕ
  pub path_is_relative : List ℕ → Bool
  pub path_add_extension : List ℕ → List ℕ → List ℕ
  pub path_rename_extension : List ℕ → List ℕ → List ℕ
  pub path_combine : List ℕ → List ℕ → List ℕ
  pub path_common_prefix : List ℕ → List ℕ → List ℕ
  -- the names that FindFirstFileW and FindNextFileW give
  pub find_files : List ℕ → List (List ℕ)
  -- SearchPathW, whose list of places is none for that of the environment; it gives no text on a failure
  pub search_path : Option (List ℕ) → List ℕ → List ℕ
  -- lua_isnumber on a string
  pub is_numeric : List ℕ → Bool
  -- what is read of an array of wchar_t that nothing was written to
  pub unset_text : List ℕ

-- `aborted` is the invalid parameter handler of wcscpy_s, `overran` a write past the end of an array.
pub data Ran : Type 0 where
  ran : Outcome Frame → Ran
  aborted : Ran
  overran : Ran

abbrev pub max_path : ℕ
max_path = 260

unfoldable pub back_slash : ℕ → ℕ
back_slash c = if c == b'/' then 92 else c

unfoldable pub forward_slash : ℕ → ℕ
forward_slash c = if c == 92 then b'/' else c

-- `lua_getpath` with a char* result, up to its first zero as lua_pushstring reads it.
unfoldable pub get_path : LuaApi → Frame → ℕ → Outcome (List ℕ)
get_path api frame i = do text ← check_text api frame i; returns (c_string (map back_slash text))

-- `lua_getpath` with a wchar_t* result, up to its first zero as the calls read it.
unfoldable pub get_wide_path : PathCalls → Frame → ℕ → Outcome (List ℕ)
get_wide_path os frame i = do
  text ← check_text os.api frame i
  returns (c_string (map back_slash (os.to_wide text)))

-- `lua_pushpath` on a char*, which ends at its first zero.
unfoldable pub push_path : List ℕ → Value
push_path path = string (map forward_slash (c_string path))

-- `lua_pushpath` on a wchar_t*.
unfoldable pub push_wide_path : PathCalls → List ℕ → Value
push_wide_path os path = push_path (os.to_utf8 path)

-- A function of one path that gives a path.
unfoldable pub on_path : PathCalls → Frame → (List ℕ → List ℕ) → Outcome Frame
on_path os frame call = do
  path_in ← get_wide_path os frame 1
  returns (push_wide_path os (call path_in) ∷ [])

-- wcscpy_s(path_out, MAX_PATH, path_in)
unfoldable pub copied : List ℕ → (List ℕ → Outcome Frame) → Ran
copied path next =
    let more = ran (next path) in if leb max_path (length path) then aborted else more

abbrev pub with_path : Outcome (List ℕ) → (List ℕ → Ran) → Ran
with_path (raises e) next = ran (raises e)
with_path (returns path) next = next path

-- A function that changes a copy of its path in place.
unfoldable pub on_copy : PathCalls → Frame → (List ℕ → List ℕ) → Ran
on_copy os frame call =
    with_path (get_wide_path os frame 1)
      (λ path_in. copied path_in (λ path_out. returns (push_wide_path os (call path_out) ∷ [])))

unfoldable pub on_copy_and_path : PathCalls → Frame → (List ℕ → List ℕ → List ℕ) → Ran
on_copy_and_path os frame call = with_path (get_wide_path os frame 1) (λ path1.
    with_path (get_wide_path os frame 2)
      (λ path2. copied path1 (λ path_out. returns (push_wide_path os (call path_out path2) ∷ []))))

-- `lua_converttostring`: lua_isstring takes strings and numbers, and "tostring" does the rest.
unfoldable pub convert_to_string : PathCalls → Value → List ℕ
convert_to_string os (string s) = s
convert_to_string os (number n) = os.api.number_text (number n)
convert_to_string os (ticks b n) = os.api.number_text (ticks b n)
convert_to_string os v = os.to_string v
