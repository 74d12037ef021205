-- ===== src/Path/Functions.antt =====
-- lmakelib.cpp: the functions of `make_pathlib`; make.path.where is in Search.
use presto_build.Base.{
  same_text, ℕ, ◌+◌, List, [], ◌∷◌, map, length, Bool, true, false, ◌||◌, leb, if◌then◌else◌,
}
use presto_build.Lua.{
  Frame, Value, nil, string, number, boolean, table, Fields, end, field, Outcome, returns,
  check_text, ◌>>=◌,
}
use presto_build.Env.{c_string}
use presto_build.Path.{
  PathCalls, Ran, ran, overran, max_path, back_slash, get_path, get_wide_path, push_path,
  push_wide_path, on_path, on_copy, on_copy_and_path, convert_to_string,
}
use presto_build.Path.Search.{path_or_nil, make_path_where}

unfoldable pub make_path_to_os : PathCalls → Frame → Outcome Frame
make_path_to_os os frame = do path_in ← get_path os.api frame 1; returns (string path_in ∷ [])

unfoldable pub make_path_from_os : PathCalls → Frame → Outcome Frame
make_path_from_os os frame = do
  path_in ← check_text os.api frame 1
  returns (push_path path_in ∷ [])

unfoldable pub make_path_short : PathCalls → Frame → Outcome Frame
make_path_short os frame = on_path os frame os.get_short_path_name

unfoldable pub make_path_long : PathCalls → Frame → Outcome Frame
make_path_long os frame = on_path os frame os.get_long_path_name

unfoldable pub make_path_full : PathCalls → Frame → Outcome Frame
make_path_full os frame = on_path os frame os.get_full_path_name

unfoldable pub make_path_canonicalize : PathCalls → Frame → Outcome Frame
make_path_canonicalize os frame = on_path os frame os.path_canonicalize

unfoldable pub make_path_add_slash : PathCalls → Frame → Ran
make_path_add_slash os frame = on_copy os frame os.path_add_backslash

unfoldable pub make_path_remove_slash : PathCalls → Frame → Ran
make_path_remove_slash os frame = on_copy os frame os.path_remove_backslash

unfoldable pub make_path_remove_ext : PathCalls → Frame → Ran
make_path_remove_ext os frame = on_copy os frame os.path_remove_extension

unfoldable pub make_path_quote : PathCalls → Frame → Ran
make_path_quote os frame = on_copy os frame os.path_quote_spaces

unfoldable pub make_path_unquote : PathCalls → Frame → Ran
make_path_unquote os frame = on_copy os frame os.path_unquote_spaces

unfoldable pub make_path_get_ext : PathCalls → Frame → Outcome Frame
make_path_get_ext os frame = on_path os frame os.path_find_extension

unfoldable pub make_path_get_name : PathCalls → Frame → Outcome Frame
make_path_get_name os frame = on_path os frame (λ path. (os.path_find_file_name path).1)

unfoldable pub make_path_get_dir : PathCalls → Frame → Outcome Frame
make_path_get_dir os frame = on_path os frame (λ path. (os.path_find_file_name path).0)

unfoldable pub make_path_is_relative : PathCalls → Frame → Outcome Frame
make_path_is_relative os frame = do
  path_in ← get_wide_path os frame 1
  returns (boolean (os.path_is_relative path_in) ∷ [])

unfoldable pub make_path_add_ext : PathCalls → Frame → Ran
make_path_add_ext os frame = on_copy_and_path os frame os.path_add_extension

unfoldable pub make_path_change_ext : PathCalls → Frame → Ran
make_path_change_ext os frame = on_copy_and_path os frame os.path_rename_extension

abbrev pub is_nil : Value → Bool
is_nil nil = true
is_nil v = false

-- while(!lua_isnoneornil(L,pos)): each text goes to path[MAX_PATH], with its zero and unchecked.
unfoldable pub combine_from : PathCalls → List ℕ → Frame → Ran
combine_from os path_out [] = ran (returns (push_wide_path os path_out ∷ []))
combine_from os path_out (v ∷ frame) =
    let wide = map back_slash (os.to_wide (convert_to_string os v)) in
    let more = combine_from os (os.path_combine path_out (c_string wide)) frame in
    if is_nil v
    then ran (returns (push_wide_path os path_out ∷ []))
    else (if leb max_path (length wide) then overran else more)

unfoldable pub make_path_combine : PathCalls → Frame → Ran
make_path_combine os frame = combine_from os [] frame

unfoldable pub make_path_common : PathCalls → Frame → Outcome Frame
make_path_common os frame = do
  path1 ← get_wide_path os frame 1
  path2 ← get_wide_path os frame 2
  returns (path_or_nil os (os.path_common_prefix path1 path2) ∷ [])

-- The loop over the files: "." and ".." are left out.
unfoldable pub glob_from : PathCalls → ℕ → List (List ℕ) → Fields
glob_from os pos [] = end
glob_from os pos (name ∷ names) =
    let skipped = glob_from os pos names in
    let more = glob_from os (pos + 1) names in
    if same_text name (b'.' ∷ []) || same_text name (b'.' ∷ b'.' ∷ [])
    then skipped
    else field (number pos) (push_wide_path os name) more

unfoldable pub make_path_glob : PathCalls → Frame → Outcome Frame
make_path_glob os frame = do
  path_in ← get_wide_path os frame 1
  returns (table (glob_from os 1 (os.find_files path_in)) ∷ [])

-- `make_pathlib`; `search` is "where".
pub data PathName : Type 0 where
  canonicalize add_slash remove_slash is_relative quote unquote add_ext get_ext change_ext
        remove_ext :
      PathName
  get_name get_dir combine common short long full glob search to_os from_os : PathName

unfoldable pub call_path : PathName → PathCalls → Frame → Ran
call_path canonicalize os frame = ran (make_path_canonicalize os frame)
call_path add_slash os frame = make_path_add_slash os frame
call_path remove_slash os frame = make_path_remove_slash os frame
call_path is_relative os frame = ran (make_path_is_relative os frame)
call_path quote os frame = make_path_quote os frame
call_path unquote os frame = make_path_unquote os frame
call_path add_ext os frame = make_path_add_ext os frame
call_path get_ext os frame = ran (make_path_get_ext os frame)
call_path change_ext os frame = make_path_change_ext os frame
call_path remove_ext os frame = make_path_remove_ext os frame
call_path get_name os frame = ran (make_path_get_name os frame)
call_path get_dir os frame = ran (make_path_get_dir os frame)
call_path combine os frame = make_path_combine os frame
call_path common os frame = ran (make_path_common os frame)
call_path short os frame = ran (make_path_short os frame)
call_path long os frame = ran (make_path_long os frame)
call_path full os frame = ran (make_path_full os frame)
call_path glob os frame = ran (make_path_glob os frame)
call_path search os frame = make_path_where os frame
call_path to_os os frame = ran (make_path_to_os os frame)
call_path from_os os frame = ran (make_path_from_os os frame)
