-- ===== src/File.antt =====
-- lmakelib.cpp: the make.file functions, but for make.file.md5, and make.now.
pub mod Times
use presto_build.Base.{
  ℕ, ◌-◌, ◌*◌, ◌^◌, bit_or, ltb, List, [], ◌∷◌, Bool, true, false, ◌==◌, ◌||◌, Option, none, some,
  if◌then◌else◌,
}
use presto_build.Lua.{
  Frame, Value, nil, boolean, number, ticks, LuaError, message, Outcome, returns, raises, ◌>>=◌,
}
use presto_build.Path.{PathCalls, get_wide_path, push_wide_path}

-- FILETIME: `dwLowDateTime` and `dwHighDateTime`
pub record FileTime : Type 0 where
  pub low : ℕ
  pub high : ℕ

-- The calls, on a state of the file system. `open_attributes` is CreateFileW with OPEN_EXISTING and
-- `open_always` with OPEN_ALWAYS; `delete_file` gives the error of a call that fails.
pub record FileCalls : Type 1 where
  pub FileSystem : Type 0
  pub system_time : FileSystem → FileTime
  pub path_file_exists : List ℕ → FileSystem → Bool
  pub temp_path : List ℕ
  pub temp_file_name : List ℕ → FileSystem → (List ℕ) × FileSystem
  pub open_attributes : List ℕ → FileSystem → Bool
  pub open_always : List ℕ → FileSystem → Option FileSystem
  pub file_size : List ℕ → FileSystem → ℕ
  pub file_time : List ℕ → FileSystem → FileTime
  pub set_file_time : List ℕ → FileTime → FileSystem → FileSystem
  pub copy_file : List ℕ → List ℕ → FileSystem → Option FileSystem
  pub delete_file : List ℕ → FileSystem → Option ℕ × FileSystem

abbrev pub file_not_found : ℕ
file_not_found = 2

-- (__int64)low | ((__int64)high << 32), for the times before the year 30828, which an __int64 holds.
unfoldable pub time_of : FileTime → ℕ
time_of t = bit_or (t.high * 2 ^ 32) t.low

-- `time - start_time`, which is pushed as seconds.
unfoldable pub since_start : ℕ → ℕ → Value
since_start start time =
    if ltb time start then ticks true (start - time) else ticks false (time - start)

module _ (os : PathCalls) (files : FileCalls) where
  open files use {
    FileSystem, system_time, path_file_exists, temp_path, temp_file_name, open_attributes,
    open_always, file_size, file_time, set_file_time, copy_file, delete_file,
  }

  unfoldable pub make_now : ℕ → FileSystem → Outcome Frame
  make_now start s = returns (since_start start (time_of (system_time s)) ∷ [])

  unfoldable pub make_file_exists : Frame → FileSystem → Outcome Frame
  make_file_exists frame s = do
    path ← get_wide_path os frame 1
    returns (boolean (path_file_exists path s) ∷ [])

  unfoldable pub make_file_temp : FileSystem → (Outcome Frame) × FileSystem
  make_file_temp s =
      let (path, t) = temp_file_name temp_path s in (returns (push_wide_path os path ∷ []), t)

  abbrev touched : List ℕ → Option FileSystem → Outcome (Frame × FileSystem)
  touched path none = raises (message "error touching file")
  touched path (some t) = returns ([], set_file_time path (system_time t) t)

  unfoldable pub make_file_touch : Frame → FileSystem → Outcome (Frame × FileSystem)
  make_file_touch frame s = do path ← get_wide_path os frame 1; touched path (open_always path s)

  abbrev copied : Option FileSystem → Outcome (Frame × FileSystem)
  copied none = raises (message "error copying file")
  copied (some t) = returns ([], t)

  unfoldable pub make_file_copy : Frame → FileSystem → Outcome (Frame × FileSystem)
  make_file_copy frame s = do
    path1 ← get_wide_path os frame 1
    path2 ← get_wide_path os frame 2
    copied (copy_file path1 path2 s)

  abbrev deleted : Option ℕ × FileSystem → Outcome (Frame × FileSystem)
  deleted (none, t) = returns ([], t)
  deleted (some error, t) =
      if error == file_not_found then returns ([], t) else raises (message "error deleting file")

  unfoldable pub make_file_delete : Frame → FileSystem → Outcome (Frame × FileSystem)
  make_file_delete frame s = do path ← get_wide_path os frame 1; deleted (delete_file path s)

  unfoldable pub make_file_size : Frame → FileSystem → Outcome Frame
  make_file_size frame s = do
    path ← get_wide_path os frame 1
    returns ((if open_attributes path s then number (file_size path s) else nil) ∷ [])

  unfoldable pub make_file_time : ℕ → Frame → FileSystem → Outcome Frame
  make_file_time start frame s = do
    path ← get_wide_path os frame 1
    returns (
        (if open_attributes path s then since_start start (time_of (file_time path s)) else nil)
        ∷ [])
