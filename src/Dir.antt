-- ===== src/Dir.antt =====
-- lmakelib.cpp: `__make_dir_md` and the make.dir functions.
pub mod Created
use presto_build.Base.{
  ℕ, zero, suc, List, [], ◌∷◌, Bool, true, false, Option, none, some, if◌then◌else◌,
}
use presto_build.Lua.{Frame, Value, boolean, LuaError, message, Outcome, returns, raises, ◌>>=◌}
use presto_build.Path.{PathCalls, get_wide_path, push_wide_path}

-- The calls, on a state of the file system, which has the current directory; `current_directory` is what
-- GetCurrentDirectoryW leaves in an array of zeros, and `parent` is the path up to what PathFindFileNameW points at.
pub record DirCalls : Type 1 where
  pub FileSystem : Type 0
  pub parent : List ℕ → List ℕ
  pub is_directory : List ℕ → FileSystem → Bool
  pub is_empty : List ℕ → FileSystem → Bool
  pub create_directory : List ℕ → FileSystem → Bool × FileSystem
  pub remove_directory : List ℕ → FileSystem → Bool × FileSystem
  pub temp_path : List ℕ
  pub set_current_directory : List ℕ → FileSystem → FileSystem
  pub current_directory : FileSystem → List ℕ

module _ (dirs : DirCalls) where
  open dirs use {FileSystem, parent, is_directory, create_directory}

  abbrev pub then_create : List ℕ → Option (Bool × FileSystem) → Option (Bool × FileSystem)
  then_create path none = none
  then_create path (some (false, s)) = some (false, s)
  then_create path (some (true, s)) = some (create_directory path s)

  -- `__make_dir_md`; `none` is fuel that ran out. The path is cut at its file name for the call and then
  -- put together again.
  unfoldable pub make_dirs : ℕ → List ℕ → FileSystem → Option (Bool × FileSystem)
  make_dirs zero path s = none
  make_dirs (suc fuel) path s =
      let above = then_create path (make_dirs fuel (parent path) s) in
      if is_directory path s then some (true, s) else above

module _ (os : PathCalls) (dirs : DirCalls) where
  open dirs use {
    FileSystem, is_directory, is_empty, remove_directory, temp_path, set_current_directory,
    current_directory,
  }

  abbrev pub or_raise : Bool × FileSystem → Outcome ((Frame) × FileSystem)
  or_raise (true, s) = returns ([], s)
  or_raise (false, s) = raises (message "error creating directory")

  abbrev made : Option (Bool × FileSystem) → Option (Outcome ((Frame) × FileSystem))
  made none = none
  made (some result) = some (or_raise result)

  abbrev on_md : ℕ → Outcome (List ℕ) → FileSystem → Option (Outcome ((Frame) × FileSystem))
  on_md fuel (raises e) s = some (raises e)
  on_md fuel (returns path) s = made (make_dirs dirs fuel path s)

  unfoldable pub make_dir_md : ℕ → Frame → FileSystem → Option (Outcome ((Frame) × FileSystem))
  make_dir_md fuel frame s = on_md fuel (get_wide_path os frame 1) s

  abbrev removed : Bool × FileSystem → Outcome ((Frame) × FileSystem)
  removed (true, s) = returns ([], s)
  removed (false, s) = raises (message "error removing directory")

  unfoldable pub make_dir_rd : Frame → FileSystem → Outcome ((Frame) × FileSystem)
  make_dir_rd frame s = do path ← get_wide_path os frame 1; removed (remove_directory path s)

  unfoldable pub make_dir_is_dir : Frame → FileSystem → Outcome Frame
  make_dir_is_dir frame s = do
    path ← get_wide_path os frame 1
    returns (boolean (is_directory path s) ∷ [])

  unfoldable pub make_dir_is_empty : Frame → FileSystem → Outcome Frame
  make_dir_is_empty frame s = do
    path ← get_wide_path os frame 1
    returns (boolean (is_empty path s) ∷ [])

  unfoldable pub make_dir_temp : Outcome Frame
  make_dir_temp = returns (push_wide_path os temp_path ∷ [])

  -- What comes back of a change to a directory, whose failure is not noticed.
  abbrev in_directory : FileSystem → Outcome ((Frame) × FileSystem)
  in_directory s = returns (push_wide_path os (current_directory s) ∷ [], s)

  unfoldable pub make_dir_cd : Frame → FileSystem → Outcome ((Frame) × FileSystem)
  make_dir_cd [] s = in_directory s
  make_dir_cd (v ∷ frame) s = do
    path ← get_wide_path os (v ∷ frame) 1
    in_directory (set_current_directory path s)
