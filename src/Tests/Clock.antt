-- ===== src/Tests/Clock.antt =====
-- Runs of make.file.time, make.file.touch and make.now.
use presto_build.Base.{◌≡◌, refl, [], ◌∷◌, true, none, some, arith}
use presto_build.Lua.{Frame, Value, string, returns}
use presto_build.Path.{get_wide_path, back_slash}
use presto_build.Env.{c_string}
use presto_build.File.{FileTime, FileCalls, time_of, make_now, make_file_time}
use presto_build.File.Times.{earlier, before, file_time_order}
use presto_build.Tests.Paths.{os}

-- A file system of one file, by its time; the clock stands.
abbrev files : FileCalls
files = record {
  FileSystem = FileTime;
  system_time = λ s. record { low = 5; high = 7 };
  path_file_exists = λ path s. true;
  temp_path = [];
  temp_file_name = λ path s. (path, s);
  open_attributes = λ path s. true;
  open_always = λ path s. some s;
  file_size = λ path s. 0;
  file_time = λ path s. s;
  set_file_time = λ path time s. time;
  copy_file = λ path1 path2 s. some s;
  delete_file = λ path s. (none, s);
}

abbrev file_arg : Frame
file_arg = string (b'f' ∷ []) ∷ []

abbrev old : FileTime
old = record { low = 9; high = 6 }

file_time_order_example :
    (v : Value) × (w : Value) × (make_file_time os files 100 file_arg old ≡ returns (v ∷ []))
    × (make_now os files 100 old ≡ returns (w ∷ []))
    × (earlier v w ≡ before old (record { low = 5; high = 7 }))
unfolding time_of get_wide_path c_string back_slash
file_time_order_example =
    file_time_order os files 100 file_arg (b'f' ∷ []) earlier (λ v w near near'. refl) old refl refl
      (ground arith, ground arith) (ground arith, ground arith) (ground arith, ground arith)
      (ground arith, ground arith)
