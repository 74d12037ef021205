-- ===== src/Pipe.antt =====
-- pipeex.c `MyCreatePipeEx`, and the record of handles that it shares with `make_proc_spawn`. What the
-- operating system answers to each call is given beforehand.
pub mod Handles
use presto_build.Base.{
  ℕ, ◌+◌, ◌^◌, bit_and, bit_or, List, [], ◌∷◌, ◌++◌, Bool, true, false, ◌==◌, if◌then◌else◌,
}
use presto_build.Md5.Word.{not32}

-- A HANDLE: 0, INVALID_HANDLE_VALUE, or a handle of the system.
pub data Handle : Type 0 where
  null : Handle
  invalid : Handle
  handle : ℕ → Handle

-- `opened` is the handles that calls have given out and `closed` those that CloseHandle was called on, in
-- order; `last_error` is that of SetLastError, `serial` is `PipeSerialNumber`, `buffer_sizes` the sizes
-- that pipes were asked for.
pub record System : Type 0 where
  pub opened : List Handle
  pub closed : List Handle
  pub last_error : ℕ
  pub serial : ℕ
  pub buffer_sizes : List ℕ

abbrev pub invalid_parameter : ℕ
invalid_parameter = 87

abbrev pub file_flag_overlapped : ℕ
file_flag_overlapped = 2 ^ 30

-- A call that gives out a handle: a failing one gives INVALID_HANDLE_VALUE and sets the error.
pub data Answer : Type 0 where
  gives : ℕ → Answer
  fails_with : ℕ → Answer

abbrev pub handle_of : Answer → Handle
handle_of (gives h) = handle h
handle_of (fails_with error) = invalid

abbrev pub after : Answer → System → System
after (gives h) s = record s { opened = s.opened ++ handle h ∷ [] }
after (fails_with error) s = record s { last_error = error }

abbrev pub close : Handle → System → System
close h s = record s { closed = s.closed ++ h ∷ [] }

-- The answers of CreateNamedPipeA and CreateFileA, and the error that a CloseHandle leaves.
pub record PipeAnswers : Type 0 where
  pub named_pipe : Answer
  pub file : Answer
  pub close_error : ℕ

pub data Pipe : Type 0 where
  created : Handle → Handle → System → Pipe
  refused : System → Pipe

-- if(INVALID_HANDLE_VALUE == WritePipeHandle): the error is saved over the CloseHandle.
unfoldable pub open_write_end : PipeAnswers → Handle → System → Pipe
open_write_end answers read_end s = elim answers.file [
  | gives w ↦ created read_end (handle w) (after (gives w) s)
  | fails_with error ↦
      let failed = after (fails_with error) s in
      let shut = record (close read_end failed) { last_error = answers.close_error } in
      refused (record shut { last_error = failed.last_error })
]

abbrev pub is_null : Handle → Bool
is_null null = true
is_null invalid = false
is_null (handle h) = false

unfoldable pub create_pipe_ex : PipeAnswers → ℕ → ℕ → ℕ → System → Pipe
create_pipe_ex answers size read_mode write_mode s =
    let sized = if size == 0 then 4096 else size in
    let asked = record s { serial = (s.serial + 1); buffer_sizes = s.buffer_sizes ++ sized ∷ [] } in
    let piped = after answers.named_pipe asked in
    let read_end = handle_of answers.named_pipe in
    if bit_and (bit_or read_mode write_mode) (not32 file_flag_overlapped) == 0
    then (if is_null read_end then refused piped else open_write_end answers read_end piped)
    else refused (record s { last_error = invalid_parameter })
