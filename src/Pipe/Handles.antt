-- ===== src/Pipe/Handles.antt =====
-- The handles and the error that `MyCreatePipeEx` leaves.
use presto_build.Base.{
  ℕ, ◌+◌, ◌≡◌, refl, [], ◌∷◌, ◌++◌, Bool, true, false, ◌==◌, bit_and, bit_or, append_assoc,
  if◌then◌else◌,
}
use presto_build.Md5.Word.{not32}
use presto_build.Pipe.{
  invalid, handle, System, invalid_parameter, file_flag_overlapped, Answer, gives, fails_with,
  PipeAnswers, Pipe, created, refused, open_write_end, create_pipe_ex,
}

-- The modes that the function takes: FILE_FLAG_OVERLAPPED and nothing else.
abbrev pub is_valid_mode : ℕ → ℕ → Bool
is_valid_mode read_mode write_mode =
    bit_and (bit_or read_mode write_mode) (not32 file_flag_overlapped) == 0

-- What a call owes: with a pipe, the two ends are open that it gives; without one, the read end that it
-- opened is closed again, or the call was refused before any other.
abbrev pub Pays : System → ℕ → Answer → Bool → Pipe → Type 0
Pays s read file valid (created r w t) =
    (valid ≡ true)
    × (t.opened ≡ s.opened ++ r ∷ w ∷ [])
    × (t.closed ≡ s.closed)
    × (t.serial ≡ s.serial + 1)
Pays s read file true (refused t) =
    (t.opened ≡ s.opened ++ handle read ∷ [])
    × (t.closed ≡ s.closed ++ handle read ∷ [])
    × (file ≡ fails_with t.last_error)
Pays s read file false (refused t) =
    (t.opened ≡ s.opened)
    × (t.closed ≡ s.closed)
    × (t.serial ≡ s.serial)
    × (t.last_error ≡ invalid_parameter)

module _ (file : Answer) (close_error size read_mode write_mode : ℕ) (s : System) where
  -- Where CreateNamedPipeA succeeds: the function opens both ends, or it has closed the read end again and
  -- reports the error of CreateFileA, or, for another mode than FILE_FLAG_OVERLAPPED, it has called nothing
  -- and reports ERROR_INVALID_PARAMETER.
  pub create_pipe_ex-Pays :
      (read : ℕ)
      → Pays s read file (is_valid_mode read_mode write_mode) (
          create_pipe_ex
            (record { named_pipe = gives read; file = file; close_error = close_error })
            size
            read_mode
            write_mode
            s)
  unfolding create_pipe_ex open_write_end
  create_pipe_ex-Pays read = choose (is_valid_mode read_mode write_mode) file
    where
      asked : Answer → PipeAnswers
      asked a = record { named_pipe = gives read; file = a; close_error = close_error }

      piped : System
      piped = record s {
        opened = s.opened ++ handle read ∷ [];
        serial = s.serial + 1;
        buffer_sizes = s.buffer_sizes ++ (if size == 0 then 4096 else size) ∷ [];
      }

      choose :
          (valid : Bool) (a : Answer)
          → Pays s read a valid (
              if valid
              then open_write_end (asked a) (handle read) piped
              else refused (record s { last_error = invalid_parameter }))
      choose true (gives w) =
          (refl, append_assoc s.opened (handle read ∷ []) (handle w ∷ []), refl, refl)
      choose true (fails_with error) = (refl, refl, refl)
      choose false a = (refl, refl, refl, refl)

-- Where CreateNamedPipeA fails and CreateFileA then fails too: the function closes INVALID_HANDLE_VALUE,
-- which no call gave out, and the error of CreateNamedPipeA is lost.
failed_pipe :
    (error file_error close_error size read_mode write_mode : ℕ) (s : System)
    → is_valid_mode read_mode write_mode ≡ true
    → (t : System) × (create_pipe_ex
          (record {
            named_pipe = fails_with error;
            file = fails_with file_error;
            close_error = close_error;
          })
          size
          read_mode
          write_mode
          s
        ≡ refused t)
      × (t.opened ≡ s.opened)
      × (t.closed ≡ s.closed ++ invalid ∷ [])
      × (t.last_error ≡ file_error)
unfolding create_pipe_ex open_write_end
failed_pipe error file_error close_error size read_mode write_mode s valid = (
  record {
    opened = s.opened;
    closed = s.closed ++ invalid ∷ [];
    last_error = file_error;
    serial = s.serial + 1;
    buffer_sizes = s.buffer_sizes ++ (if size == 0 then 4096 else size) ∷ [];
  },
  rw valid refl,
  refl,
  refl,
  refl,
)
