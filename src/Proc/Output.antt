-- ===== src/Proc/Output.antt =====
-- lmakelib.cpp `make_proc_flushio_helper`: the bytes of one read are cut into lines, which go to the
-- "print" function of the process table; what is left waits in `leftovers[1024]`.
use presto_build.Base.{ℕ, ◌+◌, List, [], ◌∷◌, ◌++◌, Bool, ◌==◌, leb, length, if◌then◌else◌}

-- The calls of "print" so far, and the C string in `leftovers`.
pub record Lines : Type 0 where
  pub printed : List (List ℕ)
  pub leftovers : List ℕ

-- `raised` is the error of luaL_checktype where "print" is no function; `overrun` is a `strcat` past
-- the end of `leftovers`, which C leaves undefined.
pub data Flushed : Type 0 where
  flushed : Lines → Flushed
  raised : Lines → Flushed
  overrun : Flushed

abbrev pub leftovers_size : ℕ
leftovers_size = 1024

-- `if(line_start != pos) strcat(...)` behind the loop; `strcat` writes a terminating zero too.
unfoldable pub keep_line : List ℕ → Lines → Flushed
keep_line [] s = flushed s
keep_line (c ∷ line) s =
    if leb leftovers_size (length s.leftovers + length (c ∷ line))
    then overrun
    else flushed (record s { leftovers = s.leftovers ++ c ∷ line })

-- One call of "print": the leftovers and the line, and then the leftovers are erased.
unfoldable pub end_line : List ℕ → Lines → Lines
end_line line s = record { printed = s.printed ++ (s.leftovers ++ line) ∷ []; leftovers = [] }

-- The loop. `line` is what stands from `line_start` up to `pos`, the list what stands from `pos` up to
-- the zero that is written behind the `dwRead` bytes; `print_ok` says that "print" is a function.
unfoldable pub scan : Bool → List ℕ → List ℕ → Lines → Flushed
scan print_ok line [] s = keep_line line s
scan print_ok line (c ∷ []) s =
    if c == 0
    then keep_line line s
    else if c == 13
    then (if print_ok then keep_line [] (end_line line s) else raised s)
    else keep_line (line ++ c ∷ []) s
scan print_ok line (c ∷ d ∷ rest) s =
    let skipped = scan print_ok [] rest (end_line line s) in
    let next = scan print_ok [] (d ∷ rest) (end_line line s) in
    let longer = scan print_ok (line ++ c ∷ []) (d ∷ rest) s in
    if c == 0
    then keep_line line s
    else if c == 13
    then (if print_ok then (if d == 10 then skipped else next) else raised s)
    else longer

unfoldable pub flush_helper : Bool → List ℕ → Lines → Flushed
flush_helper print_ok buffer s = scan print_ok [] buffer s
