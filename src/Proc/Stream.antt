-- ===== src/Proc/Stream.antt =====
-- The lines of a whole output stream, as a reference: a line ends at CR or CR LF, wherever the
-- stream is cut into reads.
use presto_build.Base.{ℕ, List, [], ◌∷◌, ◌++◌, Bool, true, false, ◌==◌, ◌&&◌, if◌then◌else◌}
use presto_build.Proc.Output.{Lines, end_line}

-- `after_cr` says that the byte before was a CR.
pub record Reader : Type 0 where
  pub lines : Lines
  pub after_cr : Bool

unfoldable pub step : Reader → ℕ → Reader
step r c =
    if c == 10 && r.after_cr
    then record r { after_cr = false }
    else if c == 13
    then record { lines = end_line [] r.lines; after_cr = true }
    else record {
      lines = record { printed = r.lines.printed; leftovers = r.lines.leftovers ++ c ∷ [] };
      after_cr = false;
    }

unfoldable pub read : Reader → List ℕ → Reader
read r [] = r
read r (c ∷ cs) = read (step r c) cs

unfoldable pub stream : Lines → List ℕ → Lines
stream s bytes = (read (record { lines = s; after_cr = false }) bytes).lines
