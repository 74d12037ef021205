-- ===== src/Proc/Lines.antt =====
-- One read by `make_proc_flushio_helper` against the whole-stream reference.
use presto_build.Base.{
  ℕ, ◌<◌, ◌≡◌, ◌≢◌, sym, ap, ◌∙◌, List, [], ◌∷◌, ◌++◌, true, false, ◌==◌, ne→==, leb, length,
  length-append, append-nil, append_assoc, All, ==_iff, Bool-cases, inl, inr, if◌then◌else◌, arith,
}
use presto_build.Proc.Output.{
  Lines, Flushed, flushed, overrun, leftovers_size, keep_line, end_line, scan, flush_helper,
}
use presto_build.Proc.Stream.{Reader, step, read, stream}

-- What the helper makes of the lines that it has found: `strcat` fits or it does not.
abbrev pub stored : Lines → Flushed
stored s = if leb leftovers_size (length s.leftovers) then overrun else flushed s

abbrev pub IsText : List ℕ → Type 0
IsText = All (λ c. c ≢ 0)

abbrev pub extend : Lines → List ℕ → Lines
extend s line = record s { leftovers = s.leftovers ++ line }

abbrev pub fresh : Lines → Reader
fresh s = record { lines = s; after_cr = false }

keep_line_lem :
    (line : List ℕ) (s : Lines)
    → length s.leftovers < 1024
    → keep_line line s ≡ stored (extend s line)
unfolding keep_line
keep_line_lem [] s h = rw append-nil (ground arith)
keep_line_lem (c ∷ line) s h = rw length-append

extend_nil : (s : Lines) → extend s [] ≡ s
extend_nil s = rw append-nil

-- The three kinds of byte, as the reference reads them.
step_cr :
    (s : Lines) (line : List ℕ) (c : ℕ)
    → c ≡ 13
    → step (fresh (extend s line)) c ≡ record { lines = end_line line s; after_cr = true }
unfolding step end_line
step_cr s line c h = rw (h, append-nil)

step_other :
    (s : Lines) (line : List ℕ) (c : ℕ)
    → (c == 13) ≡ false
    → step (fresh (extend s line)) c ≡ fresh (extend s (line ++ c ∷ []))
unfolding step
step_other s line c h = ground (arith, append_assoc s.leftovers line (c ∷ []))

-- Behind a CR, an LF is dropped and any other byte is read as ever.
step_lf : (s : Lines) (c : ℕ) → c ≡ 10 → step (record { lines = s; after_cr = true }) c ≡ fresh s
unfolding step
step_lf s c h = rw h

pub step_behind_cr :
    (s : Lines) (c : ℕ)
    → (c == 10) ≡ false
    → step (record { lines = s; after_cr = true }) c ≡ step (fresh s) c
unfolding step
step_behind_cr s c h = rw h

abbrev reads : Lines → List ℕ → List ℕ → Lines
reads s line bytes = (read (fresh (extend s line)) bytes).lines

-- One round of the loop, for each kind of byte.
module _ (line : List ℕ) (s : Lines) (c : ℕ) (text : c ≢ 0) where
  scan_last_cr : c ≡ 13 → scan true line (c ∷ []) s ≡ keep_line [] (end_line line s)
  unfolding scan
  scan_last_cr h = rw h

  scan_last_other : (c == 13) ≡ false → scan true line (c ∷ []) s ≡ keep_line (line ++ c ∷ []) s
  unfolding scan
  scan_last_other h = rw (ne→== c 0 text, h)

  module _ (d : ℕ) (rest : List ℕ) where
    scan_cr_lf :
        c ≡ 13 → d ≡ 10 → scan true line (c ∷ d ∷ rest) s ≡ scan true [] rest (end_line line s)
    unfolding scan
    scan_cr_lf h k = rw (h, k)

    scan_cr :
        c ≡ 13
        → (d == 10) ≡ false
        → scan true line (c ∷ d ∷ rest) s ≡ scan true [] (d ∷ rest) (end_line line s)
    unfolding scan
    scan_cr h k = rw (h, k)

    scan_other :
        (c == 13) ≡ false
        → scan true line (c ∷ d ∷ rest) s ≡ scan true (line ++ c ∷ []) (d ∷ rest) s
    unfolding scan
    scan_other h = rw (ne→== c 0 text, h)

abbrev from : Reader → List ℕ → Flushed
from r bytes = stored (read r bytes).lines

-- The loop at `line`, over the bytes that are left.
scan_lem :
    (bytes line : List ℕ) (s : Lines)
    → IsText bytes
    → length s.leftovers < 1024
    → scan true line bytes s ≡ from (fresh (extend s line)) bytes
unfolding read end_line
scan_lem [] line s text room = unfold scan in keep_line_lem line s room
scan_lem (c ∷ []) line s text room = elim (Bool-cases (c == 13)) [
  | inl cr ↦
      let e = (==_iff c 13).0 cr in
      scan_last_cr line s c text.0 e
      ∙ unfold keep_line in ap (λ r. from r []) (sym (step_cr s line c e))
  | inr other ↦
      scan_last_other line s c text.0 other
      ∙ keep_line_lem (line ++ c ∷ []) s room
      ∙ ap (λ r. from r []) (sym (step_other s line c other))
]
scan_lem (c ∷ d ∷ rest) line s text room = elim (Bool-cases (c == 13)) [
  | inl cr ↦
      let e = (==_iff c 13).0 cr in
      elim (Bool-cases (d == 10)) [
        | inl lf ↦
            let k = (==_iff d 10).0 lf in
            scan_cr_lf line s c text.0 d rest e k
            ∙ scan_lem rest [] (end_line line s) text.1.1 (omega arith)
            ∙ ap (λ r. from r rest) (sym (step_lf (end_line line s) d k))
            ∙ ap (λ r. from (step r d) rest) (sym (step_cr s line c e))
        | inr other ↦
            scan_cr line s c text.0 d rest e other
            ∙ scan_lem (d ∷ rest) [] (end_line line s) text.1 (omega arith)
            ∙ ap (λ r. from r rest) (sym (step_behind_cr (end_line line s) d other))
            ∙ ap (λ r. from (step r d) rest) (sym (step_cr s line c e))
      ]
  | inr other ↦
      scan_other line s c text.0 d rest other
      ∙ scan_lem (d ∷ rest) (line ++ c ∷ []) s text.1 room
      ∙ ap (λ r. from (step r d) rest) (sym (step_other s line c other))
]

-- What one read does, where "print" is a function, the read has no zero byte and the leftovers fit: the
-- helper leaves the printed lines and the leftovers that the reference has for the same bytes, and
-- `strcat` overruns the buffer exactly when those leftovers do not fit it.
pub flush_helper-eq-stream :
    (bytes : List ℕ) (s : Lines)
    → IsText bytes
    → length s.leftovers < 1024
    → flush_helper true bytes s ≡ (
        if leb leftovers_size (length (stream s bytes).leftovers)
        then overrun
        else flushed (stream s bytes))
unfolding flush_helper stream
flush_helper-eq-stream bytes s text room =
    scan_lem bytes [] s text room ∙ ap (λ r. from r bytes) (ap fresh (extend_nil s))
