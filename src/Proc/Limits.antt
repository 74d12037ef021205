-- ===== src/Proc/Limits.antt =====
-- Where the cutting into lines does not do what it is for: lines that are longer than the buffer, and
-- a CR LF that two reads cut apart.
use presto_build.Base.{
  ℕ, ◌+◌, ◌≤◌, ◌<◌, ◌≡◌, ◌≢◌, refl, ap, ◌∙◌, List, [], ◌∷◌, true, ne→==, leb, length, length-append,
  append_assoc, append-nil, All, if◌then◌else◌, arith,
}
use presto_build.Proc.Output.{Lines, flushed, overrun, leftovers_size, flush_helper}
use presto_build.Proc.Stream.{step, read, stream}
use presto_build.Proc.Lines.{IsText, fresh, extend, flush_helper-eq-stream}

-- Text with no line end only makes the last line longer.
stream_line :
    (bytes : List ℕ) (s : Lines)
    → All (λ c. c ≢ 13) bytes
    → read (fresh s) bytes ≡ fresh (extend s bytes)
unfolding read
stream_line [] s h = rw append-nil
stream_line (c ∷ bytes) s h =
    ap (λ r. read r bytes) (longer s c h.0)
    ∙ stream_line bytes (extend s (c ∷ [])) h.1
    ∙ ap (λ t. fresh (record s { leftovers = t })) (append_assoc s.leftovers (c ∷ []) bytes)
  where
    longer : (s : Lines) (c : ℕ) → c ≢ 13 → step (fresh s) c ≡ fresh (extend s (c ∷ []))
    longer s c ne = unfold step in ground (arith, ne→== c 13 ne)

-- Where the leftovers fit, a read with no CR and no zero byte writes past the end of `leftovers` whenever
-- the line has come to 1024 bytes or more.
pub long_line_overruns :
    (bytes : List ℕ) (s : Lines)
    → IsText bytes
    → All (λ c. c ≢ 13) bytes
    → length s.leftovers < 1024
    → 1024 ≤ length s.leftovers + length bytes
    → flush_helper true bytes s ≡ overrun
long_line_overruns bytes s text line room long =
    flush_helper-eq-stream bytes s text room
    ∙ rw whole (ground (arith, length-append s.leftovers bytes))
  where
    whole : stream s bytes ≡ extend s bytes
    whole = unfold stream in ap (λ r. r.lines) (stream_line bytes s line)

-- After a CR the reference drops an LF. A read that begins with that LF, has no zero byte behind it and
-- finds leftovers that fit takes the LF for the first byte of the next line.
split_line_end :
    (bytes : List ℕ) (s : Lines)
    → IsText bytes
    → length s.leftovers < 1024
    → ((read (record { lines = s; after_cr = true }) (10 ∷ bytes)).lines ≡ stream s bytes)
      × (flush_helper true (10 ∷ bytes) s ≡ (
          if leb leftovers_size (length (stream (extend s (10 ∷ [])) bytes).leftovers)
          then overrun
          else flushed (stream (extend s (10 ∷ [])) bytes)))
split_line_end bytes s text room = (
  unfold read step stream in refl,
  flush_helper-eq-stream (10 ∷ bytes) s (λ e. absurd (omega arith), text) room
      ∙ unfold stream read step in refl,
)
