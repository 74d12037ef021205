-- ===== src/Proc/Chunks.antt =====
-- lmakelib.cpp, make.proc.flushio: proofs on reads of any sizes.
use presto_build.Base.{
  ℕ, ◌<◌, ◌≡◌, refl, sym, ap, ◌∙◌, ◌⊎◌, inl, inr, List, [], ◌∷◌, ◌++◌, Bool, true, false, ◌==◌,
  length, map, arith,
}
use presto_build.Proc.Output.{Lines, flushed, flush_helper}
use presto_build.Proc.Stream.{Reader, step, read, stream}
use presto_build.Proc.Lines.{IsText, fresh, step_behind_cr, flush_helper-eq-stream}
use presto_build.Proc.Flush.{Process, Io, got, read_loop, with_lines}

abbrev pub join : List (List ℕ) → List ℕ
join [] = []
join (c ∷ cs) = c ++ join cs

-- The lines behind a sequence of reads, each taken as a stream of its own.
abbrev pub streams : Lines → List (List ℕ) → Lines
streams s [] = s
streams s (c ∷ cs) = streams (stream s c) cs

-- What is left behind each read fits the buffer, and no read holds a zero byte.
abbrev pub AllFit : Lines → List (List ℕ) → Type 0
AllFit s [] = Unit
AllFit s (c ∷ cs) = IsText c × (length (stream s c).leftovers < 1024) × AllFit (stream s c) cs

abbrev pub starts_lf : List ℕ → Bool
starts_lf [] = false
starts_lf (c ∷ cs) = c == 10

-- No read begins with the LF of a CR LF whose CR ended what was read before.
abbrev pub IsClean : Reader → List (List ℕ) → Type 0
IsClean r [] = Unit
IsClean r (c ∷ cs) = ((r.after_cr ≡ false) ⊎ (starts_lf c ≡ false)) × IsClean (read r c) cs

pub read-append : (xs ys : List ℕ) (r : Reader) → read r (xs ++ ys) ≡ read (read r xs) ys
unfolding read
read-append [] ys r = refl
read-append (c ∷ xs) ys r = read-append xs ys (step r c)

read_lines :
    (c : List ℕ) (r : Reader)
    → (r.after_cr ≡ false) ⊎ (starts_lf c ≡ false)
    → (read r c).lines ≡ stream r.lines c
unfolding read stream
read_lines c r (inl e) =
    ap (λ b. let q : Reader = record { lines = r.lines; after_cr = b } in (read q c).lines) e
read_lines [] r (inr e) = refl
read_lines (d ∷ c) r (inr e) = ap (λ q. (read q c).lines) (skip r.lines r.after_cr)
  where
    skip : (s : Lines) (b : Bool) → step (record { lines = s; after_cr = b }) d ≡ step (fresh s) d
    skip s false = refl
    skip s true = step_behind_cr s d e

-- However the output is cut into reads, unless between a CR and its LF, the reads give the lines of
-- the whole output.
pub streams-eq-stream :
    (cs : List (List ℕ)) (r : Reader) → IsClean r cs → streams r.lines cs ≡ (read r (join cs)).lines
unfolding read
streams-eq-stream [] r clean = refl
streams-eq-stream (c ∷ cs) r clean =
    ap (λ s. streams s cs) (sym (read_lines c r clean.0))
    ∙ streams-eq-stream cs (read r c) clean.1
    ∙ ap (λ q. q.lines) (sym (read-append c (join cs) r))

pub flush_fits :
    (c : List ℕ) (s : Lines)
    → IsText c
    → length s.leftovers < 1024
    → length (stream s c).leftovers < 1024
    → flush_helper true c s ≡ flushed (stream s c)
flush_fits c s text room fits = flush_helper-eq-stream c s text room ∙ ground arith

-- The reading loop over a sequence of reads that have data.
pub read_loop-got :
    (cs : List (List ℕ)) (code : ℕ) (events : List Io) (p : Process)
    → length p.lines.leftovers < 1024
    → AllFit p.lines cs
    → p.waiting ≡ false
    → read_loop true code (map got cs ++ events) p
      ≡ read_loop true code events (record p { lines = streams p.lines cs })
unfolding read_loop with_lines
read_loop-got [] code events p room fit idle = refl
read_loop-got (c ∷ cs) code events p room fit idle =
    let q : Process = record p { lines = stream p.lines c; waiting = false } in
    rw (flush_fits c p.lines fit.0 room fit.1) (
      read_loop-got cs code events q fit.1 fit.2 refl
      ∙ ap
          (λ b. read_loop true code events (
            let e : Process = record p { lines = streams (stream p.lines c) cs; waiting = b } in e))
          (sym idle))
