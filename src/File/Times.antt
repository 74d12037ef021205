-- ===== src/File/Times.antt =====
-- The order of the times that make.file.time and make.now give, and the time of a touched file.
use presto_build.Base.{
  ℕ, ◌+◌, ◌-◌, if◌then◌else◌, ◌*◌, ◌^◌, ◌<◌, ◌≡◌, refl, ◌∙◌, ltb, List, [], ◌∷◌, Bool, true, false,
  ◌==◌, ◌||◌, ◌&&◌, some, Bool-cases, inl, inr, arith,
}
use presto_build.Base.Bits.{bit_or_shifted}
use presto_build.Lua.{Frame, Value, ticks, returns}
use presto_build.Path.{PathCalls, get_wide_path}
use presto_build.File.{
  FileTime, FileCalls, time_of, since_start, make_now, make_file_time, make_file_touch,
}

-- The order of two times as integers.
abbrev pub earlier : Value → Value → Bool
earlier (ticks true a) (ticks true b) = ltb b a
earlier (ticks true a) (ticks false b) = true
earlier (ticks false a) (ticks true b) = false
earlier (ticks false a) (ticks false b) = ltb a b
earlier v w = false

-- A time of less than 2 ^ 50 units of 100 ns, about 35 years, on either side of the start.
abbrev pub IsNear : Value → Type 0
IsNear (ticks true n) = (0 < n) × (n < 2 ^ 50)
IsNear (ticks false n) = n < 2 ^ 50
IsNear v = ⊥

-- A comparison of doubles: the conversion to a double and the product with 1.0e-7, each rounded, keep the order
-- of times that are near, and keep them apart.
abbrev pub KeepsOrder : (Value → Value → Bool) → Type 0
KeepsOrder less = (v w : Value) → IsNear v → IsNear w → less v w ≡ earlier v w

-- CompareFileTime: by the high words, then by the low ones.
abbrev pub before : FileTime → FileTime → Bool
before t u = ltb t.high u.high || (t.high == u.high && ltb t.low u.low)

time_of_lem : (t : FileTime) → t.low < 2 ^ 32 → time_of t ≡ t.high * 2 ^ 32 + t.low
unfolding time_of
time_of_lem t h = bit_or_shifted 32 t.high t.low h

since_start_order : (start a b : ℕ) → earlier (since_start start a) (since_start start b) ≡ ltb a b
unfolding since_start
since_start_order start a b = elim (Bool-cases (ltb a start)) [
  | inl e ↦ rw e (elim (Bool-cases (ltb b start)) [
    | inl f ↦ rw f (ground (arith, e, f))
    | inr f ↦ rw f (ground (arith, e, f))
  ])
  | inr e ↦ rw e (elim (Bool-cases (ltb b start)) [
    | inl f ↦ rw f (ground (arith, e, f))
    | inr f ↦ rw f (ground (arith, e, f))
  ])
]

-- The times that are near are those of 35 years around the start.
since_start-IsNear :
    (start time : ℕ)
    → time < start + 2 ^ 50
    → start < time + 2 ^ 50
    → IsNear (since_start start time)
unfolding since_start
since_start-IsNear start time below above = go (ltb time start) (λ h. ground (arith, h))
  where
    go :
        (b : Bool)
        → (b ≡ true → time < start)
        → IsNear (if b then ticks true (start - time) else ticks false (time - start))
    go true lt = let less = lt refl in (omega (arith, less), omega (arith, less, above))
    go false lt = omega (arith, below, above)

before_lem :
    (t u : FileTime) → t.low < 2 ^ 32 → u.low < 2 ^ 32 → ltb (time_of t) (time_of u) ≡ before t u
before_lem t u ht hu = rw (time_of_lem t ht, time_of_lem u hu) (ground (arith, ht, hu))

-- Two words of 32 bits, of a time that is not negative as an __int64.
abbrev pub IsTime : FileTime → Type 0
IsTime t = (t.low < 2 ^ 32) × (t.high < 2 ^ 31)

-- Within 2 ^ 50 units of the start time.
abbrev pub IsAround : ℕ → FileTime → Type 0
IsAround start t = (time_of t < start + 2 ^ 50) × (start < time_of t + 2 ^ 50)

module _ (os : PathCalls) (files : FileCalls) (start : ℕ) (frame : Frame) (path : List ℕ) where
  open files use {FileSystem, system_time, open_attributes, open_always, file_time, set_file_time}

  -- For a file that can be opened: make.file.time gives a value and make.now gives one. Where FILETIMEs have
  -- two words of 32 bits and fit an __int64, both times lie within 2 ^ 50 units of the start time, and Lua's
  -- comparison of doubles keeps the order of such times, Lua finds the first below the second exactly when the
  -- file's last write is before the clock as the system compares FILETIMEs.
  pub file_time_order :
      (less : Value → Value → Bool)
      → KeepsOrder less
      → (s : FileSystem) → get_wide_path os frame 1 ≡ returns path
      → open_attributes path s ≡ true
      → IsTime (file_time path s)
      → IsTime (system_time s)
      → IsAround start (file_time path s)
      → IsAround start (system_time s)
      → (v : Value) × (w : Value) × (make_file_time os files start frame s ≡ returns (v ∷ []))
        × (make_now os files start s ≡ returns (w ∷ []))
        × (less v w ≡ before (file_time path s) (system_time s))
  unfolding make_file_time make_now
  file_time_order less keeps s named opens file_fits now_fits (file_below, file_above)
        (now_below, now_above) =
      (
        since_start start (time_of (file_time path s)),
        since_start start (time_of (system_time s)),
        rw (named, opens) refl,
        refl,
        keeps _ _ (since_start-IsNear start _ file_below file_above)
              (since_start-IsNear start _ now_below now_above)
            ∙ since_start_order start _ _
            ∙ before_lem (file_time path s) (system_time s) file_fits.0 now_fits.0,
      )

  -- Where SetFileTime sets the time that GetFileTime gives and leaves the file to be opened: a touched file
  -- has the time that make.now gave when it was touched.
  touch_time :
      (s t : FileSystem)
      → get_wide_path os frame 1 ≡ returns path
      → open_always path s ≡ some t
      → ((time : FileTime)
          → (file_time path (set_file_time path time t) ≡ time)
            × (open_attributes path (set_file_time path time t) ≡ true))
      → (u : FileSystem) × (make_file_touch os files frame s ≡ returns ([], u))
        × (make_file_time os files start frame u ≡ make_now os files start t)
  unfolding make_file_touch make_file_time make_now
  touch_time s t named opens sets = (
    set_file_time path (system_time t) t,
    rw (named, opens) refl,
    rw (named, (sets (system_time t)).1, (sets (system_time t)).0) refl,
  )
