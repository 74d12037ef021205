-- ===== src/Build/Spends.antt =====
-- lua/mkinit.lua, `bring_up_to_date`: proofs on what a call starts, and on how many commands there are to start.
use mathlib.Core.List.{Memᴰ}
use mathlib.Core.List.Memᴰ
use presto_build.Base.{
  ℕ, ◌+◌, ◌<◌, ◌≤◌, ◌≢◌, inl, inr, sym, ap, ◌∙◌, subst, List, [], ◌∷◌, All, length, arith,
  Bool-cases, same_text, eq_of_same_text, same_text_refl,
}
use presto_build.Build.Cycles.{IsDep, Reach, here, down}
use presto_build.Build.Engine.{
  BuildCalls, Resumed, raised, dead, yielded, Engine, Start, running_jobs, after_begin, start,
}
use presto_build.Build.Update.{remove}
use presto_build.Build.Target.{Targets}
use presto_build.Build.Frames.{start-Started}
use presto_build.Build.Once.{Distinct}
use presto_build.Build.Steps.{Touch, wrote, broke, launched, Builds, at_first, onward}
use presto_build.Build.Tally.{running_jobs-add}
use presto_build.Build.Tires.{work}

pub remove-other :
    (name g : List ℕ) (gs : List (List ℕ)) → g ≢ name → Memᴰ g gs → Memᴰ g (remove name gs)
remove-other name g [] ne m = m
remove-other name g (x ∷ gs) ne m = elim (Bool-cases (same_text x name)) [
  | inl e ↦ rw e (elim (Memᴰ.cases_cons m) [
    | inl same ↦ absurd (ne (same ∙ eq_of_same_text x name e))
    | inr more ↦ remove-other name g gs ne more
  ])
  | inr e ↦ rw e (elim (Memᴰ.cases_cons m) [
    | inl same ↦ Memᴰ.head same
    | inr more ↦ Memᴰ.tail (remove-other name g gs ne more)
  ])
]

pub length-remove_le : (name : List ℕ) (gs : List (List ℕ)) → length (remove name gs) ≤ length gs
length-remove_le name [] = omega arith
length-remove_le name (x ∷ gs) =
    let le = length-remove_le name gs in
    elim (Bool-cases (same_text x name)) [
      | inl e ↦ rw e (omega (arith, le))
      | inr e ↦ rw e (omega (arith, le))
    ]

-- A name that is there is taken off.
pub length-remove :
    (name : List ℕ) (gs : List (List ℕ)) → Memᴰ name gs → length (remove name gs) < length gs
length-remove name [] m = absurd (Memᴰ.not-nil m)
length-remove name (x ∷ gs) m =
    let le = length-remove_le name gs in
    elim (Bool-cases (same_text x name)) [
      | inl e ↦ rw e (omega (arith, le))
      | inr e ↦ rw e (elim (Memᴰ.cases_cons m) [
        | inl same ↦ absurd (cc (same_text_refl name, ap (λ v. same_text v name) same, e))
        | inr more ↦ let less = length-remove name gs more in omega (arith, less)
      ])
    ]

-- The targets of these starts are among the names.
abbrev pub AreAmong : List (List ℕ) → List Start → Type 0
AreAmong names = All (λ s. Memᴰ s.target names)

-- No more targets are started than there are names, where none is started twice.
pub length-Distinct :
    (names : List (List ℕ)) (starts : List Start)
    → Distinct starts
    → AreAmong names starts
    → length starts ≤ length names
length-Distinct names [] once among = omega arith
length-Distinct names (s ∷ starts) (new, once) (mem, among) =
    let less = length-remove s.target names mem in
    let le = length-Distinct (remove s.target names) starts once (others starts new among) in
    omega (arith, less, le)
  where
    others :
        (starts : List Start)
        → All (λ r. r.target ≢ s.target) starts
        → AreAmong names starts
        → AreAmong (remove s.target names) starts
    others [] apart all = tt
    others (r ∷ starts) (ne, apart) (m, all) =
        (remove-other s.target r.target names ne m, others starts apart all)

-- Names that have the dependencies of each among them.
abbrev pub IsClosed : Targets → List (List ℕ) → Type 0
IsClosed ts names = (n d : List ℕ) → Memᴰ n names → IsDep ts d n → Memᴰ d names

pub reach_among :
    (ts : Targets) (names : List (List ℕ))
    → IsClosed ts names
    → (n self : List ℕ) → Memᴰ self names
    → Reach ts n self
    → Memᴰ n names
reach_among ts names closed n self m here = m
reach_among ts names closed n self m (down {d = d} dep r) =
    reach_among ts names closed n d (closed self d m dep) r

module _ (calls : BuildCalls) (spare : calls.World → ℕ)
    (begins : (name : List ℕ) (id : ℕ) (w : calls.World)
      → spare (calls.begin name id w).1 ≤ spare w) where
  open calls use {World, begin}

  -- From `x` to `y` commands were started; each adds a job at most.
  abbrev pub Spends : Engine World → Engine World → Type 0
  Spends x y =
      (length x.started ≤ length y.started)
      × (work calls spare y + length x.started ≤ work calls spare x + length y.started)
      × (running_jobs x.jobs ≤ running_jobs y.jobs)
      × (running_jobs y.jobs + length x.started ≤ running_jobs x.jobs + length y.started)

  pub Spends-trans : (x y z : Engine World) → Spends x y → Spends y z → Spends x z
  Spends-trans x y z (a, b, c, d) (a', b', c', d') =
      (omega (arith, a, a'), omega (arith, b, b'), omega (arith, c, c'), omega (arith, d, d'))

  pub Spends-refl : (x : Engine World) → Spends x x
  Spends-refl x = (omega arith, omega arith, omega arith, omega arith)

  start-Spends : (name : List ℕ) (x : Engine World) → Spends x (start calls name x).1
  unfolding start after_begin
  start-Spends name x =
      let (back, world) = begin name (x.pos + 1) x.world in
      go back world _ (begins name (x.pos + 1) x.world)
    where
      go :
          (back : Resumed) (world : World) (first : Start)
          → spare world ≤ spare x.world
          → Spends x
              (after_begin name back
                (record x { pos = x.pos + 1; world = world; started = first ∷ x.started })).1
      go (raised printed) world first le =
          (omega arith, omega (arith, le), omega arith, omega arith)
      go dead world first le = (omega arith, omega (arith, le), omega arith, omega arith)
      go (yielded handle) world first le =
          let more = running_jobs-add x.jobs (record { id = x.pos + 1; target = name }) in
          (omega arith, omega (arith, le, more), omega (arith, more), omega (arith, more))

  module _ (P : List ℕ → Type 0) where
    Touch-Spends : {x y : Engine World} → Touch calls P x y → Spends x y
    Touch-Spends {x} (wrote name f note) = Spends-refl x
    Touch-Spends {x} (broke name p same) = Spends-refl x
    Touch-Spends {x} (launched name p same command ask) = start-Spends name x

    pub Builds-Spends : {x y : Engine World} → Builds calls P x y → Spends x y
    Builds-Spends {x} at_first = Spends-refl x
    Builds-Spends {x} (onward {x = y} {y = z} steps step) =
        Spends-trans x y z (Builds-Spends steps) (Touch-Spends step)

    -- Only targets of the names are started.
    module _ (names : List (List ℕ)) (inside : (n : List ℕ) → P n → Memᴰ n names) where
      Touch-among :
          {x y : Engine World}
          → Touch calls P x y
          → AreAmong names x.started
          → AreAmong names y.started
      Touch-among (wrote name f note) among = among
      Touch-among (broke name p same) among = among
      Touch-among {x} (launched name p same command ask) among =
          let s = start-Started calls name x in
          subst (AreAmong names) (sym s.same_started)
            (subst (λ n. Memᴰ n names) (sym s.first_target) (inside name p), among)

      pub Builds-among :
          {x y : Engine World}
          → Builds calls P x y
          → AreAmong names x.started
          → AreAmong names y.started
      Builds-among at_first among = among
      Builds-among (onward steps step) among = Touch-among step (Builds-among steps among)
