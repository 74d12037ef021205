-- ===== src/Build/Halts.antt =====
-- lua/mkinit.lua, `make.update_goals_p` without keep_going: proofs that the main loop comes back.
use mathlib.Core.List.{Memᴰ}
use presto_build.Base.{
  Bool-cases, ℕ, zero, suc, ◌+◌, ◌<◌, ◌≤◌, ◌≡◌, ◌⊎◌, inl, inr, refl, sym, ap, subst, leb, ltb, ◌==◌,
  List, [], ◌∷◌, Bool, true, false, ◌&&◌, ◌||◌, length, if◌then◌else◌, arith,
}
use presto_build.Build.Engine.{BuildCalls, Engine, running_jobs}
use presto_build.Build.Update.{bring_up_to_date}
use presto_build.Build.Jobs.{Went, goes, stops, runs_out, and_then, make_exit, dispatch}
use presto_build.Build.Goals.{visit_goals, none_visited, should_dispatch, main_loop}
use presto_build.Build.Busy.{Steps-IsBusy}
use presto_build.Build.Runs.{Anywhere}
use presto_build.Build.Lessens.{Shrinks-refl, Shrunk, dispatch-Shrunk}
use presto_build.Build.Tires.{work, IsDispatched}
use presto_build.Build.Returns.{dispatch-IsDispatched}
use presto_build.Build.Finishes.{Unique, OnWay, visit_goals-OnWay, dispatch-OnWay}
use presto_build.Build.Lessens.{make_exit-Never}
use presto_build.Build.Spends.{AreAmong, Spends}
use presto_build.Build.Tours.{visit_goals-IsTurn}
use presto_build.Build.Turns.{Run, IsFine, IsTurn, HasProgress, started_le, bounded_later}

-- The run comes back: with a value, or with an error.
abbrev pub ComesBack : {W A : Type 0} → Went W A → Type 0
ComesBack (goes a e) = Unit
ComesBack (stops e) = Unit
ComesBack (runs_out e) = ⊥

pub and_then-ComesBack :
    {W A B : Type 0} (w : Went W A) (f : A → Engine W → Went W B)
    → ComesBack w
    → ((a : A) (y : Engine W) → ComesBack (f a y))
    → ComesBack (and_then w f)
and_then-ComesBack (goes a y) f back more = more a y
and_then-ComesBack (stops y) f back more = tt
and_then-ComesBack (runs_out y) f absent more = absent

split_le : (m n : ℕ) → m ≤ n → (m < n) ⊎ (m ≡ n)
split_le m n le = elim (Bool-cases (ltb m n)) [
  | inl e ↦ inl (ground (arith, e))
  | inr e ↦ inr (ground (arith, e, le))
]

module _ (calls : BuildCalls) (run : Run calls) where
  open calls use {World}
  open run use {spare, tired, begins, begun, wf, busy, once, names, closed, limit, enough}

  abbrev Fine : Engine World → Type 0
  Fine = IsFine calls run

  -- A dispatch, after which there is no more work than before, and less if a job ran.
  abbrev HasServed : Engine World → Went World Unit → Type 0
  HasServed y (goes u z) =
      Fine z
      × (length z.started ≡ length y.started)
      × (length z.goals ≡ length y.goals)
      × (work calls spare z ≤ work calls spare y)
      × ((y.count ≡ 0) ⊎ (work calls spare z < work calls spare y))
  HasServed y (stops z) = Unit
  HasServed y (runs_out z) = ⊥

  small : (y : Engine World) → Fine y → work calls spare y < limit
  small y fine =
      let le = started_le calls run y fine.way.reached fine.among in
      let lt = fine.bounded in omega (arith, le, lt)

  dispatch-HasServed : (y : Engine World) → Fine y → HasServed y (dispatch calls limit y)
  dispatch-HasServed y fine =
      let busy' = Steps-IsBusy calls Anywhere fine.way.reached busy in
      go (dispatch calls limit y) (dispatch-OnWay calls begun wf busy limit y fine.way)
        (dispatch-IsDispatched calls spare tired y busy'.tally limit (small y fine))
        (dispatch-Shrunk calls y fine.way.going limit y (Shrinks-refl y) busy')
    where
      go :
          (w : Went World Unit)
          → OnWay calls begun wf busy w
          → IsDispatched calls spare y w
          → Shrunk calls y fine.way.going w
          → HasServed y w
      go (stops z) way served s = tt
      go (runs_out z) way absent s = absent
      go (goes u z) way (t, le, less) (s, busy') =
          let starts : length z.started ≡ length y.started = ap length s.same_started in
          let goals : length z.goals ≡ length y.goals = ap length s.same_goals in
          let bound = fine.bounded in
          (
            record {
              way = way;
              among = subst (AreAmong names) (sym s.same_started) fine.among;
              asks = λ g m. fine.asks g (subst (Memᴰ g) s.same_goals m);
              bounded = omega (arith, starts, le, bound);
            },
            starts,
            goals,
            le,
            less,
          )

  -- What the run may still take.
  abbrev IsFuel : ℕ → Engine World → Type 0
  IsFuel fuel x =
      length x.goals + work calls spare x + (length names + length names)
      < fuel + (length x.started + length x.started)

  served :
      (x y z : Engine World)
      → Spends calls spare begins x y
      → length y.goals ≤ length x.goals
      → HasProgress calls run x y
      → running_jobs y.jobs ≡ y.count
      → length z.started ≡ length y.started
      → length z.goals ≡ length y.goals
      → work calls spare z ≤ work calls spare y
      → (y.count ≡ 0) ⊎ (work calls spare z < work calls spare y)
      → (fuel : ℕ) → IsFuel (suc fuel) x
      → IsFuel fuel z
  served x y z (a, b, c, d) le more counted starts goals less (inr fewer) fuel lt =
      omega (arith, a, b, le, starts, goals, fewer, lt)
  served x y z (a, b, c, d) le (inl done) counted starts goals less (inl idle) fuel lt =
      omega (arith, a, b, done, starts, goals, less, lt)
  served x y z (a, b, c, d) le (inr runs) counted starts goals less (inl idle) fuel lt =
      absurd (omega (arith, runs, counted, idle))

  -- No dispatch, so that a goal is done or a command was started.
  not_served :
      (x y : Engine World)
      → Spends calls spare begins x y
      → length y.goals ≤ length x.goals
      → HasProgress calls run x y
      → running_jobs x.jobs ≡ x.count
      → running_jobs y.jobs ≡ y.count
      → should_dispatch x.count y ≡ false
      → (fuel : ℕ) → IsFuel (suc fuel) x
      → IsFuel fuel y
  not_served x y (a, b, c, d) le (inl done) counted counted' off fuel lt =
      omega (arith, a, b, done, lt)
  not_served x y (a, b, c, d) le (inr runs) counted counted' off fuel lt =
      elim (split_le (length x.started) (length y.started) a) [
        | inl less ↦ omega (arith, less, b, le, lt)
        | inr same ↦ absurd (
            ran x.count y.count (leb y.slots y.count) (omega (arith, counted', runs))
              (omega (arith, same, c, d, counted, counted')) off)
      ]
    where
      ran :
          (before now : ℕ) (full : Bool)
          → 0 < now
          → now ≡ before
          → (ltb 0 now && (now == before || full)) ≡ false
          → ⊥
      ran before now full lt same off = ground (arith, lt, same, off)

  pub main_loop-ComesBack :
      (fuel : ℕ) (x : Engine World)
      → Fine x
      → IsFuel fuel x
      → ComesBack (main_loop calls limit fuel x)
  unfolding main_loop visit_goals
  main_loop-ComesBack zero x fine lt =
      let le = started_le calls run x fine.way.reached fine.among in absurd (omega (arith, le, lt))
  main_loop-ComesBack (suc fuel) x fine lt = go x.goals refl (main_loop-ComesBack fuel)
    where
      exit : Engine World → Went World Unit
      exit = make_exit calls (dispatch calls limit) limit

      counted : (y : Engine World) → Fine y → running_jobs y.jobs ≡ y.count
      counted y fine' = (Steps-IsBusy calls Anywhere fine'.way.reached busy).tally.counted

      back : (y : Engine World) (w : Went World Unit) → HasServed y w → ComesBack w
      back y (goes u z) h = tt
      back y (stops z) h = tt
      back y (runs_out z) absent = absent

      no_goals :
          (b : Bool)
          → ComesBack
              (and_then (if b then dispatch calls limit x else goes tt x) (λ u z. goes tt z))
      no_goals true =
          and_then-ComesBack (dispatch calls limit x) (λ u z. goes tt z)
            (back x (dispatch calls limit x) (dispatch-HasServed x fine)) (λ u z. tt)
      no_goals false = tt

      turn :
          (w : Went World Unit)
          → OnWay calls begun wf busy w
          → IsTurn calls run (HasProgress calls run x) x w
          → ((z : Engine World) → Fine z → IsFuel fuel z → ComesBack (main_loop calls limit fuel z))
          → ComesBack (
              and_then w (λ u y.
                and_then
                  (if should_dispatch x.count y then dispatch calls limit y else goes tt y)
                  (λ u z. main_loop calls limit fuel z)))
      turn (stops y) way t more = tt
      turn (runs_out y) way absent more = absent
      turn (goes u y) way (among, asks, spent, le, progress) more =
          branch (should_dispatch x.count y) refl
        where
          y_fine : Fine y
          y_fine = record {
            way = way;
            among = among;
            asks = asks;
            bounded = bounded_later calls run x y fine.bounded spent;
          }

          after :
              (w : Went World Unit)
              → HasServed y w
              → ComesBack (and_then w (λ u z. main_loop calls limit fuel z))
          after (stops z) h = tt
          after (runs_out z) absent = absent
          after (goes u z) (z_fine, starts, goals, less, fewer) =
              more z z_fine
                (served x y z spent le progress (counted y y_fine) starts goals less fewer fuel lt)

          branch :
              (b : Bool)
              → should_dispatch x.count y ≡ b
              → ComesBack (
                  and_then
                    (if b then dispatch calls limit y else goes tt y)
                    (λ u z. main_loop calls limit fuel z))
          branch true on = after (dispatch calls limit y) (dispatch-HasServed y y_fine)
          branch false off =
              more y y_fine
                (not_served x y spent le progress (counted x fine) (counted y y_fine) off fuel lt)

      go :
          (gs : List (List ℕ))
          → x.goals ≡ gs
          → ((z : Engine World) → Fine z → IsFuel fuel z → ComesBack (main_loop calls limit fuel z))
          → ComesBack (
              and_then (visit_goals exit (bring_up_to_date calls limit) gs x) (λ u y.
                and_then
                  (if should_dispatch x.count y then dispatch calls limit y else goes tt y)
                  (λ u z. if none_visited gs then goes tt z else main_loop calls limit fuel z)))
      go [] same more = no_goals (should_dispatch x.count x)
      go (g ∷ gs) same more =
          let unique = subst Unique same fine.way.unique in
          turn (visit_goals exit (bring_up_to_date calls limit) (g ∷ gs) x)
            (visit_goals-OnWay calls begun wf busy exit limit (g ∷ gs)
              (make_exit-Never calls (dispatch calls limit) limit) unique x fine.way
              (λ v. subst (Memᴰ v) (sym same)))
            (visit_goals-IsTurn calls run (g ∷ gs) unique x fine (λ v. subst (Memᴰ v) (sym same)))
            more
