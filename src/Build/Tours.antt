-- ===== src/Build/Tours.antt =====
-- lua/mkinit.lua, `make.update_goals_p` without keep_going: proofs that the loop over the goals comes back.
use mathlib.Core.List.{Memᴰ}
use presto_build.Base.{
  if_cases, ℕ, ◌<◌, inl, inr, refl, leb, List, [], ◌∷◌, Bool, true, false, if◌then◌else◌, arith,
}
use presto_build.Build.Target.{has_backslash}
use presto_build.Build.Engine.{BuildCalls, Engine, running_jobs}
use presto_build.Build.Update.{bring_up_to_date}
use presto_build.Build.Jobs.{Went, goes, stops, runs_out, and_then, dispatch}
use presto_build.Build.Goals.{after_goal, visit_goal, visit_goals}
use presto_build.Build.Frames.{Steps-Grows}
use presto_build.Build.Within.{Within}
use presto_build.Build.Steps.{Builds-Steps}
use presto_build.Build.Refines.{bring_up_to_date-Builds}
use presto_build.Build.Runs.{Anywhere}
use presto_build.Build.Settles.{bring_up_to_date-Waited}
use presto_build.Build.Lessens.{make_exit-Never}
use presto_build.Build.Finishes.{Unique, OnWayWith, AllThere, after_goal-OnWay}
use presto_build.Build.Spends.{Spends, Spends-refl, Spends-trans}
use presto_build.Build.Turns.{
  Run, IsFine, IsTurn, HasProgress, exit, bounded_later, after_goal-IsTurn,
}

module _ (calls : BuildCalls) (run : Run calls) where
  open calls use {World}
  open run use {spare, tired, begins, begun, wf, busy, once, names, closed, limit, enough}

  -- What a visit of the goals has done.
  abbrev pub HasVisitedAll : List (List ℕ) → Engine World → Engine World → Type 0
  HasVisitedAll [] x y = Unit
  HasVisitedAll (goal ∷ gs) x y = HasProgress calls run x y

  -- A second part behind the first.
  joined :
      (gs : List (List ℕ)) (x z : Engine World) (w : Went World Unit)
      → IsTurn calls run (HasProgress calls run x) x (goes tt z)
      → IsTurn calls run (HasVisitedAll gs z) z w
      → IsTurn calls run (HasProgress calls run x) x w
  joined gs x z (goes u y) (among, asks, spent, le, more) (among', asks', spent', le', more') = (
    among',
    asks',
    Spends-trans calls spare begins x z y spent spent',
    omega (arith, le, le'),
    elim more [ inl less ↦ inl (omega (arith, less, le')) | inr runs ↦ inr (still spent' runs) ],
  )
    where
      still : Spends calls spare begins z y → 0 < running_jobs z.jobs → 0 < running_jobs y.jobs
      still (a, b, c, d) runs = omega (arith, c, runs)
  joined gs x z (stops y) first second = tt
  joined gs x z (runs_out y) first absent = absent

  pub visit_goals-IsTurn :
      (gs : List (List ℕ))
      → Unique gs
      → (x : Engine World) → IsFine calls run x
      → AllThere calls begun wf busy gs x
      → IsTurn calls run
          (HasVisitedAll gs x)
          x
          (visit_goals (exit calls run) (bring_up_to_date calls limit) gs x)
  unfolding visit_goals
  visit_goals-IsTurn [] u x fine there =
      (fine.among, fine.asks, Spends-refl calls spare begins x, omega arith, tt)
  visit_goals-IsTurn (goal ∷ gs) (new, u) x fine there =
      let (r, y) = bring_up_to_date calls limit goal x in
      let mem = there goal (Memᴰ.head refl) in
      let grows = Steps-Grows calls Anywhere fine.way.reached in
      let builds = bring_up_to_date-Builds calls begun.targets wf limit goal x grows in
      let waited =
        bring_up_to_date-Waited calls begun.targets wf limit goal x grows fine.way.no_error
          fine.way.going in
      go (visit_goal (exit calls run) (bring_up_to_date calls limit) goal x)
        (if_cases (OnWayWith calls begun wf busy gs) (has_backslash goal) (stops x)
          (after_goal (exit calls run) goal (r, y)) tt
          (after_goal-OnWay calls begun wf busy (exit calls run)
            (make_exit-Never calls (dispatch calls limit) limit) goal gs new x fine.way there y
            (Builds-Steps calls (Within begun.targets goal) builds) r waited))
        (if_cases (IsTurn calls run (HasProgress calls run x) x) (has_backslash goal) (stops x)
          (after_goal (exit calls run) goal (r, y)) tt
          (after_goal-IsTurn calls run goal x y r fine mem builds
            (enough goal (fine.asks goal mem) x fine.way) waited))
        (visit_goals-IsTurn gs u)
    where
      go :
          (w : Went World Unit)
          → OnWayWith calls begun wf busy gs w
          → IsTurn calls run (HasProgress calls run x) x w
          → ((z : Engine World)
              → IsFine calls run z
              → AllThere calls begun wf busy gs z
              → IsTurn calls run
                  (HasVisitedAll gs z)
                  z
                  (visit_goals (exit calls run) (bring_up_to_date calls limit) gs z))
          → IsTurn calls run (HasProgress calls run x) x (
              and_then w (λ u z.
                if leb z.slots z.count
                then goes tt z
                else visit_goals (exit calls run) (bring_up_to_date calls limit) gs z))
      go (stops z) fine' turn more = tt
      go (runs_out z) fine' absent more = absent
      go (goes u z) (way, there') turn more = branch (leb z.slots z.count)
        where
          z_fine : IsFine calls run z
          z_fine = record {
            way = way;
            among = turn.0;
            asks = turn.1;
            bounded = bounded_later calls run x z fine.bounded turn.2;
          }

          branch :
              (full : Bool)
              → IsTurn calls run (HasProgress calls run x) x (
                  if full
                  then goes tt z
                  else visit_goals (exit calls run) (bring_up_to_date calls limit) gs z)
          branch true = turn
          branch false = joined gs x z _ turn (more z z_fine there')
