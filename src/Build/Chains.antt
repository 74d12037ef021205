-- ===== src/Build/Chains.antt =====
-- lua/mkinit.lua, `make.update_goals_p`: proofs that a run is made of steps, and on what it starts.
use presto_build.Build.Depends.{has}
use presto_build.Base.{
  if_cases, ℕ, zero, suc, ◌≡◌, leb, Option, none, some, List, [], ◌∷◌, Bool, true, false,
  if◌then◌else◌, subst, sym, All,
}
use presto_build.Build.Target.{has_backslash, unchanged, updated, running, error}
use presto_build.Build.Cycles.{Acyclic}
use presto_build.Build.Engine.{BuildCalls, Engine, Reply, gives, throws, unfinished}
use presto_build.Build.Update.{remove, bring_up_to_date}
use presto_build.Build.Jobs.{Went, goes, stops, and_then, make_exit, dispatch}
use presto_build.Build.Goals.{
  settle, after_goal, visit_goal, visit_goals, none_visited, should_dispatch, main_loop, report,
  update_goals_p, end_state,
}
use presto_build.Build.Busy.{IsBusy, Steps-IsBusy}
use presto_build.Build.Steps.{asked, Steps, stay, later, Steps-wider}
use presto_build.Build.Frames.{Steps-Grows}
use presto_build.Build.Within.{Within}
use presto_build.Build.Refines.{bring_up_to_date-Steps}
use presto_build.Build.Once.{Distinct, IsOnce, Steps-IsOnce}
use presto_build.Build.Runs.{
  Anywhere, Reached, RanTo, Keeps, and_then-RanTo, make_exit-RanTo, dispatch-RanTo,
}

module _ (calls : BuildCalls) (begun : Engine calls.World) (wf : Acyclic begun.targets)
    (busy : IsBusy begun) where
  open calls use {World}

  -- The end of a goal.
  after_failure :
      (exit : Engine World → Went World Unit) (goal : List ℕ)
      → Keeps calls begun wf busy exit
      → Keeps calls begun wf busy (λ x. and_then (exit x) (λ u y. goes tt (settle goal y)))
  after_failure exit goal keeps x r =
      and_then-RanTo calls begun wf busy (exit x) (λ u y. goes tt (settle goal y)) (keeps x r)
        (λ u y s. later s (asked (remove goal y.goals)))

  after_goal-RanTo :
      (exit : Engine World → Went World Unit) (goal : List ℕ) (reply : Reply)
      → Keeps calls begun wf busy exit
      → (x : Engine World) → Reached calls begun wf busy x
      → RanTo calls begun wf busy (after_goal exit goal (reply, x))
  unfolding after_goal
  after_goal-RanTo exit goal (gives unchanged) keeps x r = later r (asked (remove goal x.goals))
  after_goal-RanTo exit goal (gives updated) keeps x r = later r (asked (remove goal x.goals))
  after_goal-RanTo exit goal (gives running) keeps x r = r
  after_goal-RanTo exit goal (gives error) keeps x r =
      if_cases (RanTo calls begun wf busy) (has x.unprintable goal) (stops x) _ r
        (after_failure exit goal keeps x r)
  after_goal-RanTo exit goal (throws t) keeps x r = after_failure exit goal keeps x r
  after_goal-RanTo exit goal unfinished keeps x r = r

  brought :
      (fuel : ℕ) (goal : List ℕ) (x : Engine World)
      → Reached calls begun wf busy x
      → Reached calls begun wf busy (bring_up_to_date calls fuel goal x).1
  brought fuel goal x r =
      Steps-wider calls (Within begun.targets goal) Anywhere (λ n w. tt) r
        (bring_up_to_date-Steps calls begun.targets wf fuel goal x (Steps-Grows calls Anywhere r))

  visit_goals-RanTo :
      (exit : Engine World → Went World Unit) (fuel : ℕ) (goals : List (List ℕ))
      → Keeps calls begun wf busy exit
      → Keeps calls begun wf busy (visit_goals exit (bring_up_to_date calls fuel) goals)
  unfolding visit_goals
  visit_goals-RanTo exit fuel [] keeps x r = r
  visit_goals-RanTo exit fuel (goal ∷ goals) keeps x r =
      let (reply, y) = bring_up_to_date calls fuel goal x in
      and_then-RanTo calls begun wf busy (visit_goal exit (bring_up_to_date calls fuel) goal x)
        (λ u y.
          if leb y.slots y.count
          then goes tt y
          else visit_goals exit (bring_up_to_date calls fuel) goals y)
        (if_cases (RanTo calls begun wf busy) (has_backslash goal) (stops x)
          (after_goal exit goal (reply, y)) r
          (after_goal-RanTo exit goal reply keeps y (brought fuel goal x r)))
        (λ u y s. go y s (leb y.slots y.count) (visit_goals-RanTo exit fuel goals keeps))
    where
      go :
          (y : Engine World)
          → Reached calls begun wf busy y
          → (full : Bool)
          → Keeps calls begun wf busy (visit_goals exit (bring_up_to_date calls fuel) goals)
          → RanTo calls begun wf busy
              (if full then goes tt y else visit_goals exit (bring_up_to_date calls fuel) goals y)
      go y s true more = s
      go y s false more = more y s

  main_loop-RanTo : (limit fuel : ℕ) → Keeps calls begun wf busy (main_loop calls limit fuel)
  unfolding main_loop
  main_loop-RanTo limit zero x r = r
  main_loop-RanTo limit (suc fuel) x r =
      and_then-RanTo calls begun wf busy
        (visit_goals (make_exit calls (dispatch calls limit) limit) (bring_up_to_date calls limit)
          x.goals x)
        _
        (visit_goals-RanTo (make_exit calls (dispatch calls limit) limit) limit x.goals
          (make_exit-RanTo calls begun wf busy (dispatch calls limit) limit
            (dispatch-RanTo calls begun wf busy limit))
          x r)
        (λ u y s.
          and_then-RanTo calls begun wf busy
            (if should_dispatch x.count y then dispatch calls limit y else goes tt y) _
            (dispatched (should_dispatch x.count y) y s)
            (λ u' z t. go (none_visited x.goals) z t (main_loop-RanTo limit fuel)))
    where
      dispatched :
          (b : Bool) (y : Engine World)
          → Reached calls begun wf busy y
          → RanTo calls begun wf busy (if b then dispatch calls limit y else goes tt y)
      dispatched true y s = dispatch-RanTo calls begun wf busy limit y s
      dispatched false y s = s

      go :
          (b : Bool) (z : Engine World)
          → Reached calls begun wf busy z
          → Keeps calls begun wf busy (main_loop calls limit fuel)
          → RanTo calls begun wf busy (if b then goes tt z else main_loop calls limit fuel z)
      go true z t more = t
      go false z t more = more z t

  report-RanTo : Keeps calls begun wf busy (report calls)
  report-RanTo x r = go x.failure
    where
      go : (b : Bool) → RanTo calls begun wf busy (if b then stops x else goes tt x)
      go true = r
      go false = r

-- Each run of `make.update_goals_p` on targets without a cycle, from a state whose running jobs match the
-- statuses, is a sequence of steps, with any fuel and whatever the disk and the commands do: the status of a
-- target is set only where it was `none` and the target fails or is started, or where a running job of the
-- target ends, which makes it `updated` or `error`; a target is started only where it has a command and the
-- flag question is not set; dependencies are only taken off.
pub update_goals_p-Steps :
    (calls : BuildCalls) (fuel : ℕ) (default : Option (List ℕ)) (e : Engine calls.World)
    → Acyclic e.targets
    → IsBusy e
    → Steps calls Anywhere e (end_state (update_goals_p calls fuel default e))
unfolding update_goals_p
update_goals_p-Steps calls fuel default e wf busy = go e.goals default
  where
    run :
        (x : Engine calls.World)
        → Reached calls e wf busy x
        → RanTo calls e wf busy (and_then (main_loop calls fuel fuel x) (λ u. report calls))
    run x r =
        and_then-RanTo calls e wf busy (main_loop calls fuel fuel x) (λ u. report calls)
          (main_loop-RanTo calls e wf busy fuel fuel x r) (λ u. report-RanTo calls e wf busy)

    go :
        (goals : List (List ℕ)) (given : Option (List ℕ))
        → RanTo calls e wf busy (elim goals [
          | [] ↦ elim given [
            | none ↦ stops e
            | some name ↦
                and_then
                  (main_loop calls fuel fuel (record e { goals = name ∷ [] }))
                  (λ u. report calls)
          ]
          | goal ∷ goals ↦ and_then (main_loop calls fuel fuel e) (λ u. report calls)
        ])
    go [] none = stay
    go [] (some name) = run (record e { goals = name ∷ [] }) (later stay (asked (name ∷ [])))
    go (goal ∷ goals) given = run e stay

-- A run of `make.update_goals_p` on targets without a cycle, from a state whose running jobs match the
-- statuses and in which nothing was started, starts no target twice: so it is with any fuel, whatever the
-- disk and the commands do, and where the run fails.
pub update_goals_p-Distinct :
    (calls : BuildCalls) (fuel : ℕ) (default : Option (List ℕ)) (e : Engine calls.World)
    → Acyclic e.targets
    → IsBusy e
    → e.started ≡ []
    → Distinct (end_state (update_goals_p calls fuel default e)).started
update_goals_p-Distinct calls fuel default e wf busy nothing =
    let once : IsOnce e = record {
      distinct = subst Distinct (sym nothing) tt;
      settled = subst (All _) (sym nothing) tt;
    } in
    (Steps-IsOnce calls Anywhere (update_goals_p-Steps calls fuel default e wf busy) once).distinct

-- A run of `make.update_goals_p` on targets without a cycle, with any fuel and whatever the disk and the
-- commands do, keeps the running jobs and the statuses matched, also where it fails: a target has the status
-- `running` exactly when a job of it runs, no target has two running jobs, and `make.jobs.count` is their
-- number.
pub update_goals_p-IsBusy :
    (calls : BuildCalls) (fuel : ℕ) (default : Option (List ℕ)) (e : Engine calls.World)
    → Acyclic e.targets
    → IsBusy e
    → IsBusy (end_state (update_goals_p calls fuel default e))
update_goals_p-IsBusy calls fuel default e wf busy =
    Steps-IsBusy calls Anywhere (update_goals_p-Steps calls fuel default e wf busy) busy
