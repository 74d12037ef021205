-- ===== src/Build/Successes.antt =====
-- lua/mkinit.lua, `make.update_goals_p` without keep_going: proofs on what a run that comes back leaves.
use mathlib.Core.List.{Memᴰ}
use mathlib.Core.List.Memᴰ
use presto_build.Base.{
  ℕ, zero, suc, ◌≡◌, ◌≢◌, inl, refl, sym, ap, ◌∙◌, subst, leb, ltb, ◌==◌, Option, none, some, List,
  [], ◌∷◌, Bool, true, false, ◌&&◌, ◌||◌, if◌then◌else◌, All, arith,
}
use presto_build.Build.Target.{Status, unchanged, updated, running, error}
use presto_build.Build.Cycles.{Acyclic}
use presto_build.Build.Engine.{BuildCalls, Job, Start, running_jobs, Engine, target_status}
use presto_build.Build.Update.{bring_up_to_date}
use presto_build.Build.Jobs.{Went, goes, stops, runs_out, and_then, make_exit, dispatch}
use presto_build.Build.Goals.{
  visit_goals, none_visited, should_dispatch, main_loop, report, update_goals_p,
}
use presto_build.Build.Steps.{is_settled}
use presto_build.Build.Matches.{HasJob}
use presto_build.Build.Busy.{IsBusy, Steps-IsBusy}
use presto_build.Build.Once.{IsOnce, Steps-IsOnce}
use presto_build.Build.Runs.{Anywhere}
use presto_build.Build.Waits.{status_in}
use presto_build.Build.Lessens.{make_exit-Never}
use presto_build.Build.Fresh.{fresh-IsBusy, fresh-IsOnce, fresh-IsOnWay}
use presto_build.Build.Finishes.{Unique, IsOnWay, OnWay, visit_goals-OnWay, dispatch-OnWay}

-- A run from `start`, whose targets have no cycle.
module _ (calls : BuildCalls) (begun : Engine calls.World) (wf : Acyclic begun.targets)
    (busy : IsBusy begun) where
  open calls use {World}

  -- No goal is left.
  abbrev AtEnd : Went World Unit → Type 0
  AtEnd (goes u x) = IsOnWay calls begun wf busy x × (x.goals ≡ [])
  AtEnd (stops x) = Unit
  AtEnd (runs_out x) = Unit

  and_then-AtEnd :
      {A : Type 0} (w : Went World A) (f : A → Engine World → Went World Unit)
      → OnWay calls begun wf busy w
      → ((a : A) (x : Engine World) → IsOnWay calls begun wf busy x → AtEnd (f a x))
      → AtEnd (and_then w f)
  and_then-AtEnd (goes a x) f way keeps = keeps a x way
  and_then-AtEnd (stops x) f way keeps = tt
  and_then-AtEnd (runs_out x) f way keeps = tt

  IsOnWay-IsBusy : (x : Engine World) → IsOnWay calls begun wf busy x → IsBusy x
  IsOnWay-IsBusy x way = Steps-IsBusy calls Anywhere way.reached busy

  none_runs :
      (x : Engine World)
      → IsOnWay calls begun wf busy x
      → x.goals ≡ []
      → (n : List ℕ) → status_in x.targets n ≢ running
  none_runs x way empty n h =
      let (g, its, below) = way.waited n h in Memᴰ.not-nil (subst (Memᴰ g) empty its)

  no_jobs :
      (x : Engine World)
      → IsOnWay calls begun wf busy x
      → x.goals ≡ []
      → (x.jobs ≡ []) × (x.count ≡ 0)
  no_jobs x way empty =
      let none : x.jobs ≡ [] =
        go x.jobs (λ n has. none_runs x way empty n (((IsOnWay-IsBusy x way).matches n).1 has)) in
      (none, sym (IsOnWay-IsBusy x way).tally.counted ∙ ap running_jobs none)
    where
      go : (js : List Job) → ((n : List ℕ) → HasJob js n → ⊥) → js ≡ []
      go [] empty_handed = refl
      go (job ∷ js) empty_handed = absurd (empty_handed job.target (inl refl))

  main_loop-AtEnd :
      (limit fuel : ℕ) (x : Engine World)
      → IsOnWay calls begun wf busy x
      → AtEnd (main_loop calls limit fuel x)
  unfolding main_loop visit_goals
  main_loop-AtEnd limit zero x way = tt
  main_loop-AtEnd limit (suc fuel) x way = go x.goals refl (main_loop-AtEnd limit fuel)
    where
      exit : Engine World → Went World Unit
      exit = make_exit calls (dispatch calls limit) limit

      quiet : (b : Bool) (n : ℕ) → n ≡ 0 → (ltb 0 n && b) ≡ false
      quiet b n h = ground arith

      idle :
          (b : Bool)
          → b ≡ false
          → x.goals ≡ []
          → AtEnd (and_then (if b then dispatch calls limit x else goes tt x) (λ u z. goes tt z))
      idle true e empty = cc
      idle false e empty = (way, empty)

      dispatched :
          (b : Bool) (y : Engine World)
          → IsOnWay calls begun wf busy y
          → OnWay calls begun wf busy (if b then dispatch calls limit y else goes tt y)
      dispatched true y way' = dispatch-OnWay calls begun wf busy limit y way'
      dispatched false y way' = way'

      go :
          (gs : List (List ℕ))
          → x.goals ≡ gs
          → ((y : Engine World)
              → IsOnWay calls begun wf busy y
              → AtEnd (main_loop calls limit fuel y))
          → AtEnd (
              and_then (visit_goals exit (bring_up_to_date calls limit) gs x) (λ u y.
                and_then
                  (if should_dispatch x.count y then dispatch calls limit y else goes tt y)
                  (λ u z. if none_visited gs then goes tt z else main_loop calls limit fuel z)))
      go [] empty more =
          idle (should_dispatch x.count x)
            (quiet (x.count == x.count || leb x.slots x.count) x.count (no_jobs x way empty).1)
            empty
      go (g ∷ gs) same more =
          and_then-AtEnd (visit_goals exit (bring_up_to_date calls limit) (g ∷ gs) x) _
            (visit_goals-OnWay calls begun wf busy exit limit (g ∷ gs)
              (make_exit-Never calls (dispatch calls limit) limit) (subst Unique same way.unique) x
              way (λ v. subst (Memᴰ v) (sym same)))
            (λ u y way'.
              and_then-AtEnd
                (if should_dispatch x.count y then dispatch calls limit y else goes tt y) _
                (dispatched (should_dispatch x.count y) y way') (λ u' z. more z))

  report-AtEnd :
      (x : Engine World) → IsOnWay calls begun wf busy x → x.goals ≡ [] → AtEnd (report calls x)
  report-AtEnd x way empty = go x.failure
    where
      go : (b : Bool) → AtEnd (if b then stops x else goes tt x)
      go true = tt
      go false = (way, empty)

  run-AtEnd :
      (fuel : ℕ) (x : Engine World)
      → IsOnWay calls begun wf busy x
      → AtEnd (and_then (main_loop calls fuel fuel x) (λ u. report calls))
  run-AtEnd fuel x way = go (main_loop calls fuel fuel x) (main_loop-AtEnd fuel fuel x way)
    where
      go : (w : Went World Unit) → AtEnd w → AtEnd (and_then w (λ u. report calls))
      go (goes u y) (way', empty) = report-AtEnd y way' empty
      go (stops y) fine = tt
      go (runs_out y) fine = tt

  update_goals_p-AtEnd :
      (fuel : ℕ) (default : Option (List ℕ))
      → begun.flags.keep_going ≡ false
      → Unique begun.goals
      → ((n : List ℕ) → target_status begun n ≡ unchanged)
      → AtEnd (update_goals_p calls fuel default begun)
  unfolding update_goals_p
  update_goals_p-AtEnd fuel default going unique unset = go begun.goals refl default
    where
      fresh :
          (goals : List (List ℕ))
          → Unique goals
          → IsOnWay calls begun wf busy (record begun { goals = goals })
      fresh = fresh-IsOnWay calls begun wf busy going unset

      go :
          (goals : List (List ℕ))
          → begun.goals ≡ goals
          → (given : Option (List ℕ))
          → AtEnd (elim goals [
            | [] ↦ elim given [
              | none ↦ stops begun
              | some name ↦
                  and_then
                    (main_loop calls fuel fuel (record begun { goals = name ∷ [] }))
                    (λ u. report calls)
            ]
            | goal ∷ goals ↦ and_then (main_loop calls fuel fuel begun) (λ u. report calls)
          ])
      go [] same none = tt
      go [] same (some name) =
          run-AtEnd fuel (record begun { goals = name ∷ [] })
            (fresh (name ∷ []) ((λ m. Memᴰ.not-nil m), tt))
      go (goal ∷ goals) same given = run-AtEnd fuel begun (fresh begun.goals unique)

-- A run of `make.update_goals_p` without keep_going that comes back with a value, from a state in which no
-- status is set, no job runs and nothing was started, and on targets without a cycle: no goal is left, no job
-- runs, and each target that was started is updated, so that no command has failed.
pub update_goals_p-Updated :
    (calls : BuildCalls) (fuel : ℕ) (default : Option (List ℕ)) (e e' : Engine calls.World)
    → Acyclic e.targets
    → e.flags.keep_going ≡ false
    → Unique e.goals
    → ((n : List ℕ) → target_status e n ≡ unchanged)
    → e.jobs ≡ []
    → e.count ≡ 0
    → e.started ≡ []
    → update_goals_p calls fuel default e ≡ goes tt e'
    → (e'.goals ≡ [])
      × (e'.jobs ≡ [])
      × (e'.count ≡ 0)
      × All (λ s. target_status e' s.target ≡ updated) e'.started
update_goals_p-Updated calls fuel default e e' wf going unique unset none_run none_counted nothing
      back =
    let busy : IsBusy e = fresh-IsBusy e unset none_run none_counted in
    let once : IsOnce e = fresh-IsOnce e nothing in
    let (way, empty) =
      subst (AtEnd calls e wf busy) back
        (update_goals_p-AtEnd calls e wf busy fuel default going unique unset) in
    let (jobs, count) = no_jobs calls e wf busy e' way empty in
    let now : IsOnce e' = Steps-IsOnce calls Anywhere way.reached once in
    (
      empty,
      jobs,
      count,
      go e'.started now.settled (none_runs calls e wf busy e' way empty) way.no_error,
    )
  where
    final : (s : Status) → is_settled s ≡ true → s ≢ running → s ≢ error → s ≡ updated
    final unchanged h r x = cc
    final updated h r x = refl
    final running h r x = absurd (r refl)
    final error h r x = absurd (x refl)

    go :
        (starts : List Start)
        → All (λ s. is_settled (target_status e' s.target) ≡ true) starts
        → ((n : List ℕ) → target_status e' n ≢ running)
        → ((n : List ℕ) → target_status e' n ≢ error)
        → All (λ s. target_status e' s.target ≡ updated) starts
    go [] all runs bad = tt
    go (s ∷ starts) (h, all) runs bad =
        (final _ h (runs s.target) (bad s.target), go starts all runs bad)
