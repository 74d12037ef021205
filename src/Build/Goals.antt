-- ===== src/Build/Goals.antt =====
-- lua/mkinit.lua: `make.update_goals_p`. Goals are visited in the order of the list; the messages that are
-- printed are left out.
use presto_build.Build.Depends.{has}
use presto_build.Base.{
  ℕ, zero, suc, leb, ltb, ◌==◌, Option, none, some, List, [], ◌∷◌, Bool, true, false, ◌&&◌, ◌||◌,
  if◌then◌else◌,
}
use presto_build.Build.Target.{has_backslash, unchanged, updated, running, error}
use presto_build.Build.Engine.{BuildCalls, Engine, Reply, gives, throws, unfinished}
use presto_build.Build.Update.{remove, bring_up_to_date}
use presto_build.Build.Jobs.{Went, goes, stops, runs_out, and_then, make_exit, dispatch}

-- make.goals[goal_name] = nil
abbrev pub settle : {W : Type 0} → List ℕ → Engine W → Engine W
settle goal e = record e { goals = remove goal e.goals }

-- What follows pcall(goal.bring_up_to_date, goal); `exit` is make.exit().
unfoldable pub after_goal :
    {W : Type 0} → (Engine W → Went W Unit) → List ℕ → Reply × Engine W → Went W Unit
after_goal exit goal (gives unchanged, e) = goes tt (settle goal e)
after_goal exit goal (gives updated, e) = goes tt (settle goal e)
after_goal exit goal (gives running, e) = goes tt e
after_goal exit goal (gives error, e) =
    if has e.unprintable goal then stops e else and_then (exit e) (λ u e'. goes tt (settle goal e'))
after_goal exit goal (throws t, e) = and_then (exit e) (λ u e'. goes tt (settle goal e'))
after_goal exit goal (unfinished, e) = runs_out e

-- One goal; target[goal_name], outside of pcall, raises an error for a name with a backslash.
abbrev pub visit_goal :
    {W : Type 0}
    → (Engine W → Went W Unit)
    → (List ℕ → Engine W → Reply × Engine W)
    → List ℕ
    → Engine W
    → Went W Unit
visit_goal exit bring goal e =
    if has_backslash goal then stops e else after_goal exit goal (bring goal e)

-- The loop over the goals; it is left when the job slots are full.
unfoldable pub visit_goals :
    {W : Type 0}
    → (Engine W → Went W Unit)
    → (List ℕ → Engine W → Reply × Engine W)
    → List (List ℕ)
    → Engine W
    → Went W Unit
visit_goals exit bring [] e = goes tt e
visit_goals exit bring (goal ∷ goals) e =
    and_then (visit_goal exit bring goal e)
      (λ u e'. if leb e'.slots e'.count then goes tt e' else visit_goals exit bring goals e')

-- No goal was visited.
abbrev pub none_visited : List (List ℕ) → Bool
none_visited [] = true
none_visited (goal ∷ goals) = false

-- Jobs run, and none was started in this turn or no slot is free.
abbrev pub should_dispatch : {W : Type 0} → ℕ → Engine W → Bool
should_dispatch before e = ltb 0 e.count && (e.count == before || leb e.slots e.count)

module _ (calls : BuildCalls) where
  open calls use {World}

  -- The fuel bounds the depth of dependencies, the turns of each loop and the depth of nested dispatches.
  unfoldable pub main_loop : ℕ → ℕ → Engine World → Went World Unit
  main_loop limit zero e = runs_out e
  main_loop limit (suc fuel) e =
      and_then
        (visit_goals (make_exit calls (dispatch calls limit) limit) (bring_up_to_date calls limit)
          e.goals e)
        (λ u e'.
          and_then (if should_dispatch e.count e' then dispatch calls limit e' else goes tt e')
            (λ u e''. if none_visited e.goals then goes tt e'' else main_loop limit fuel e''))

  -- if make.failure then ... error("Stop.",0)
  abbrev pub report : Engine World → Went World Unit
  report e = if e.failure then stops e else goes tt e

  -- `make.update_goals_p`; the default target is the first that was defined. An error is
  -- "Stop.", but for the two cases of `Went`.
  unfoldable pub update_goals_p : ℕ → Option (List ℕ) → Engine World → Went World Unit
  update_goals_p fuel default e = elim e.goals [
    | [] ↦ elim default [
      | none ↦ stops e
      | some name ↦ and_then (main_loop fuel fuel (record e { goals = name ∷ [] })) (λ u. report)
    ]
    | goal ∷ goals ↦ and_then (main_loop fuel fuel e) (λ u. report)
  ]

-- The state that a run ends in.
abbrev pub end_state : {W A : Type 0} → Went W A → Engine W
end_state (goes a e) = e
end_state (stops e) = e
end_state (runs_out e) = e
