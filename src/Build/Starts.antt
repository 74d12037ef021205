-- ===== src/Build/Starts.antt =====
-- lua/mkinit.lua, `make.update_goals_p`: proofs on the commands that a run starts.
use presto_build.Build.Depends.{has}
use presto_build.Base.{
  if_cases, ℕ, zero, suc, ◌-◌, ◌<◌, ◌≤◌, ◌≡◌, ◌⊎◌, inl, inr, refl, sym, subst, leb, ltb, ◌==◌,
  Option, none, some, List, [], ◌∷◌, Bool, true, false, ◌&&◌, ◌||◌, if◌then◌else◌, All, arith,
}
use presto_build.Build.Target.{has_backslash, unchanged, updated, running, error}
use presto_build.Build.Engine.{BuildCalls, Engine, Reply, gives, throws, unfinished}
use presto_build.Build.Update.{bring_up_to_date}
use presto_build.Build.Jobs.{Went, goes, stops, runs_out, and_then, make_exit, dispatch}
use presto_build.Build.Goals.{
  settle, after_goal, visit_goal, visit_goals, none_visited, should_dispatch, main_loop, report,
  update_goals_p, end_state,
}
use presto_build.Build.Tally.{IsTally}
use presto_build.Build.Safe.{IsRight, IsSafe, IsFine}
use presto_build.Build.Visits.{Brings}
use presto_build.Build.Brings.{bring_up_to_date-Fine}
use presto_build.Build.Rounds.{IsKept, IsQuiet, Quiet, and_then-Kept}
use presto_build.Build.Dispatch.{make_exit-Quiet, dispatch-Frees}

module _ {W : Type 0} (slots : ℕ) (exit : Engine W → Went W Unit) (quiet : Quiet slots exit) where
  settled : (goal : List ℕ) (e : Engine W) → IsSafe slots e → IsSafe slots (settle goal e)
  settled goal e safe = record {
    right = safe.right;
    same_slots = safe.same_slots;
    tally = safe.tally;
  }

  after_failure :
      (goal : List ℕ) (e : Engine W)
      → IsSafe slots e
      → e.count ≤ slots
      → IsKept slots slots (and_then (exit e) (λ u e'. goes tt (settle goal e')))
  after_failure goal e safe le = go (exit e) (quiet e safe)
    where
      go :
          (w : Went W Unit)
          → IsQuiet slots e w
          → IsKept slots slots (and_then w (λ u e'. goes tt (settle goal e')))
      go (goes u e') (safe', le', same) = (settled goal e' safe', omega arith)
      go (stops e') safe' = safe'
      go (runs_out e') safe' = safe'

  after_goal-Kept :
      (goal : List ℕ) (e : Engine W) (out : Reply × Engine W)
      → IsFine slots goal e out.0 out.1
      → IsKept slots slots (after_goal exit goal out)
  unfolding after_goal
  after_goal-Kept goal e (r, e') fine = go r fine.safe at_most
    where
      at_most : e'.count ≤ slots
      at_most = elim fine.room [ inl lt ↦ omega arith | inr (same, le) ↦ le ]

      go :
          (s : Reply)
          → IsSafe slots e'
          → e'.count ≤ slots
          → IsKept slots slots (after_goal exit goal (s, e'))
      go (gives unchanged) safe le = (settled goal e' safe, le)
      go (gives updated) safe le = (settled goal e' safe, le)
      go (gives running) safe le = (safe, le)
      go (gives error) safe le =
          if_cases (IsKept slots slots) (has e'.unprintable goal) (stops e') _ safe
            (after_failure goal e' safe le)
      go (throws t) safe le = after_failure goal e' safe le
      go unfinished safe le = safe

  visit_goals-Kept :
      (bring : List ℕ → Engine W → Reply × Engine W) (goals : List (List ℕ))
      → Brings slots bring
      → (e : Engine W) → IsSafe slots e
      → e.count < slots
      → IsKept slots slots (visit_goals exit bring goals e)
  unfolding visit_goals
  visit_goals-Kept bring [] brings e safe lt = (safe, omega arith)
  visit_goals-Kept bring (goal ∷ goals) brings e safe lt =
      and_then-Kept slots slots slots (visit_goal exit bring goal e)
        (λ u e'. if leb e'.slots e'.count then goes tt e' else visit_goals exit bring goals e')
        (if_cases (IsKept slots slots) (has_backslash goal) (stops e)
          (after_goal exit goal (bring goal e)) safe
          (after_goal-Kept goal e (bring goal e) (brings goal e safe lt)))
        (λ u e' safe' le.
          go e' safe' le (leb e'.slots e'.count)
            (λ h. subst (λ s. e'.count < s) safe'.same_slots (not_full e'.slots e'.count h))
            (visit_goals-Kept bring goals brings e' safe'))
    where
      not_full : (a b : ℕ) → leb a b ≡ false → b < a
      not_full a b h = ground arith

      go :
          (e' : Engine W)
          → IsSafe slots e'
          → e'.count ≤ slots
          → (full : Bool) → (full ≡ false → e'.count < slots)
          → (e'.count < slots → IsKept slots slots (visit_goals exit bring goals e'))
          → IsKept slots slots (if full then goes tt e' else visit_goals exit bring goals e')
      go e' safe' le true less more = (safe', le)
      go e' safe' le false less more = more (less refl)

module _ (calls : BuildCalls) (slots : ℕ) (some_slots : 1 ≤ slots) where
  open calls use {World}

  -- What is left after a turn: a slot is free.
  after_visit :
      (limit before : ℕ) (e : Engine World)
      → IsSafe slots e
      → e.count ≤ slots
      → IsKept slots
          (slots - 1)
          (if should_dispatch before e then dispatch calls limit e else goes tt e)
  after_visit limit before e safe le = go (should_dispatch before e) (λ h.
      subst (λ s. (e.count ≡ 0) ⊎ (e.count < s)) safe.same_slots
        (idle (e.count == before) e.count e.slots h))
    where
      idle : (b : Bool) (n m : ℕ) → (ltb 0 n && (b || leb m n)) ≡ false → (n ≡ 0) ⊎ (n < m)
      idle b n m h = ground arith

      go :
          (b : Bool)
          → (b ≡ false → (e.count ≡ 0) ⊎ (e.count < slots))
          → IsKept slots (slots - 1) (if b then dispatch calls limit e else goes tt e)
      go true room = dispatch-Frees calls slots some_slots limit e safe
      go false room = elim (room refl) [
        | inl none_left ↦ (safe, omega arith)
        | inr lt ↦ (safe, omega arith)
      ]

  main_loop-Kept :
      (limit fuel : ℕ) (e : Engine World)
      → IsSafe slots e
      → e.count < slots
      → IsKept slots (slots - 1) (main_loop calls limit fuel e)
  unfolding main_loop
  main_loop-Kept limit zero e safe lt = safe
  main_loop-Kept limit (suc fuel) e safe lt =
      and_then-Kept slots slots (slots - 1)
        (visit_goals (make_exit calls (dispatch calls limit) limit) (bring_up_to_date calls limit)
          e.goals e)
        _
        (visit_goals-Kept slots (make_exit calls (dispatch calls limit) limit)
          (make_exit-Quiet calls slots (dispatch calls limit) limit
            (dispatch-Frees calls slots some_slots limit))
          (bring_up_to_date calls limit) e.goals (bring_up_to_date-Fine calls slots limit) e safe
          lt)
        (λ u e' safe' le.
          and_then-Kept slots (slots - 1) (slots - 1)
            (if should_dispatch e.count e' then dispatch calls limit e' else goes tt e') _
            (after_visit limit e.count e' safe' le)
            (λ u' e'' safe'' le'.
              go e'' safe'' le' (none_visited e.goals) (main_loop-Kept limit fuel e'' safe'')))
    where
      go :
          (e'' : Engine World)
          → IsSafe slots e''
          → e''.count ≤ slots - 1
          → (b : Bool)
          → (e''.count < slots → IsKept slots (slots - 1) (main_loop calls limit fuel e''))
          → IsKept slots (slots - 1) (if b then goes tt e'' else main_loop calls limit fuel e'')
      go e'' safe'' le true more = (safe'', le)
      go e'' safe'' le false more = more (omega arith)

  end_state-Safe : (w : Went World Unit) → IsKept slots (slots - 1) w → IsSafe slots (end_state w)
  end_state-Safe (goes u e) kept = kept.0
  end_state-Safe (stops e) kept = kept
  end_state-Safe (runs_out e) kept = kept

  report-Kept :
      (e : Engine World)
      → IsSafe slots e
      → e.count ≤ slots - 1
      → IsKept slots (slots - 1) (report calls e)
  report-Kept e safe le = go e.failure
    where
      go : (b : Bool) → IsKept slots (slots - 1) (if b then stops e else goes tt e)
      go true = safe
      go false = (safe, le)

  update_goals_p-Kept :
      (fuel : ℕ) (default : Option (List ℕ)) (e : Engine World)
      → IsSafe slots e
      → e.count < slots
      → IsKept slots (slots - 1) (update_goals_p calls fuel default e)
  unfolding update_goals_p
  update_goals_p-Kept fuel default e safe lt = go e.goals default
    where
      run :
          (x : Engine World)
          → IsSafe slots x
          → x.count < slots
          → IsKept slots (slots - 1) (and_then (main_loop calls fuel fuel x) (λ u. report calls))
      run x safe' lt' =
          and_then-Kept slots (slots - 1) (slots - 1) (main_loop calls fuel fuel x)
            (λ u. report calls) (main_loop-Kept fuel fuel x safe' lt')
            (λ u y safe'' le. report-Kept y safe'' le)

      go :
          (goals : List (List ℕ)) (given : Option (List ℕ))
          → IsKept slots (slots - 1) (elim goals [
            | [] ↦ elim given [
              | none ↦ stops e
              | some name ↦
                  and_then
                    (main_loop calls fuel fuel (record e { goals = name ∷ [] }))
                    (λ u. report calls)
            ]
            | goal ∷ goals ↦ and_then (main_loop calls fuel fuel e) (λ u. report calls)
          ])
      go [] none = safe
      go [] (some name) =
          run (record e { goals = name ∷ [] })
            (record { right = safe.right; same_slots = safe.same_slots; tally = safe.tally }) lt
      go (goal ∷ goals) given = run e safe lt

-- A run of `make.update_goals_p` from a state with at least one job slot, no running job and nothing started:
-- each command that it starts is started while fewer jobs run than there are slots, and while no dependency
-- of its target is running or has failed. So it is whatever the disk and the commands do, and also for a run
-- that the fuel cuts off.
pub update_goals_p-IsRight :
    (calls : BuildCalls) (fuel : ℕ) (default : Option (List ℕ)) (e : Engine calls.World)
    → 1 ≤ e.slots
    → e.count ≡ 0
    → e.jobs ≡ []
    → e.started ≡ []
    → All (IsRight e.slots) (end_state (update_goals_p calls fuel default e)).started
update_goals_p-IsRight calls fuel default e some_slots idle no_jobs nothing =
    (end_state-Safe calls e.slots some_slots (update_goals_p calls fuel default e) (
      update_goals_p-Kept calls e.slots some_slots fuel default e
        (record {
          right = subst (All (IsRight e.slots)) (sym nothing) tt;
          same_slots = refl;
          tally =
              subst (λ js. IsTally js e.count e.pos) (sym no_jobs)
                (record { rising = omega arith; counted = sym idle });
        })
        (omega arith))).right
