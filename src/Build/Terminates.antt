-- ===== src/Build/Terminates.antt =====
-- lua/mkinit.lua, `make.update_goals_p` without keep_going: proofs that it comes back, and what it leaves.
use mathlib.Core.List.{Memᴰ}
use mathlib.Core.List.Memᴰ
use presto_build.Base.{
  ℕ, All, ◌+◌, ◌<◌, ◌≤◌, ◌≡◌, ◌≢◌, inl, inr, refl, sym, ap, subst, Option, none, some, List, [],
  ◌∷◌, Bool, true, false, length, arith, enough_for_all, if◌then◌else◌,
}
use presto_build.Build.Target.{unchanged, updated}
use presto_build.Build.Cycles.{Acyclic}
use presto_build.Build.Engine.{BuildCalls, Engine, running_jobs, unfinished, target_status}
use presto_build.Build.Update.{bring_up_to_date}
use presto_build.Build.Jobs.{Went, goes, stops, runs_out, and_then}
use presto_build.Build.Goals.{main_loop, report, update_goals_p}
use presto_build.Build.Frames.{Steps-Grows}
use presto_build.Build.Busy.{IsBusy}
use presto_build.Build.Runs.{Anywhere}
use presto_build.Build.Waits.{Steps-flags}
use presto_build.Build.Tires.{Tires}
use presto_build.Build.Total.{IsEnough, IsEnough-exists}
use presto_build.Build.Finishes.{Unique, IsOnWay}
use presto_build.Build.Fresh.{fresh-IsBusy, fresh-IsOnce, fresh-IsOnWay}
use presto_build.Build.Successes.{update_goals_p-Updated}
use presto_build.Build.Spends.{AreAmong, IsClosed}
use presto_build.Build.Halts.{ComesBack, and_then-ComesBack, main_loop-ComesBack}

report-ComesBack : (calls : BuildCalls) (y : Engine calls.World) → ComesBack (report calls y)
report-ComesBack calls y = go y.failure
  where
    go : (b : Bool) → ComesBack (if b then stops y else goes tt y)
    go true = tt
    go false = tt

update_goals_p-ComesBack :
    (calls : BuildCalls) (spare : calls.World → ℕ)
    → Tires calls spare
    → ((name : List ℕ) (id : ℕ) (w : calls.World) → spare (calls.begin name id w).1 ≤ spare w)
    → (default : Option (List ℕ)) (e : Engine calls.World) → Acyclic e.targets
    → e.flags.keep_going ≡ false
    → Unique e.goals
    → ((n : List ℕ) → target_status e n ≡ unchanged)
    → e.jobs ≡ []
    → e.count ≡ 0
    → e.started ≡ []
    → (names : List (List ℕ)) → IsClosed e.targets names
    → ((g : List ℕ) → Memᴰ g e.goals → Memᴰ g names)
    → ((g : List ℕ) → default ≡ some g → Memᴰ g names)
    → (k : ℕ) × ((fuel : ℕ) → k ≤ fuel → ComesBack (update_goals_p calls fuel default e))
unfolding update_goals_p
update_goals_p-ComesBack calls spare tired begins default e wf going unique unset none_run
      none_counted nothing names closed asks asks_default =
    let (k, all) =
      enough_for_all (IsEnough calls e.targets)
        (λ k n d le enough fuel always x bound. enough fuel always x (omega (arith, le, bound)))
        names (λ n m. IsEnough-exists calls e.targets n (wf.apply n)) in
    (
      k + (length e.goals + 1 + spare e.world + length names + length names + 1),
      λ fuel le.
          go fuel (omega (arith, le)) all (omega (arith, le)) e.goals refl default asks_default,
    )
  where
    busy : IsBusy e
    busy = fresh-IsBusy e unset none_run none_counted

    go :
        {k : ℕ} (fuel : ℕ)
        → k ≤ fuel
        → ((n : List ℕ) → Memᴰ n names → IsEnough calls e.targets k n)
        → length e.goals + 1 + spare e.world + length names + length names < fuel
        → (goals : List (List ℕ)) → e.goals ≡ goals
        → (given : Option (List ℕ)) → ((g : List ℕ) → given ≡ some g → Memᴰ g names)
        → ComesBack (elim goals [
          | [] ↦ elim given [
            | none ↦ stops e
            | some name ↦
                and_then
                  (main_loop calls fuel fuel (record e { goals = name ∷ [] }))
                  (λ u. report calls)
          ]
          | goal ∷ goals ↦ and_then (main_loop calls fuel fuel e) (λ u. report calls)
        ])
    go fuel le all lt gs same given asked_for = begin_with gs same given asked_for
      where
        idle : running_jobs e.jobs ≡ 0
        idle = ap running_jobs none_run

        enough :
            (n : List ℕ)
            → Memᴰ n names
            → (x : Engine calls.World) → IsOnWay calls e wf busy x
            → (bring_up_to_date calls fuel n x).0 ≢ unfinished
        enough n m x way =
            (all n m fuel e.flags.always_make x le (
              Steps-Grows calls Anywhere way.reached,
              ap (λ f. f.always_make) (Steps-flags calls Anywhere way.reached),
            )).0

        run :
            (goals : List (List ℕ))
            → Unique goals
            → ((g : List ℕ) → Memᴰ g goals → Memᴰ g names)
            → length goals ≤ length e.goals + 1
            → ComesBack (
                and_then
                  (main_loop calls fuel fuel (record e { goals = goals }))
                  (λ u. report calls))
        run goals unique' inside few =
            let zero_started : length e.started ≡ 0 = ap length nothing in
            and_then-ComesBack (main_loop calls fuel fuel (record e { goals = goals }))
              (λ u. report calls)
              (main_loop-ComesBack calls
                (record {
                  spare = spare;
                  tired = tired;
                  begins = begins;
                  begun = e;
                  wf = wf;
                  busy = busy;
                  once = fresh-IsOnce e nothing;
                  names = names;
                  closed = closed;
                  limit = fuel;
                  enough = enough;
                })
                fuel (record e { goals = goals })
                (record {
                  way = fresh-IsOnWay calls e wf busy going unset goals unique';
                  among = subst (AreAmong names) (sym nothing) tt;
                  asks = inside;
                  bounded = omega (arith, lt, idle);
                })
                (omega (arith, lt, few, idle)))
              (λ u. report-ComesBack calls)

        begin_with :
            (goals : List (List ℕ))
            → e.goals ≡ goals
            → (given : Option (List ℕ)) → ((g : List ℕ) → given ≡ some g → Memᴰ g names)
            → ComesBack (elim goals [
              | [] ↦ elim given [
                | none ↦ stops e
                | some name ↦
                    and_then
                      (main_loop calls fuel fuel (record e { goals = name ∷ [] }))
                      (λ u. report calls)
              ]
              | goal ∷ goals ↦ and_then (main_loop calls fuel fuel e) (λ u. report calls)
            ])
        begin_with [] same none inside = tt
        begin_with [] same (some name) inside =
            run (name ∷ []) ((λ m. Memᴰ.not-nil m), tt)
              (λ g m. elim (Memᴰ.cases_cons m) [
                | inl is ↦ inside g (ap some (sym is))
                | inr absent ↦ absurd (Memᴰ.not-nil absent)
              ])
              (omega arith)
        begin_with (goal ∷ goals) same given inside = run e.goals unique asks (omega arith)

-- The run comes back; where it does with a value, no goal is left, no job runs, and what was started is updated.
abbrev pub Finished : {W : Type 0} → Went W Unit → Type 0
Finished (goes u e') =
    (e'.goals ≡ [])
    × (e'.jobs ≡ [])
    × (e'.count ≡ 0)
    × All (λ s. target_status e' s.target ≡ updated) e'.started
Finished (stops e') = Unit
Finished (runs_out e') = ⊥

-- Where a number bounds how often the commands yield from a state of the world on, also those that are still
-- to be started: a run of `make.update_goals_p` without keep_going comes back with enough fuel, with an error
-- or with a value; then no goal is left, no job runs, and each target that was started is updated. The
-- run starts in a state in which no status is set, no job runs and nothing was started, on targets without a
-- cycle, with no goal twice; some list of names has the goals, the default target, and the dependencies of each
-- of its names.
pub update_goals_p-Finished :
    (calls : BuildCalls) (spare : calls.World → ℕ)
    → Tires calls spare
    → ((name : List ℕ) (id : ℕ) (w : calls.World) → spare (calls.begin name id w).1 ≤ spare w)
    → (default : Option (List ℕ)) (e : Engine calls.World) → Acyclic e.targets
    → e.flags.keep_going ≡ false
    → Unique e.goals
    → ((n : List ℕ) → target_status e n ≡ unchanged)
    → e.jobs ≡ []
    → e.count ≡ 0
    → e.started ≡ []
    → (names : List (List ℕ)) → IsClosed e.targets names
    → ((g : List ℕ) → Memᴰ g e.goals → Memᴰ g names)
    → ((g : List ℕ) → default ≡ some g → Memᴰ g names)
    → (k : ℕ) × ((fuel : ℕ) → k ≤ fuel → Finished (update_goals_p calls fuel default e))
update_goals_p-Finished calls spare tired begins default e wf going unique unset none_run
      none_counted nothing names closed asks asks_default =
    let (k, back) =
      update_goals_p-ComesBack calls spare tired begins default e wf going unique unset none_run
        none_counted nothing names closed asks asks_default in
    (k, λ fuel le. go fuel (update_goals_p calls fuel default e) refl (back fuel le))
  where
    go :
        (fuel : ℕ) (w : Went calls.World Unit)
        → update_goals_p calls fuel default e ≡ w
        → ComesBack w
        → Finished w
    go fuel (goes u e') same back =
        update_goals_p-Updated calls fuel default e e' wf going unique unset none_run none_counted
          nothing same
    go fuel (stops e') same back = tt
    go fuel (runs_out e') same absent = absent
