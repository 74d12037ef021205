-- ===== src/Build/Fresh.antt =====
-- lua/mkinit.lua: the state before a run, in which no status is set, no job runs and nothing was started.
use presto_build.Base.{All, ℕ, ◌≡◌, sym, subst, List, [], false, arith}
use presto_build.Build.Target.{unchanged}
use presto_build.Build.Cycles.{Acyclic}
use presto_build.Build.Engine.{BuildCalls, Engine, target_status}
use presto_build.Build.Tally.{IsTally}
use presto_build.Build.Matches.{HasJob, OneEach}
use presto_build.Build.Busy.{IsBusy}
use presto_build.Build.Once.{Distinct, IsOnce}
use presto_build.Build.Steps.{stay, later, asked}
use presto_build.Build.Finishes.{Unique, IsOnWay}

module _ {W : Type 0} (e : Engine W) where
  pub fresh-IsBusy :
      ((n : List ℕ) → target_status e n ≡ unchanged) → e.jobs ≡ [] → e.count ≡ 0 → IsBusy e
  fresh-IsBusy unset none_run none_counted = record {
    tally =
        subst (λ js. IsTally js e.count e.pos) (sym none_run)
          (record { rising = omega arith; counted = sym none_counted });
    each = subst OneEach (sym none_run) tt;
    matches = λ n. ((λ h. cc (unset n, h)), λ has. absurd (subst (λ js. HasJob js n) none_run has));
  }

  pub fresh-IsOnce : e.started ≡ [] → IsOnce e
  fresh-IsOnce nothing = record {
    distinct = subst Distinct (sym nothing) tt;
    settled = subst (All _) (sym nothing) tt;
  }

-- Its goals may be set.
pub fresh-IsOnWay :
    (calls : BuildCalls) (e : Engine calls.World) (wf : Acyclic e.targets) (busy : IsBusy e)
    → e.flags.keep_going ≡ false
    → ((n : List ℕ) → target_status e n ≡ unchanged)
    → (goals : List (List ℕ)) → Unique goals
    → IsOnWay calls e wf busy (record e { goals = goals })
fresh-IsOnWay calls e wf busy going unset goals unique = record {
  reached = later stay (asked goals);
  no_error = λ n h. cc (unset n, h);
  going = going;
  unique = unique;
  waited = λ n h. cc (unset n, h);
}
