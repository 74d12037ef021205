-- ===== src/Build/Total.antt =====
-- lua/mkinit.lua, `bring_up_to_date`: proofs on fuel that is enough for it.
use mathlib.Core.WellFounded.{Acc}
use presto_build.Base.{
  ℕ, zero, suc, ◌+◌, ◌≤◌, ◌≡◌, ◌≢◌, refl, sym, subst, List, Bool, enough_for_all, arith,
}
use presto_build.Build.Target.{Targets, target_of}
use presto_build.Build.Engine.{BuildCalls, Engine, unfinished, target_status}
use presto_build.Build.Update.{build_target, bring_up_to_date}
use presto_build.Build.Grows.{Grows, Grows-refl}
use presto_build.Build.Cycles.{IsDep, Acyclic}
use presto_build.Build.Ends.{Later, HasEnded, build_target-HasEnded, unless_settled-HasEnded}

module _ (calls : BuildCalls) (ts : Targets) where
  open calls use {World}

  -- `k` is enough fuel for a target, whatever was brought up to date before.
  abbrev pub IsEnough : ℕ → List ℕ → Type 0
  IsEnough k name =
      (fuel : ℕ) (always : Bool) (e : Engine World)
      → k ≤ fuel
      → Later ts always e
      → HasEnded (λ r. r ≢ unfinished) ts always (bring_up_to_date calls fuel name e)

  pub IsEnough-exists : (name : List ℕ) → Acc (IsDep ts) name → (k : ℕ) × IsEnough k name
  unfolding bring_up_to_date
  IsEnough-exists name acc = elim acc as (λ name _. (k : ℕ) × IsEnough k name) [
    | Acc.intro name (h → ih) ↦ go name (
        enough_for_all IsEnough
          (λ k n d le enough fuel always e bound. enough fuel always e (omega arith))
          (target_of ts name).deps ih)
  ]
    where
      step :
          (name : List ℕ) (k : ℕ)
          → ((d : List ℕ) → IsDep ts d name → IsEnough k d)
          → IsEnough (k + 1) name
      step name k deps zero always e enough g = absurd (omega arith)
      step name k deps (suc fuel) always e enough g =
          unless_settled-HasEnded calls ts always (λ r. r ≢ unfinished) (λ r ne. ne) name
            (target_status e name) (build_target calls (bring_up_to_date calls fuel) name e) e
            (build_target-HasEnded calls ts always (λ r. r ≢ unfinished) (λ r ne. ne) name
              (bring_up_to_date calls fuel) e (λ d dep x. deps d dep fuel always x (omega arith)) g)
            g

      go :
          (name : List ℕ)
          → (k : ℕ) × ((d : List ℕ) → IsDep ts d name → IsEnough k d)
          → (k : ℕ) × IsEnough k name
      go name (k, deps) = (k + 1, step name k deps)

-- Whatever the fuel, dependencies are only taken off.
pub bring_up_to_date-Later :
    (calls : BuildCalls) (ts : Targets) (always : Bool) (fuel : ℕ) (name : List ℕ)
    (e : Engine calls.World)
    → Later ts always e
    → HasEnded (λ r. Unit) ts always (bring_up_to_date calls fuel name e)
unfolding bring_up_to_date
bring_up_to_date-Later calls ts always zero name e g = (tt, g)
bring_up_to_date-Later calls ts always (suc fuel) name e g =
    unless_settled-HasEnded calls ts always (λ r. Unit) (λ r ne. tt) name (target_status e name)
      (build_target calls (bring_up_to_date calls fuel) name e) e
      (build_target-HasEnded calls ts always (λ r. Unit) (λ r ne. tt) name
        (bring_up_to_date calls fuel) e (λ d dep x. bring_up_to_date-Later calls ts always fuel d x)
        g)
      g

-- On targets without a cycle there is, for each target, an amount of fuel with which `bring_up_to_date` ends
-- with a status or an error: in every state that has these targets, whatever the disk and the commands do.
bring_up_to_date-ends :
    (calls : BuildCalls) (ts : Targets) (self : List ℕ)
    → Acyclic ts
    → (k : ℕ) × ((fuel : ℕ) (e : Engine calls.World)
        → k ≤ fuel
        → e.targets ≡ ts
        → (bring_up_to_date calls fuel self e).0 ≢ unfinished)
bring_up_to_date-ends calls ts self wf =
    let (k, enough) = IsEnough-exists calls ts self (wf.apply self) in
    (
      k,
      λ fuel e le same.
          (enough fuel e.flags.always_make e le
            (subst (Grows ts) (sym same) (Grows-refl ts), refl)).0,
    )
