-- ===== src/Build/Dispatch.antt =====
-- lua/mkinit.lua, `make.jobs.dispatch` and `make.exit`: proofs on the jobs that they leave.
use presto_build.Base.{
  ℕ, zero, suc, ◌-◌, ◌<◌, ◌≤◌, ◌≡◌, refl, subst, ltb, ◌==◌, List, [], Bool, true, false, not, ◌&&◌,
  if◌then◌else◌, arith,
}
use presto_build.Build.Engine.{BuildCalls, Engine}
use presto_build.Build.Jobs.{
  Went, goes, stops, runs_out, resume_all, drain, make_exit, after_round, dispatch,
}
use presto_build.Build.Safe.{IsSafe}
use presto_build.Build.Rounds.{
  IsKept, Frees, and_then-Kept, IsQuiet, Quiet, IsStopped, resume_all-Kept,
}

module _ (calls : BuildCalls) (slots : ℕ) where
  open calls use {World, resume, wait}

  drain-Stops :
      (dispatched : Engine World → Went World Unit) (fuel : ℕ)
      → Frees slots dispatched
      → (e : Engine World) → IsSafe slots e
      → IsStopped slots (drain calls dispatched fuel e)
  unfolding drain
  drain-Stops dispatched zero frees e safe = safe
  drain-Stops dispatched (suc fuel) frees e safe =
      go (e.count == 0) (dispatched e) (frees e safe) (drain-Stops dispatched fuel frees)
    where
      go :
          (b : Bool) (w : Went World Unit)
          → IsKept slots (slots - 1) w
          → ((e' : Engine World)
              → IsSafe slots e'
              → IsStopped slots (drain calls dispatched fuel e'))
          → IsStopped slots (
              if b then stops e else (elim w [
                | goes u e' ↦ drain calls dispatched fuel e'
                | stops e' ↦ drain calls dispatched fuel e'
                | runs_out e' ↦ runs_out e'
              ]))
      go true w kept more = safe
      go false (goes u e') kept more = more e' kept.0
      go false (stops e') kept more = more e' kept
      go false (runs_out e') kept more = kept

  pub make_exit-Quiet :
      (dispatched : Engine World → Went World Unit) (fuel : ℕ)
      → Frees slots dispatched
      → Quiet slots (make_exit calls dispatched fuel)
  unfolding make_exit
  make_exit-Quiet dispatched fuel frees e safe = go e.flags.keep_going
    where
      never_goes : (w : Went World Unit) → IsStopped slots w → IsQuiet slots e w
      never_goes (goes u e') absent = absurd absent
      never_goes (stops e') kept = kept
      never_goes (runs_out e') kept = kept

      go :
          (b : Bool)
          → IsQuiet slots e
              (if b then goes tt (record e { failure = true }) else drain calls dispatched fuel e)
      go true = (
        record { right = safe.right; same_slots = safe.same_slots; tally = safe.tally },
        omega arith,
        refl,
      )
      go false =
          never_goes (drain calls dispatched fuel e) (drain-Stops dispatched fuel frees e safe)

  pub dispatch-Frees : (1 ≤ slots) → (fuel : ℕ) → Frees slots (dispatch calls fuel)
  unfolding dispatch after_round
  dispatch-Frees some_slots zero e safe = safe
  dispatch-Frees some_slots (suc fuel) e safe =
      and_then-Kept slots e.count (slots - 1)
        (resume_all calls (make_exit calls (dispatch calls fuel) fuel) e.jobs [] e)
        (after_round calls (dispatch calls fuel) e.count)
        (resume_all-Kept calls slots (make_exit calls (dispatch calls fuel) fuel) [] e.jobs []
          (make_exit-Quiet (dispatch calls fuel) fuel (dispatch-Frees some_slots fuel)) e refl safe)
        (λ waiting e' safe' le. go (dispatch-Frees some_slots fuel) waiting e' safe' le)
    where
      go :
          Frees slots (dispatch calls fuel)
          → (waiting : List ℕ) (e' : Engine World) → IsSafe slots e'
          → e'.count ≤ e.count
          → IsKept slots (slots - 1) (after_round calls (dispatch calls fuel) e.count waiting e')
      go frees waiting e' safe' le =
          branch (not (e.count == e'.count) && ltb e'.count e'.slots) (e.count == 0)
            (λ h.
              subst (λ s. e'.count < s) safe'.same_slots
                (free (not (e.count == e'.count)) e'.count e'.slots h))
            (λ h. none_left e.count h)
        where
          free : (b : Bool) (n m : ℕ) → (b && ltb n m) ≡ true → n < m
          free b n m h = ground arith

          none_left : (n : ℕ) → (n == 0) ≡ true → n ≡ 0
          none_left n h = ground arith

          branch :
              (opened idle : Bool)
              → (opened ≡ true → e'.count < slots)
              → (idle ≡ true → e.count ≡ 0)
              → IsKept slots (slots - 1) (
                  if opened
                  then goes tt e'
                  else if idle
                  then goes tt e'
                  else dispatch calls fuel (record e' { world = wait waiting e'.world }))
          branch true idle lt no_jobs = let less = lt refl in (safe', omega arith)
          branch false true lt no_jobs = let empty = no_jobs refl in (safe', omega arith)
          branch false false lt no_jobs =
              frees (record e' { world = wait waiting e'.world })
                (record { right = safe'.right; same_slots = safe'.same_slots; tally = safe'.tally })
