-- ===== src/Build/Returns.antt =====
-- lua/mkinit.lua, `make.jobs.dispatch` and `make.exit`: proofs on fuel that is enough for them.
use presto_build.Base.{
  ℕ, zero, suc, ◌+◌, ◌<◌, ◌≤◌, ◌≡◌, ◌⊎◌, inl, inr, refl, sym, ltb, ◌==◌, List, [], Bool, true,
  false, not, ◌&&◌, if◌then◌else◌, arith,
}
use presto_build.Build.Engine.{BuildCalls, running_jobs, Engine}
use presto_build.Build.Jobs.{
  Went, goes, stops, runs_out, and_then, resume_all, drain, make_exit, after_round, dispatch,
}
use presto_build.Build.Tally.{IsTally}
use presto_build.Build.Tires.{
  Tires, work, IsTallied, IsExit, IsStopping, Exits, IsDispatched, Dispatches, IsRound,
  resume_all-Round,
}

module _ (calls : BuildCalls) (left : calls.World → ℕ) where
  open calls use {World, resume, wait}

  drain-Stopping :
      (again : Engine World → Went World Unit) (bound fuel : ℕ)
      → Dispatches calls left bound again
      → (e : Engine World) → IsTallied calls left e
      → work calls left e < fuel
      → work calls left e < bound
      → IsStopping calls left e (drain calls again fuel e)
  unfolding drain
  drain-Stopping again bound zero dispatches e t lt lt' = absurd (omega (arith, lt))
  drain-Stopping again bound (suc fuel) dispatches e t lt lt' =
      go (e.count == 0) (λ h. not_zero e.count h) (again e) (dispatches e t lt')
        (drain-Stopping again bound fuel dispatches)
    where
      not_zero : (n : ℕ) → (n == 0) ≡ false → n ≡ 0 → ⊥
      not_zero n h k = ground (arith, h, k)

      later :
          (e' : Engine World)
          → work calls left e' < work calls left e
          → IsStopping calls left e' (drain calls again fuel e')
          → IsStopping calls left e (drain calls again fuel e')
      later e' less h = weaken (drain calls again fuel e') h
        where
          weaken : (w : Went World Unit) → IsStopping calls left e' w → IsStopping calls left e w
          weaken (goes u x) absent = absent
          weaken (stops x) (t', le') = (t', omega (arith, less, le'))
          weaken (runs_out x) absent = absent

      go :
          (b : Bool)
          → (b ≡ false → e.count ≡ 0 → ⊥)
          → (w : Went World Unit) → IsDispatched calls left e w
          → ((e' : Engine World)
              → IsTallied calls left e'
              → work calls left e' < fuel
              → work calls left e' < bound
              → IsStopping calls left e' (drain calls again fuel e'))
          → IsStopping calls left e (
              if b then stops e else (elim w [
                | goes u e' ↦ drain calls again fuel e'
                | stops e' ↦ drain calls again fuel e'
                | runs_out e' ↦ runs_out e'
              ]))
      go true busy w h more = (t, omega arith)
      go false busy (goes u e') (t', le', inl none_left) more = absurd (busy refl none_left)
      go false busy (goes u e') (t', le', inr less) more =
          later e' less (more e' t' (omega (arith, less, lt)) (omega (arith, less, lt')))
      go false busy (stops e') (t', less) more =
          later e' less (more e' t' (omega (arith, less, lt)) (omega (arith, less, lt')))
      go false busy (runs_out e') absent more = absurd absent

  pub make_exit-Exit :
      (again : Engine World → Went World Unit) (fuel : ℕ)
      → Dispatches calls left fuel again
      → Exits calls left fuel (make_exit calls again fuel)
  unfolding make_exit
  make_exit-Exit again fuel dispatches e t lt = go e.flags.keep_going
    where
      stopping : (w : Went World Unit) → IsStopping calls left e w → IsExit calls left e w
      stopping (goes u x) absent = absurd absent
      stopping (stops x) h = h
      stopping (runs_out x) absent = absurd absent

      go :
          (b : Bool)
          → IsExit calls left e
              (if b then goes tt (record e { failure = true }) else drain calls again fuel e)
      go true = (t, refl, omega arith)
      go false =
          stopping (drain calls again fuel e) (drain-Stopping again fuel fuel dispatches e t lt lt)

  dispatch-Dispatched :
      (tired : Tires calls left) (fuel : ℕ) → Dispatches calls left fuel (dispatch calls fuel)
  unfolding dispatch after_round
  dispatch-Dispatched tired zero e t lt = absurd (omega (arith, lt))
  dispatch-Dispatched tired (suc fuel) e t lt =
      round (dispatch-Dispatched tired fuel)
        (resume_all calls (make_exit calls (dispatch calls fuel) fuel) e.jobs [] e)
        (resume_all-Round calls left tired (make_exit calls (dispatch calls fuel) fuel) fuel []
          e.jobs [] (make_exit-Exit (dispatch calls fuel) fuel (dispatch-Dispatched tired fuel)) e
          refl t (omega (arith, lt)))
    where
      some_jobs :
          (n : ℕ)
          → running_jobs e.jobs ≡ n
          → n ≡ e.count
          → (e.count ≡ 0) ⊎ (1 ≤ running_jobs e.jobs)
      some_jobs zero h k = inl (sym k)
      some_jobs (suc n) h k = inr (omega (arith, h))

      progress :
          (x : Engine World)
          → work calls left x + running_jobs e.jobs ≤ work calls left e
          → (work calls left x ≤ work calls left e)
            × ((e.count ≡ 0) ⊎ (work calls left x < work calls left e))
      progress x le = (
        omega (arith, le),
        elim (some_jobs (running_jobs e.jobs) refl t.counted) [
          | inl none_left ↦ inl none_left
          | inr busy ↦ inr (omega (arith, le, busy))
        ],
      )

      later :
          (x : Engine World) (w : Went World Unit)
          → work calls left x < work calls left e
          → IsDispatched calls left x w
          → IsDispatched calls left e w
      later x (goes u y) less (t', le', p) =
          (t', omega (arith, less, le'), inr (omega (arith, less, le')))
      later x (stops y) less (t', less') = (t', omega (arith, less, less'))
      later x (runs_out y) less absent = absent

      round :
          Dispatches calls left fuel (dispatch calls fuel)
          → (w : Went World (List ℕ)) → IsRound calls left (running_jobs e.jobs) e [] w
          → IsDispatched calls left e (and_then w (after_round calls (dispatch calls fuel) e.count))
      round dispatches (goes waiting x) (t', le, k) =
          branch (not (e.count == x.count) && ltb x.count x.slots) (e.count == 0)
            (λ h. not_zero e.count h) (progress x le)
        where
          not_zero : (n : ℕ) → (n == 0) ≡ false → n ≡ 0 → ⊥
          not_zero n h j = ground (arith, h, j)

          branch :
              (opened idle : Bool)
              → (idle ≡ false → e.count ≡ 0 → ⊥)
              → (work calls left x ≤ work calls left e)
                × ((e.count ≡ 0) ⊎ (work calls left x < work calls left e))
              → IsDispatched calls left e (
                  if opened
                  then goes tt x
                  else if idle
                  then goes tt x
                  else dispatch calls fuel (record x { world = wait waiting x.world }))
          branch true idle busy p = (t', p.0, p.1)
          branch false true busy p = (t', p.0, p.1)
          branch false false busy (le', inl none_left) = absurd (busy refl none_left)
          branch false false busy (le', inr less) =
              let waited = tired.waits waiting x.world in
              let y : Engine World = record x { world = wait waiting x.world } in
              let less' : work calls left y < work calls left e = omega (arith, waited, less) in
              later y (dispatch calls fuel y) less'
                (dispatches y t' (omega (arith, waited, less, lt)))
      round dispatches (stops x) h = h
      round dispatches (runs_out x) absent = absurd absent

-- Where `left` bounds how often the commands yield from a state of the world on, the numbers of the running
-- jobs rise and `make.jobs.count` counts them, and the fuel is more than that bound and the jobs together:
-- `make.jobs.dispatch` comes back, with a value or with an error. Then the numbers rise and are
-- counted again, and the bound and the jobs together are less than before, if there was a job.
pub dispatch-IsDispatched :
    (calls : BuildCalls) (left : calls.World → ℕ)
    → Tires calls left
    → (e : Engine calls.World) → IsTally e.jobs e.count e.pos
    → (fuel : ℕ) → left e.world + running_jobs e.jobs < fuel
    → IsDispatched calls left e (dispatch calls fuel e)
dispatch-IsDispatched calls left tired e t fuel enough =
    dispatch-Dispatched calls left tired fuel e t enough
