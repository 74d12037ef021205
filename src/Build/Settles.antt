-- ===== src/Build/Settles.antt =====
-- lua/mkinit.lua, `bring_up_to_date` without keep_going: the loop over dependencies, with proofs that what runs is waited for.
use presto_build.Build.Depends.{has}
use mathlib.Core.List.{Memᴰ}
use presto_build.Base.{
  if_cases, ℕ, zero, suc, ◌≡◌, ◌≢◌, inl, inr, refl, ap, ◌∙◌, leb, List, [], ◌∷◌, Bool, true, false,
  if◌then◌else◌,
}
use presto_build.Build.Target.{Status, unchanged, updated, running, error, Targets, target_of}
use presto_build.Build.Cycles.{IsDep, Acyclic}
use presto_build.Build.Engine.{
  bad_message, BuildCalls, Engine, Reply, gives, throws, unfinished, target_status, keep_exists,
  keep_time,
}
use presto_build.Build.Update.{
  left, Visit, done, mark_newer, failed_dep, is_older, keep_times, after_dep, visit, needed, opened,
  build_target, unless_settled, bring_up_to_date,
}
use presto_build.Build.Grows.{Grows, Grows-trans, deps_of_Grows}
use presto_build.Build.Steps.{Steps, stay, Steps-wider}
use presto_build.Build.Frames.{Steps-Grows}
use presto_build.Build.Within.{Under, Within, not_above}
use presto_build.Build.Refines.{bring_up_to_date-Steps}
use presto_build.Build.Waits.{Waits, not_settled, NoError, Steps-flags}
use presto_build.Build.Waiting.{
  SomeRuns, IsGood, IsWaited, Waited, IsWaiting, HasVisited, IsWaiting-calm, IsWaiting-running,
}
use presto_build.Build.Rests.{note_exists, note_time, note_newer, conclude-Waited}

-- A call on `self`, whose status was not set, from the state `e`.
module _ (calls : BuildCalls) (ts : Targets) (self : List ℕ) (apart : Under ts self self → ⊥)
    (e : Engine calls.World) (unset : target_status e self ≡ unchanged) where
  open calls use {World, begin}

  -- A call of `bring` on a dependency from `x`.
  abbrev Brought : List ℕ → Engine World → Reply × Engine World → Type 0
  Brought d x out = Steps calls (Within ts d) x out.1 × Waited d x out

  -- The rest of the loop.
  abbrev Continues : List (List ℕ) → (Bool → Bool → Engine World → Visit World) → Type 0
  Continues deps more =
      (must wait : Bool) (x : Engine World)
      → IsWaiting calls ts self e deps wait x
      → HasVisited calls ts self e (more must wait x)

  failed_dep-bad :
      (dep : List ℕ) (must wait : Bool) (rest : Bool → Bool → Engine World → Visit World)
      (y : Engine World)
      → y.flags.keep_going ≡ false
      → HasVisited calls ts self e (failed_dep self dep must wait rest y)
  unfolding failed_dep
  failed_dep-bad dep must wait rest y going = rw going (λ good. good)

  after_dep-HasVisited :
      (dep : List ℕ) (deps : List (List ℕ)) (must wait : Bool)
      (rest : Bool → Bool → Engine World → Visit World) (x : Engine World)
      (out : Reply × Engine World)
      → IsDep e.targets dep self
      → IsDep ts dep self
      → Continues deps rest
      → IsWaiting calls ts self e (dep ∷ deps) wait x
      → Brought dep x out
      → HasVisited calls ts self e (after_dep calls self dep must wait rest out)
  unfolding after_dep
  after_dep-HasVisited dep deps must wait rest x (r, y) now once more w (steps, waited) =
      go r waited
    where
      all : Steps calls (Under ts self) e y
      all =
          Steps-wider calls (Within ts dep) (Under ts self) (λ n r'. (dep, once, r')) w.steps steps

      going : y.flags.keep_going ≡ false
      going = ap (λ flags. flags.keep_going) (Steps-flags calls (Within ts dep) steps) ∙ w.going

      go :
          (r : Reply)
          → (IsGood r → IsWaited dep x r y)
          → HasVisited calls ts self e (after_dep calls self dep must wait rest (r, y))
      go (gives updated) waited = more true wait (mark_newer self dep y) (
          note_newer calls ts self apart e unset deps wait y dep (
            IsWaiting-calm calls ts self e dep deps wait x y (gives updated) w steps all (λ h. cc)
              (waited tt)))
      go (gives unchanged) waited = branch (is_older calls self dep y)
        where
          kept : IsWaiting calls ts self e deps wait (keep_times calls self dep y)
          kept = note_time calls ts self apart e unset deps wait (keep_time calls self y) dep (
              note_time calls ts self apart e unset deps wait y self (
                IsWaiting-calm calls ts self e dep deps wait x y (gives unchanged) w steps all
                  (λ h. cc) (waited tt)))

          branch :
              (b : Bool)
              → HasVisited calls ts self e (
                  if b
                  then rest true wait (mark_newer self dep (keep_times calls self dep y))
                  else rest must wait (keep_times calls self dep y))
          branch true = more true wait _ (
              note_newer calls ts self apart e unset deps wait (keep_times calls self dep y) dep
                kept)
          branch false = more must wait _ kept
      go (gives error) waited =
          if_cases (HasVisited calls ts self e) (has y.unprintable dep)
            (left (throws bad_message) y) (failed_dep self dep must wait rest y) (λ good. good)
            (failed_dep-bad dep must wait rest y going)
      go (throws t) waited = failed_dep-bad dep must wait rest y going
      go (gives running) waited = branch (leb y.slots y.count)
        where
          now_running : (left_over : List (List ℕ)) → IsWaiting calls ts self e left_over true y
          now_running left_over =
              IsWaiting-running calls ts self e dep (dep ∷ deps) left_over wait x y (gives running)
                now w all refl (waited tt)

          branch :
              (b : Bool)
              → HasVisited calls ts self e (if b then done must true y else rest must true y)
          branch true = now_running []
          branch false = more must true y (now_running deps)
      go unfinished waited = λ good. good

  visit-HasVisited :
      (bring : List ℕ → Engine World → Reply × Engine World) (deps : List (List ℕ))
      → ((d : List ℕ) → Memᴰ d deps → IsDep e.targets d self)
      → ((d : List ℕ) → IsDep e.targets d self → IsDep ts d self)
      → ((d : List ℕ)
          → IsDep ts d self
          → (wait : Bool) (left_over : List (List ℕ)) (x : Engine World)
          → IsWaiting calls ts self e left_over wait x
          → Brought d x (bring d x))
      → (must wait : Bool) (x : Engine World) → IsWaiting calls ts self e deps wait x
      → HasVisited calls ts self e (visit calls bring self deps must wait x)
  unfolding visit
  visit-HasVisited bring [] all once brings must wait x w = w
  visit-HasVisited bring (dep ∷ deps) all once brings must wait x w =
      let now : IsDep e.targets dep self = all dep (Memᴰ.head refl) in
      after_dep-HasVisited dep deps must wait (visit calls bring self deps) x (bring dep x) now
        (once dep now) (visit-HasVisited bring deps (λ d m. all d (Memᴰ.tail m)) once brings) w
        (brings dep (once dep now) wait (dep ∷ deps) x w)

  opened-IsWaiting :
      NoError e.targets
      → e.flags.keep_going ≡ false
      → IsWaiting calls ts self e (target_of e.targets self).deps false (opened calls self e)
  opened-IsWaiting no_error going = go e.flags.always_make
    where
      start_of : IsWaiting calls ts self e (target_of e.targets self).deps false e
      start_of = record {
        steps = stay;
        no_error = no_error;
        same_deps = λ n. refl;
        keeps = λ g n h. h;
        calm = λ h. ((λ d m. inl m), λ n r. r);
        new_runs = λ n r. inl r;
        going = going;
        same_goals = refl;
        some_runs = λ h. cc;
      }

      go :
          (b : Bool)
          → IsWaiting calls ts self e
              (target_of e.targets self).deps
              false
              (if b then e else keep_exists calls self e)
      go true = start_of
      go false =
          note_exists calls ts self apart e unset (target_of e.targets self).deps false e start_of

-- A call of `bring_up_to_date` on targets without a cycle, without keep_going and where nothing has failed.
pub bring_up_to_date-Waited :
    (calls : BuildCalls) (ts : Targets)
    → Acyclic ts
    → (fuel : ℕ) (self : List ℕ) (e : Engine calls.World) → Grows ts e.targets
    → NoError e.targets
    → e.flags.keep_going ≡ false
    → Waited self e (bring_up_to_date calls fuel self e)
unfolding bring_up_to_date build_target
bring_up_to_date-Waited calls ts wf zero self e grows no_error going = λ good. absurd good
bring_up_to_date-Waited calls ts wf (suc fuel) self e grows no_error going =
    go (target_status e self) refl
      (λ d x g ne k. bring_up_to_date-Waited calls ts wf fuel d x g ne k)
  where
    still :
        (r : Reply)
        → (r ≢ gives running → (n : List ℕ) → Waits e.targets self n → ⊥)
        → (r ≡ gives running → SomeRuns e)
        → IsWaited self e r e
    still r calm some = record {
      no_error = no_error;
      same_deps = λ n. refl;
      keeps = λ g n h. h;
      calm = calm;
      new_runs = λ n r'. inl r';
      going = going;
      same_goals = refl;
      some_runs = some;
    }

    go :
        (s : Status)
        → target_status e self ≡ s
        → ((d : List ℕ) (x : Engine calls.World)
            → Grows ts x.targets
            → NoError x.targets
            → x.flags.keep_going ≡ false
            → Waited d x (bring_up_to_date calls fuel d x))
        → Waited self e
            (unless_settled calls s (build_target calls (bring_up_to_date calls fuel) self e) e)
    go unchanged same brings =
        let apart : Under ts self self → ⊥ =
          λ under. not_above ts self (wf.apply self) under.0 under.1 under.2 in
        conclude-Waited calls ts self apart e same _ (
          visit-HasVisited calls ts self apart e same (bring_up_to_date calls fuel)
            (target_of e.targets self).deps (λ d m. m)
            (λ d m. deps_of_Grows ts e.targets grows self d m)
            (λ d dep wait left_over x w.
              let grown : Grows ts x.targets =
                Grows-trans ts e.targets x.targets grows
                  (Steps-Grows calls (Under ts self) w.steps) in
              (
                bring_up_to_date-Steps calls ts wf fuel d x grown,
                brings d x grown w.no_error w.going,
              ))
            (needed calls self e) false (opened calls self e)
            (opened-IsWaiting calls ts self apart e same no_error going))
    go updated same brings = λ good.
        still (gives updated)
          (λ quiet n h. elim (not_settled e.targets self n h) [
            | inl r ↦ cc (same, r)
            | inr (u, more) ↦ cc (same, u)
          ])
          (λ h. cc)
    go running same brings =
        λ good. still (gives running) (λ quiet. absurd (quiet refl)) (λ h. (self, same))
    go error same brings = λ good. absurd good
