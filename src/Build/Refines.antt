-- ===== src/Build/Refines.antt =====
-- lua/mkinit.lua, `bring_up_to_date`: proofs that a call is made of steps on the targets that it may touch.
use presto_build.Build.Depends.{has}
use mathlib.Core.List.{Memᴰ}
use presto_build.Base.{
  if_cases, ℕ, zero, suc, ◌≡◌, refl, ◌∙◌, leb, List, [], ◌∷◌, Bool, true, false, not, ◌||◌,
  if◌then◌else◌,
}
use presto_build.Build.Target.{Status, unchanged, updated, running, error, Targets, target_of}
use presto_build.Build.Cycles.{IsDep, Acyclic, here, down}
use presto_build.Build.Engine.{
  bad_message, BuildCalls, Engine, no_rule, index_function, Reply, gives, throws, unfinished,
  target_status, set_status, start, exists_of, keep_exists, keep_time,
}
use presto_build.Build.Update.{
  Visit, done, left, mark_newer, prune, failed_dep, is_older, keep_times, after_dep, visit,
  without_command, build_now, conclude, needed, opened, build_target, unless_settled,
  bring_up_to_date,
}
use presto_build.Build.Grows.{Grows, Grows-trans, deps_of_Grows}
use presto_build.Build.Steps.{
  broke, launched, Steps, Builds, at_first, onward, Builds-Steps, Builds-wider,
}
use presto_build.Build.Frames.{Steps-frame, Steps-Grows}
use presto_build.Build.Within.{
  Under, Within, Ends, Leaves, not_above, note_exists, note_time, note_newer, note_pruned,
}

-- A call on `self`, whose status was not set, from the state `e`.
module _ (calls : BuildCalls) (ts : Targets) (self : List ℕ) (apart : Under ts self self → ⊥)
    (e : Engine calls.World) (unset : target_status e self ≡ unchanged) where
  open calls use {World}

  Under-Within : (n : List ℕ) → Under ts self n → Within ts self n
  Under-Within n (d, dep, r) = down dep r

  widened :
      (x : Engine World) → Builds calls (Under ts self) e x → Builds calls (Within ts self) e x
  widened x steps = Builds-wider calls (Under ts self) (Within ts self) Under-Within at_first steps

  still_unset :
      (x : Engine World) → Builds calls (Under ts self) e x → target_status x self ≡ unchanged
  still_unset x steps =
      Steps-frame calls (Under ts self) self apart (Builds-Steps calls (Under ts self) steps)
      ∙ unset

  self_failed :
      (x : Engine World)
      → Builds calls (Under ts self) e x
      → Builds calls (Within ts self) e (set_status self error x)
  self_failed x steps = onward (widened x steps) (broke self here (still_unset x steps))

  without_command-Ends :
      (x : Engine World)
      → Builds calls (Under ts self) e x
      → Ends calls (Within ts self) e (without_command calls self x)
  unfolding without_command
  without_command-Ends x steps =
      go (if x.flags.always_make then keep_exists calls self x else x)
        (not x.flags.always_make || not (exists_of calls x self)) (now x.flags.always_make)
    where
      now : (b : Bool) → Builds calls (Under ts self) e (if b then keep_exists calls self x else x)
      now true = note_exists calls (Under ts self) e x self steps
      now false = steps

      go :
          (y : Engine World) (b : Bool)
          → Builds calls (Under ts self) e y
          → Ends calls
              (Within ts self)
              e
              (if b then (throws (no_rule self), set_status self error y) else (gives unchanged, y))
      go y true s = self_failed y s
      go y false s = widened y s

  conclude-Ends :
      (v : Visit World)
      → Leaves calls ts self e v
      → Ends calls (Within ts self) e (conclude calls self v)
  unfolding conclude build_now
  conclude-Ends (left r x) steps = steps
  conclude-Ends (done must wait x) steps =
      go wait (target_of x.targets self).dep_failed must x.flags.question
        (target_of x.targets self).has_command refl refl
    where
      go :
          (wait bad must ask command : Bool)
          → x.flags.question ≡ ask
          → (target_of x.targets self).has_command ≡ command
          → Ends calls (Within ts self) e (
              if wait
              then (gives running, x)
              else if bad
              then (gives error, set_status self error x)
              else if must
              then (if ask
                  then (throws index_function, x)
                  else if command
                  then start calls self x
                  else without_command calls self x)
              else (gives unchanged, x))
      go true bad must ask command q c = widened x steps
      go false true must ask command q c = self_failed x steps
      go false false false ask command q c = widened x steps
      go false false true true command q c = widened x steps
      go false false true false true q c =
          onward (widened x steps) (launched self here (still_unset x steps) c q)
      go false false true false false q c = without_command-Ends x steps

  -- The rest of the loop.
  abbrev Continues : (Bool → Bool → Engine World → Visit World) → Type 0
  Continues rest =
      (must wait : Bool) (x : Engine World)
      → Builds calls (Under ts self) e x
      → Leaves calls ts self e (rest must wait x)

  failed_dep-Leaves :
      (dep : List ℕ) (must wait : Bool) (rest : Bool → Bool → Engine World → Visit World)
      (x : Engine World)
      → Continues rest
      → Builds calls (Under ts self) e x
      → Leaves calls ts self e (failed_dep self dep must wait rest x)
  unfolding failed_dep
  failed_dep-Leaves dep must wait rest x more steps = go x.flags.keep_going
    where
      go :
          (b : Bool)
          → Leaves calls ts self e (
              if b
              then rest must wait (prune self dep x)
              else left (gives error) (set_status self error x))
      go true =
          more must wait (prune self dep x) (note_pruned calls (Under ts self) e x self dep steps)
      go false = self_failed x steps

  after_dep-Leaves :
      (dep : List ℕ) (must wait : Bool) (rest : Bool → Bool → Engine World → Visit World)
      (out : Reply × Engine World)
      → Continues rest
      → Ends calls (Under ts self) e out
      → Leaves calls ts self e (after_dep calls self dep must wait rest out)
  unfolding after_dep
  after_dep-Leaves dep must wait rest (gives updated, x) more steps =
      more true wait (mark_newer self dep x) (note_newer calls (Under ts self) e x self dep steps)
  after_dep-Leaves dep must wait rest (gives unchanged, x) more steps =
      go (is_older calls self dep x)
    where
      now : Builds calls (Under ts self) e (keep_times calls self dep x)
      now =
          note_time calls (Under ts self) e (keep_time calls self x) dep
            (note_time calls (Under ts self) e x self steps)

      go :
          (b : Bool)
          → Leaves calls ts self e (
              if b
              then rest true wait (mark_newer self dep (keep_times calls self dep x))
              else rest must wait (keep_times calls self dep x))
      go true =
          more true wait _
            (note_newer calls (Under ts self) e (keep_times calls self dep x) self dep now)
      go false = more must wait _ now
  after_dep-Leaves dep must wait rest (gives error, x) more steps =
      if_cases (Leaves calls ts self e) (has x.unprintable dep) (left (throws bad_message) x)
        (failed_dep self dep must wait rest x) (widened x steps)
        (failed_dep-Leaves dep must wait rest x more steps)
  after_dep-Leaves dep must wait rest (throws t, x) more steps =
      failed_dep-Leaves dep must wait rest x more steps
  after_dep-Leaves dep must wait rest (gives running, x) more steps = go (leb x.slots x.count)
    where
      go : (b : Bool) → Leaves calls ts self e (if b then done must true x else rest must true x)
      go true = steps
      go false = more must true x steps
  after_dep-Leaves dep must wait rest (unfinished, x) more steps = widened x steps

  -- `bring` is made of steps at and below the dependencies.
  visit-Leaves :
      (bring : List ℕ → Engine World → Reply × Engine World) (deps : List (List ℕ))
      → ((d : List ℕ)
          → Memᴰ d deps
          → (x : Engine World) → Builds calls (Under ts self) e x
          → Ends calls (Under ts self) e (bring d x))
      → (must wait : Bool) (x : Engine World) → Builds calls (Under ts self) e x
      → Leaves calls ts self e (visit calls bring self deps must wait x)
  unfolding visit
  visit-Leaves bring [] brings must wait x steps = steps
  visit-Leaves bring (dep ∷ deps) brings must wait x steps =
      after_dep-Leaves dep must wait (visit calls bring self deps) (bring dep x)
        (visit-Leaves bring deps (λ d m. brings d (Memᴰ.tail m)))
        (brings dep (Memᴰ.head refl) x steps)

  opened-Steps : Builds calls (Under ts self) e (opened calls self e)
  opened-Steps = go e.flags.always_make
    where
      go : (b : Bool) → Builds calls (Under ts self) e (if b then e else keep_exists calls self e)
      go true = at_first
      go false = note_exists calls (Under ts self) e e self at_first

  build_target-Ends :
      (bring : List ℕ → Engine World → Reply × Engine World)
      → Grows ts e.targets
      → ((d : List ℕ)
          → IsDep ts d self
          → (x : Engine World) → Grows ts x.targets
          → Ends calls (Within ts d) x (bring d x))
      → Ends calls (Within ts self) e (build_target calls bring self e)
  unfolding build_target
  build_target-Ends bring grows brings = conclude-Ends _ (
      visit-Leaves bring (target_of e.targets self).deps
        (λ d m x steps.
          let dep : IsDep ts d self = deps_of_Grows ts e.targets grows self d m in
          go d dep x steps (bring d x) (
            brings d dep x (
              Grows-trans ts e.targets x.targets grows
                (Steps-Grows calls (Under ts self) (Builds-Steps calls (Under ts self) steps)))))
        (needed calls self e) false (opened calls self e) opened-Steps)
    where
      go :
          (d : List ℕ) (dep : IsDep ts d self) (x : Engine World)
          → Builds calls (Under ts self) e x
          → (out : Reply × Engine World) → Ends calls (Within ts d) x out
          → Ends calls (Under ts self) e out
      go d dep x steps (r, y) more =
          Builds-wider calls (Within ts d) (Under ts self) (λ n r'. (d, dep, r')) steps more

-- A call of `bring_up_to_date`, with any fuel, on targets without a cycle is made of steps on the target and
-- on those below it.
pub bring_up_to_date-Builds :
    (calls : BuildCalls) (ts : Targets)
    → Acyclic ts
    → (fuel : ℕ) (self : List ℕ) (e : Engine calls.World) → Grows ts e.targets
    → Builds calls (Within ts self) e (bring_up_to_date calls fuel self e).1
unfolding bring_up_to_date
bring_up_to_date-Builds calls ts wf zero self e grows = at_first
bring_up_to_date-Builds calls ts wf (suc fuel) self e grows =
    go (target_status e self) refl (λ d dep x g. bring_up_to_date-Builds calls ts wf fuel d x g)
  where
    go :
        (s : Status)
        → target_status e self ≡ s
        → ((d : List ℕ)
            → IsDep ts d self
            → (x : Engine calls.World) → Grows ts x.targets
            → Ends calls (Within ts d) x (bring_up_to_date calls fuel d x))
        → Builds calls
            (Within ts self)
            e
            (unless_settled calls s (build_target calls (bring_up_to_date calls fuel) self e) e).1
    go unchanged same brings =
        build_target-Ends calls ts self
          (λ under. not_above ts self (wf.apply self) under.0 under.1 under.2) e same
          (bring_up_to_date calls fuel) grows brings
    go updated same brings = at_first
    go running same brings = at_first
    go error same brings = at_first

pub bring_up_to_date-Steps :
    (calls : BuildCalls) (ts : Targets)
    → Acyclic ts
    → (fuel : ℕ) (self : List ℕ) (e : Engine calls.World) → Grows ts e.targets
    → Steps calls (Within ts self) e (bring_up_to_date calls fuel self e).1
bring_up_to_date-Steps calls ts wf fuel self e grows =
    Builds-Steps calls (Within ts self) (bring_up_to_date-Builds calls ts wf fuel self e grows)
