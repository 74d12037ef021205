-- ===== src/Build/Rests.antt =====
-- lua/mkinit.lua, `bring_up_to_date` without keep_going: proofs that what runs is waited for.
use mathlib.Core.List.{Memᴰ}
use mathlib.Core.List.Memᴰ
use presto_build.Base.{
  ℕ, ◌+◌, ◌≡◌, ◌≢◌, ◌⊎◌, inl, inr, refl, sym, ap, ◌∙◌, subst, some, List, [], ◌∷◌, Bool, true,
  false, not, ◌||◌, if◌then◌else◌, map,
}
use presto_build.Build.Target.{
  Status, unchanged, updated, running, error, Targets, target_of, modify,
}
use presto_build.Build.Depends.{insert}
use presto_build.Build.Engine.{
  BuildCalls, Resumed, raised, dead, yielded, Engine, no_rule, index_function, Reply, gives, throws,
  target_status, set_status, after_begin, start, running_jobs, exists_of, timestamp_of, keep_exists,
  keep_time,
}
use presto_build.Build.Update.{Visit, done, left, mark_newer, without_command, build_now, conclude}
use presto_build.Build.Steps.{Steps}
use presto_build.Build.Frames.{Steps-frame, status_after, modify-command}
use presto_build.Build.Within.{Under, keeps_all}
use presto_build.Build.Waits.{
  status_in, Waits, runs, waits, not_settled, Waits-written, deps-modify,
}
use presto_build.Build.Waiting.{IsWaited, Waited, IsWaiting, HasVisited, IsWaiting-note}

-- A call on `self`, whose status was not set, from the state `e`.
module _ (calls : BuildCalls) (ts : Targets) (self : List ℕ) (apart : Under ts self self → ⊥)
    (e : Engine calls.World) (unset : target_status e self ≡ unchanged) where
  open calls use {World, begin}

  pub note_exists :
      (rest : List (List ℕ)) (wait : Bool) (x : Engine World)
      → IsWaiting calls ts self e rest wait x
      → IsWaiting calls ts self e rest wait (keep_exists calls self x)
  note_exists rest wait x =
      IsWaiting-note calls ts self e rest wait x self _
        (keeps_all (λ t. record t { known_exists = some (exists_of calls x self) })
          (λ t. ((λ f. f), λ d m. m)) (λ t. refl) (λ t. refl))
        (λ t. refl)

  pub note_time :
      (rest : List (List ℕ)) (wait : Bool) (x : Engine World) (name : List ℕ)
      → IsWaiting calls ts self e rest wait x
      → IsWaiting calls ts self e rest wait (keep_time calls name x)
  note_time rest wait x name =
      IsWaiting-note calls ts self e rest wait x name _
        (keeps_all (λ t. record t { known_time = some (timestamp_of calls x name) })
          (λ t. ((λ f. f), λ d m. m)) (λ t. refl) (λ t. refl))
        (λ t. refl)

  pub note_newer :
      (rest : List (List ℕ)) (wait : Bool) (x : Engine World) (dep : List ℕ)
      → IsWaiting calls ts self e rest wait x
      → IsWaiting calls ts self e rest wait (mark_newer self dep x)
  note_newer rest wait x dep =
      IsWaiting-note calls ts self e rest wait x self _
        (keeps_all (λ t. record t { deps_newer = insert dep t.deps_newer })
          (λ t. ((λ f. f), λ d m. m)) (λ t. refl) (λ t. refl))
        (λ t. refl)

  still_unset :
      (x : Engine World) → Steps calls (Under ts self) e x → target_status x self ≡ unchanged
  still_unset x steps = Steps-frame calls (Under ts self) self apart steps ∙ unset

  -- After the loop, where nothing runs below the target.
  module _ (x : Engine World) (w : IsWaiting calls ts self e [] false x) where
    alone : (n : List ℕ) → Waits x.targets self n → ⊥
    alone n h = elim (not_settled x.targets self n h) [
      | inl r ↦ cc (still_unset x w.steps, r)
      | inr (u, (d, dep, below)) ↦
          elim ((w.calm refl).0 d (subst (Memᴰ d) (w.same_deps self) dep)) [
            | inl m ↦ Memᴰ.not-nil m
            | inr none_below ↦ none_below n below
          ]
    ]

    unchanged_now : IsWaited self e (gives unchanged) x
    unchanged_now = record {
      no_error = w.no_error;
      same_deps = w.same_deps;
      keeps = w.keeps;
      calm = λ quiet. alone;
      new_runs = λ n h. inl ((w.calm refl).1 n h);
      going = w.going;
      same_goals = w.same_goals;
      some_runs = λ h. cc;
    }

    -- The target was started, and has the status.
    begun :
        (r : Reply) (status : Status) (y : Engine World)
        → (target_of x.targets self).has_command ≡ true
        → y.targets ≡ modify self (λ t. record t { status = status }) x.targets
        → y.flags.keep_going ≡ x.flags.keep_going
        → y.goals ≡ x.goals
        → status ≢ error
        → ((status ≡ running) × (r ≡ gives running)) ⊎ ((status ≡ updated) × (r ≡ gives updated))
        → IsWaited self e r y
    begun r status y command same flags goals good kind = record {
      no_error = λ n.
          subst (λ us. status_in us n ≢ error) (sym same)
            (λ h. elim (status_after self n status x.targets) [
              | inl (at, inl is) ↦ good (sym is ∙ h)
              | inl (at, inr is) ↦ cc (is, h)
              | inr (other, is) ↦ w.no_error n (sym is ∙ h)
            ]);
      same_deps = λ n.
          subst (λ us. (target_of us n).deps ≡ (target_of e.targets n).deps) (sym same)
            (deps-modify self n (λ t. record t { status = status }) x.targets (λ t. refl)
              ∙ w.same_deps n);
      keeps = λ g n h.
          subst (λ us. Waits us g n) (sym same)
            (Waits-written x.targets self status alone
              (λ d a. subst (Memᴰ d) (
                sym (deps-modify self a (λ t. record t { status = status }) x.targets (λ t. refl))))
              g n (w.keeps g n h));
      calm = λ quiet n h. elim kind [
        | inl (is, reply) ↦ quiet reply
        | inr (is, reply) ↦ elim (not_settled y.targets self n h) [
          | inl r' ↦ cc (now, is, r')
          | inr (u, more) ↦ cc (now, is, u)
        ]
      ];
      new_runs = λ n h. elim (status_after self n status x.targets) [
        | inl (at, is) ↦ elim kind [
          | inl (runs_now, reply) ↦
              inr (subst (λ m. Waits y.targets self m) (sym at) (runs (now ∙ runs_now)))
          | inr (is_updated, reply) ↦ cc (ap (status_in y.targets) at, now, is_updated, h)
        ]
        | inr (other, is) ↦
            inl ((w.calm refl).1 n (sym is ∙ ap (λ us. status_in us n) (sym same) ∙ h))
      ];
      going = flags ∙ w.going;
      same_goals = goals ∙ w.same_goals;
      some_runs =
          λ h. elim kind [ inl (is, reply) ↦ (self, now ∙ is) | inr (is, reply) ↦ cc (reply, h) ];
    }
      where
        now : status_in y.targets self ≡ status
        now = ap (λ us. status_in us self) same ∙ modify-command self status x.targets command

    after_begin-Waited :
        (back : Resumed) (y : Engine World)
        → (target_of x.targets self).has_command ≡ true
        → y.targets ≡ x.targets
        → y.flags.keep_going ≡ x.flags.keep_going
        → y.goals ≡ x.goals
        → Waited self e (after_begin self back y)
    unfolding after_begin
    after_begin-Waited (raised printed) y command same flags goals good = absurd good
    after_begin-Waited dead y command same flags goals good =
        begun (gives updated) updated (set_status self updated y) command
          (ap (modify self (λ t. record t { status = updated })) same) flags goals (λ h. cc)
          (inr (refl, refl))
    after_begin-Waited (yielded handle) y command same flags goals good =
        begun (gives running) running (after_begin self (yielded handle) y).1 command
          (ap (modify self (λ t. record t { status = running })) same) flags goals (λ h. cc)
          (inl (refl, refl))

    start-Waited :
        (target_of x.targets self).has_command ≡ true → Waited self e (start calls self x)
    unfolding start
    start-Waited command =
        let (back, world) = begin self (x.pos + 1) x.world in
        after_begin-Waited back
          (record x {
            pos = x.pos + 1;
            world = world;
            started =
                record {
                  target = self;
                  jobs_before = running_jobs x.jobs;
                  deps_before = map (target_status x) (target_of x.targets self).deps;
                }
                ∷ x.started;
          })
          command refl refl refl

  without_command-Waited :
      (x : Engine World)
      → IsWaiting calls ts self e [] false x
      → Waited self e (without_command calls self x)
  unfolding without_command
  without_command-Waited x w =
      go (if x.flags.always_make then keep_exists calls self x else x)
        (not x.flags.always_make || not (exists_of calls x self)) (now x.flags.always_make)
    where
      now :
          (b : Bool)
          → IsWaiting calls ts self e [] false (if b then keep_exists calls self x else x)
      now true = note_exists [] false x w
      now false = w

      go :
          (y : Engine World) (b : Bool)
          → IsWaiting calls ts self e [] false y
          → Waited self e
              (if b then (throws (no_rule self), set_status self error y) else (gives unchanged, y))
      go y true v good = absurd good
      go y false v good = unchanged_now y v

  waiting_now :
      (x : Engine World) → IsWaiting calls ts self e [] true x → IsWaited self e (gives running) x
  waiting_now x w = record {
    no_error = w.no_error;
    same_deps = w.same_deps;
    keeps = w.keeps;
    calm = λ quiet. absurd (quiet refl);
    new_runs = λ n h. elim (w.new_runs n h) [
      | inl old ↦ inl old
      | inr (d, dep, below) ↦
          inr (waits (still_unset x w.steps) (subst (Memᴰ d) (sym (w.same_deps self)) dep) below)
    ];
    going = w.going;
    same_goals = w.same_goals;
    some_runs = λ h. w.some_runs refl;
  }

  pub conclude-Waited :
      (v : Visit World) → HasVisited calls ts self e v → Waited self e (conclude calls self v)
  unfolding conclude build_now
  conclude-Waited (left r x) bad = λ good. absurd (bad good)
  conclude-Waited (done must wait x) w =
      go wait (target_of x.targets self).dep_failed must x.flags.question
        (target_of x.targets self).has_command refl w
    where
      go :
          (wait bad must ask command : Bool)
          → (target_of x.targets self).has_command ≡ command
          → IsWaiting calls ts self e [] wait x
          → Waited self e (
              if wait
              then (gives running, x)
              else if bad
              then (gives error, set_status self error x)
              else if must
              then (if ask
                  then (throws index_function, x)
                  else if command
                  then start calls self x
                  else without_command calls self x)
              else (gives unchanged, x))
      go true bad must ask command c v good = waiting_now x v
      go false true must ask command c v good = absurd good
      go false false false ask command c v good = unchanged_now x v
      go false false true true command c v good = absurd good
      go false false true false true c v good = start-Waited x v c good
      go false false true false false c v good = without_command-Waited x v good
