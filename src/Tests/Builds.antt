-- ===== src/Tests/Builds.antt =====
-- Runs of the build engine, on small sets of targets.
use mathlib.Core.List.{Memᴰ}
use mathlib.Core.List.Memᴰ
use mathlib.Core.WellFounded as Founded
use mathlib.Core.WellFounded.{Acc, WellFounded}
use mathlib.Core.WellFounded.Acc
use presto_build.Base.{
  ℕ, zero, suc, ◌+◌, ◌≤◌, ◌≡◌, ◌⊎◌, inl, inr, refl, subst, sym, Bool-cases, none, some, List, [],
  ◌∷◌, map, same_text, true, false, All, arith,
}
use presto_build.Lua.{ticks}
use presto_build.Build.Target.{
  has_backslash, defined, unchanged, Target, new_target, Targets, modify, register,
}
use presto_build.Build.Depends.{Added, depends_on}
use presto_build.Build.Cycles.{IsDep, Acyclic}
use presto_build.Build.Acyclic.{IsRefused, depends_on-Adds}
use presto_build.Build.Engine.{
  gives, timestamp_of, BuildCalls, Resumed, dead, yielded, Engine, start, after_begin,
}
use presto_build.Build.Goals.{update_goals_p, main_loop, visit_goals, after_goal, end_state}
use presto_build.Build.Safe.{IsRight}
use presto_build.Build.Update.{
  bring_up_to_date, build_target, visit, after_dep, failed_dep, conclude, build_now,
  without_command,
}
use presto_build.Build.Jobs.{
  dispatch, resume_all, after_round, make_exit, drain, resume_job, after_resume,
}
use presto_build.File.Times.{earlier}
use presto_build.Build.Same.{UpToDate, up_to_date}
use presto_build.Build.Complete.{bring_up_to_date-UpToDate}
use presto_build.Build.Tires.{IsTired, Tires, IsDispatched}
use presto_build.Build.Returns.{dispatch-IsDispatched}
use presto_build.Build.Starts.{update_goals_p-IsRight}

abbrev no_rules : Targets
no_rules = λ name. none

no_rules-Acyclic : Acyclic no_rules
no_rules-Acyclic = Founded.intro (λ n. Acc.intro n (λ d m. absurd (Memᴰ.not-nil m)))

-- "a" depends on "b" and on itself.
abbrev looped : List (List ℕ)
looped = (b'b' ∷ []) ∷ (b'a' ∷ []) ∷ []

depends_on-Adds_example :
    (k : ℕ) × (a : Added) × ((fuel : ℕ)
      → k ≤ fuel
      → depends_on fuel (b'a' ∷ []) new_target looped no_rules ≡ some a)
    × Acyclic a.targets
    × (a.raised ≡ false → All (λ name. IsDep a.targets name (b'a' ∷ [])) looped)
    × (a.raised ≡ true
        → ((defined no_rules (b'a' ∷ []) ≡ false) × (has_backslash (b'a' ∷ []) ≡ true))
          ⊎ IsRefused a.targets (b'a' ∷ []) looped)
depends_on-Adds_example =
    depends_on-Adds no_rules (b'a' ∷ []) new_target refl looped no_rules-Acyclic

-- No file exists; each command waits for a process once, and is done when it is resumed.
abbrev pub calls : BuildCalls
calls = record {
  World = ℕ;
  file_exists = λ name world. false;
  file_time = λ name world. ticks false 0;
  beginning_of_time = ticks false 1;
  begin = λ name id world. (yielded true, world);
  resume = λ id world. (dead, world);
  wait = λ ids world. world + 1;
}

abbrev with_deps : List (List ℕ) → Target
with_deps ds = record new_target { deps = ds; has_command = true }

-- "a" depends on "b" and "c".
abbrev pub rules : Targets
rules =
    register (b'a' ∷ []) (with_deps ((b'b' ∷ []) ∷ (b'c' ∷ []) ∷ []))
      (register (b'b' ∷ []) (with_deps []) (register (b'c' ∷ []) (with_deps []) no_rules))

-- One job slot, and the goal "a".
abbrev pub engine : Engine ℕ
engine = record {
  targets = rules;
  jobs = [];
  count = 0;
  slots = 1;
  pos = 0;
  flags = record {
    always_make = false;
    debug = false;
    keep_going = false;
    noisy = false;
    question = false;
    quit = false;
  };
  failure = false;
  goals = (b'a' ∷ []) ∷ [];
  world = 0;
  started = [];
  unprintable = [];
}

-- "b", "c" and "a" are built, in this order.
update_goals_p-started :
    map (λ s. s.target) (end_state (update_goals_p calls 6 none engine)).started
    ≡ ((b'a' ∷ []) ∷ (b'c' ∷ []) ∷ (b'b' ∷ []) ∷ [])
unfolding update_goals_p main_loop visit_goals after_goal dispatch resume_all after_round make_exit
    drain resume_job after_resume bring_up_to_date build_target visit after_dep failed_dep conclude
    build_now without_command start after_begin modify register same_text
update_goals_p-started = refl

update_goals_p-IsRight_example :
    All (IsRight 1) (end_state (update_goals_p calls 6 none engine)).started
update_goals_p-IsRight_example =
    update_goals_p-IsRight calls 6 none engine (omega arith) refl refl refl

-- "a" depends on "b" and "c", which have no rules.
abbrev one_rule : Targets
one_rule = register (b'a' ∷ []) (with_deps ((b'b' ∷ []) ∷ (b'c' ∷ []) ∷ [])) no_rules

one_rule-IsDep : (n d : List ℕ) → IsDep one_rule d n → (d ≡ (b'b' ∷ [])) ⊎ (d ≡ (b'c' ∷ []))
unfolding register
one_rule-IsDep n d m = elim (Bool-cases (same_text n (b'a' ∷ []))) [
  | inl e ↦ go (rw e at m)
  | inr e ↦ absurd (Memᴰ.not-nil (rw e at m))
]
  where
    go : Memᴰ d ((b'b' ∷ []) ∷ (b'c' ∷ []) ∷ []) → (d ≡ (b'b' ∷ [])) ⊎ (d ≡ (b'c' ∷ []))
    go k = elim (Memᴰ.cases_cons k) [
      | inl e ↦ inl e
      | inr l ↦ elim (Memᴰ.cases_cons l) [ inl e ↦ inr e | inr r ↦ absurd (Memᴰ.not-nil r) ]
    ]

one_rule-Acyclic : Acyclic one_rule
unfolding register same_text
one_rule-Acyclic = Founded.intro (λ n. Acc.intro n (λ d m. leaf d (one_rule-IsDep n d m)))
  where
    leaf : (d : List ℕ) → (d ≡ (b'b' ∷ [])) ⊎ (d ≡ (b'c' ∷ [])) → Acc (IsDep one_rule) d
    leaf d (inl e) = Acc.intro d (λ x m. absurd (Memᴰ.not-nil (subst (IsDep one_rule x) e m)))
    leaf d (inr e) = Acc.intro d (λ x m. absurd (Memᴰ.not-nil (subst (IsDep one_rule x) e m)))

-- All files exist, and none is newer than another.
abbrev quiet_calls : BuildCalls
quiet_calls = record calls {
  file_exists = λ name world. true;
  file_time = λ name world. ticks false 7;
}

abbrev quiet_engine : Engine ℕ
quiet_engine = record engine { targets = one_rule }

bring_up_to_date-UpToDate_example :
    (UpToDate quiet_calls quiet_engine (b'a' ∷ [])
      → (k : ℕ) × ((fuel : ℕ)
          → k ≤ fuel
          → (bring_up_to_date quiet_calls fuel (b'a' ∷ []) quiet_engine).0 ≡ gives unchanged))
    × ((fuel : ℕ)
        → (bring_up_to_date quiet_calls fuel (b'a' ∷ []) quiet_engine).0 ≡ gives unchanged
        → UpToDate quiet_calls quiet_engine (b'a' ∷ [])
          × ((bring_up_to_date quiet_calls fuel (b'a' ∷ []) quiet_engine).1.started ≡ []))
bring_up_to_date-UpToDate_example =
    bring_up_to_date-UpToDate quiet_calls quiet_engine (b'a' ∷ []) refl

-- "a" is up to date there: each side of the equivalence can be met.
quiet-UpToDate : UpToDate quiet_calls quiet_engine (b'a' ∷ [])
unfolding register same_text
quiet-UpToDate = up_to_date refl refl refl old (λ d m. leaf d (one_rule-IsDep (b'a' ∷ []) d m))
  where
    leaf :
        (d : List ℕ) → (d ≡ (b'b' ∷ [])) ⊎ (d ≡ (b'c' ∷ [])) → UpToDate quiet_calls quiet_engine d
    leaf d (inl e) = subst (UpToDate quiet_calls quiet_engine) (sym e) (
        up_to_date refl refl refl (λ x m. absurd (Memᴰ.not-nil m)) (λ x m. absurd (Memᴰ.not-nil m)))
    leaf d (inr e) = subst (UpToDate quiet_calls quiet_engine) (sym e) (
        up_to_date refl refl refl (λ x m. absurd (Memᴰ.not-nil m)) (λ x m. absurd (Memᴰ.not-nil m)))

    old :
        (d : List ℕ)
        → IsDep one_rule d (b'a' ∷ [])
        → earlier
            (timestamp_of quiet_calls quiet_engine (b'a' ∷ []))
            (timestamp_of quiet_calls quiet_engine d)
          ≡ false
    old d m = elim (one_rule-IsDep (b'a' ∷ []) d m) [
      | inl e ↦
          subst
            (λ x.
              earlier (timestamp_of quiet_calls quiet_engine (b'a' ∷ []))
                (timestamp_of quiet_calls quiet_engine x)
              ≡ false)
            (sym e) refl
      | inr e ↦
          subst
            (λ x.
              earlier (timestamp_of quiet_calls quiet_engine (b'a' ∷ []))
                (timestamp_of quiet_calls quiet_engine x)
              ≡ false)
            (sym e) refl
    ]

-- The world counts how often the commands will still yield.
abbrev countdown : ℕ → Resumed × ℕ
countdown zero = (dead, 0)
countdown (suc n) = (yielded true, n)

abbrev pub tiring_calls : BuildCalls
tiring_calls = record calls { resume = λ id world. countdown world; wait = λ ids world. world }

pub tiring_calls-Tires : Tires tiring_calls (λ world. world)
tiring_calls-Tires = record { tires = λ id world. tires world; waits = λ ids world. omega arith }
  where
    tires : (n : ℕ) → IsTired ℕ (λ world. world) n (countdown n)
    tires zero = omega arith
    tires (suc n) = omega arith

-- The jobs 1 and 2 run, and the commands will yield 3 times.
abbrev busy_engine : Engine ℕ
busy_engine = record engine {
  jobs = record { id = 1; target = b'b' ∷ [] } ∷ record { id = 2; target = b'c' ∷ [] } ∷ [];
  count = 2;
  pos = 2;
  world = 3;
}

dispatch-IsDispatched_example :
    IsDispatched tiring_calls (λ world. world) busy_engine (dispatch tiring_calls 6 busy_engine)
dispatch-IsDispatched_example =
    dispatch-IsDispatched tiring_calls (λ world. world) tiring_calls-Tires busy_engine
      (record { rising = (omega arith, (omega arith, omega arith)); counted = refl }) 6
      (omega arith)
