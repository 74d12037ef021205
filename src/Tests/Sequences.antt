-- ===== src/Tests/Sequences.antt =====
-- Runs of the build engine as sequences of steps, on a small set of targets.
use mathlib.Core.List.{Memᴰ}
use mathlib.Core.List.Memᴰ
use mathlib.Core.WellFounded as Founded
use mathlib.Core.WellFounded.{Acc, WellFounded}
use mathlib.Core.WellFounded.Acc
use presto_build.Base.{
  ◌≤◌, All, Bool, true, false, ℕ, ◌≡◌, ◌⊎◌, inl, inr, refl, subst, Bool-cases, none, List, [], ◌∷◌,
  same_text, arith,
}
use presto_build.Build.Target.{unchanged, updated, register, modify, target_of}
use presto_build.Build.Engine.{Engine, start, after_begin, target_status}
use presto_build.Build.Cycles.{IsDep, Acyclic}
use presto_build.Build.Update.{
  bring_up_to_date, build_target, visit, after_dep, failed_dep, conclude, build_now,
  without_command,
}
use presto_build.Build.Jobs.{
  Went, goes, stops, runs_out, dispatch, resume_all, after_round, make_exit, drain, resume_job,
  after_resume,
}
use presto_build.Build.Goals.{update_goals_p, main_loop, visit_goals, after_goal, end_state}
use presto_build.Build.Successes.{update_goals_p-Updated}
use presto_build.Build.Steps.{Steps}
use presto_build.Build.Once.{Distinct}
use presto_build.Build.Busy.{IsBusy}
use presto_build.Build.Runs.{Anywhere}
use presto_build.Build.Chains.{update_goals_p-Steps, update_goals_p-Distinct, update_goals_p-IsBusy}
use presto_build.Build.Spends.{IsClosed}
use presto_build.Build.Terminates.{Finished, update_goals_p-Finished}
use presto_build.Tests.Builds.{calls, engine, rules, tiring_calls, tiring_calls-Tires}

rules-IsDep : (n d : List ℕ) → IsDep rules d n → (d ≡ (b'b' ∷ [])) ⊎ (d ≡ (b'c' ∷ []))
unfolding register
rules-IsDep n d m = elim (Bool-cases (same_text n (b'a' ∷ []))) [
  | inl e ↦ two (rw e at m)
  | inr e ↦ elim (Bool-cases (same_text n (b'b' ∷ []))) [
    | inl e' ↦ absurd (Memᴰ.not-nil (rw (e, e') at m))
    | inr e' ↦ elim (Bool-cases (same_text n (b'c' ∷ []))) [
      | inl e'' ↦ absurd (Memᴰ.not-nil (rw (e, e', e'') at m))
      | inr e'' ↦ absurd (Memᴰ.not-nil (rw (e, e', e'') at m))
    ]
  ]
]
  where
    two : Memᴰ d ((b'b' ∷ []) ∷ (b'c' ∷ []) ∷ []) → (d ≡ (b'b' ∷ [])) ⊎ (d ≡ (b'c' ∷ []))
    two k = elim (Memᴰ.cases_cons k) [
      | inl e ↦ inl e
      | inr l ↦ elim (Memᴰ.cases_cons l) [ inl e ↦ inr e | inr r ↦ absurd (Memᴰ.not-nil r) ]
    ]

rules-Acyclic : Acyclic rules
unfolding register same_text
rules-Acyclic = Founded.intro (λ n. Acc.intro n (λ d m. leaf d (rules-IsDep n d m)))
  where
    leaf : (d : List ℕ) → (d ≡ (b'b' ∷ [])) ⊎ (d ≡ (b'c' ∷ [])) → Acc (IsDep rules) d
    leaf d (inl e) = Acc.intro d (λ x m. absurd (Memᴰ.not-nil (subst (IsDep rules x) e m)))
    leaf d (inr e) = Acc.intro d (λ x m. absurd (Memᴰ.not-nil (subst (IsDep rules x) e m)))

rules-unchanged : (n : List ℕ) → (target_of rules n).status ≡ unchanged
unfolding register
rules-unchanged n = elim (Bool-cases (same_text n (b'a' ∷ []))) [
  | inl e ↦ rw e refl
  | inr e ↦ elim (Bool-cases (same_text n (b'b' ∷ []))) [
    | inl e' ↦ rw (e, e') refl
    | inr e' ↦ elim (Bool-cases (same_text n (b'c' ∷ []))) [
      | inl e'' ↦ rw (e, e', e'') refl
      | inr e'' ↦ rw (e, e', e'') refl
    ]
  ]
]

engine-IsBusy : IsBusy engine
engine-IsBusy = record {
  tally = record { rising = omega arith; counted = refl };
  each = tt;
  matches = λ n. ((λ h. cc (rules-unchanged n, h)), λ absent. absurd absent);
}

update_goals_p-Steps_example :
    Steps calls Anywhere engine (end_state (update_goals_p calls 6 none engine))
update_goals_p-Steps_example = update_goals_p-Steps calls 6 none engine rules-Acyclic engine-IsBusy

update_goals_p-Distinct_example : Distinct (end_state (update_goals_p calls 6 none engine)).started
update_goals_p-Distinct_example =
    update_goals_p-Distinct calls 6 none engine rules-Acyclic engine-IsBusy refl

update_goals_p-IsBusy_example : IsBusy (end_state (update_goals_p calls 6 none engine))
update_goals_p-IsBusy_example =
    update_goals_p-IsBusy calls 6 none engine rules-Acyclic engine-IsBusy

abbrev came_back : {W : Type 0} → Went W Unit → Bool
came_back (goes a e) = true
came_back (stops e) = false
came_back (runs_out e) = false

came_back-goes : {W : Type 0} (r : Went W Unit) → came_back r ≡ true → r ≡ goes tt (end_state r)
came_back-goes (goes tt e) same = refl
came_back-goes (stops e) same = cc same
came_back-goes (runs_out e) same = cc same

engine-came_back : came_back (update_goals_p calls 6 none engine) ≡ true
unfolding update_goals_p main_loop visit_goals after_goal dispatch resume_all after_round make_exit
    drain resume_job after_resume bring_up_to_date build_target visit after_dep failed_dep conclude
    build_now without_command start after_begin modify register same_text
engine-came_back = refl

update_goals_p-Updated_example :
    ((end_state (update_goals_p calls 6 none engine)).goals ≡ [])
    × ((end_state (update_goals_p calls 6 none engine)).jobs ≡ [])
    × ((end_state (update_goals_p calls 6 none engine)).count ≡ 0)
    × All
        (λ s. target_status (end_state (update_goals_p calls 6 none engine)) s.target ≡ updated)
        (end_state (update_goals_p calls 6 none engine)).started
update_goals_p-Updated_example =
    update_goals_p-Updated calls 6 none engine (end_state (update_goals_p calls 6 none engine))
      rules-Acyclic refl ((λ m. Memᴰ.not-nil m), tt) rules-unchanged refl refl refl
      (came_back-goes (update_goals_p calls 6 none engine) engine-came_back)

-- The targets, and all that they depend on.
abbrev all_names : List (List ℕ)
all_names = (b'a' ∷ []) ∷ (b'b' ∷ []) ∷ (b'c' ∷ []) ∷ []

all_names-IsClosed : IsClosed rules all_names
all_names-IsClosed n d m dep = elim (rules-IsDep n d dep) [
  | inl is ↦ Memᴰ.tail (Memᴰ.head is)
  | inr is ↦ Memᴰ.tail (Memᴰ.tail (Memᴰ.head is))
]

-- The commands will yield 3 times.
abbrev tiring_engine : Engine ℕ
tiring_engine = record engine { world = 3 }

update_goals_p-Finished_example :
    (k : ℕ) × ((fuel : ℕ)
      → k ≤ fuel
      → Finished (update_goals_p tiring_calls fuel none tiring_engine))
update_goals_p-Finished_example =
    update_goals_p-Finished tiring_calls (λ world. world) tiring_calls-Tires
      (λ name id world. omega arith) none tiring_engine rules-Acyclic refl
      ((λ m. Memᴰ.not-nil m), tt) rules-unchanged refl refl refl all_names all_names-IsClosed
      (λ g m. elim (Memᴰ.cases_cons m) [
        | inl is ↦ Memᴰ.head is
        | inr absent ↦ absurd (Memᴰ.not-nil absent)
      ])
      (λ g absent. cc absent)
