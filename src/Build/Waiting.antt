-- ===== src/Build/Waiting.antt =====
-- lua/mkinit.lua, `bring_up_to_date` without keep_going: what a call, and its loop, leave of the targets that wait.
use mathlib.Core.List.{Memᴰ}
use mathlib.Core.List.Memᴰ
use presto_build.Base.{
  ℕ, ◌≡◌, ◌≢◌, ◌⊎◌, inl, inr, sym, ◌∙◌, subst, List, [], ◌∷◌, Bool, true, false,
}
use presto_build.Build.Target.{unchanged, updated, running, error, Target, Targets, target_of}
use presto_build.Build.Cycles.{IsDep}
use presto_build.Build.Engine.{BuildCalls, Engine, Reply, gives, throws, unfinished, write}
use presto_build.Build.Update.{Visit, done, left}
use presto_build.Build.Steps.{IsNote, noted, Steps, later}
use presto_build.Build.Frames.{modify-note}
use presto_build.Build.Within.{Under, Within}
use presto_build.Build.Waits.{
  status_in, Waits, runs, runs_below, Waits-later, Waits-note, deps-modify, NoError, Steps-unset,
}

-- The reply is neither an error nor fuel that ran out.
abbrev pub IsGood : Reply → Type 0
IsGood (gives unchanged) = Unit
IsGood (gives updated) = Unit
IsGood (gives running) = Unit
IsGood (gives error) = ⊥
IsGood (throws t) = ⊥
IsGood unfinished = ⊥

-- Some target runs.
abbrev pub SomeRuns : {W : Type 0} → Engine W → Type 0
SomeRuns x = (n : List ℕ) × (status_in x.targets n ≡ running)

-- A call on `self` from `e`: what waited still waits, a target has come to run only where `self` waits for it,
-- and `self` waits for none where the reply is not `running`.
pub record IsWaited {W : Type 0} (self : List ℕ) (e : Engine W) (r : Reply) (e' : Engine W)
    : Type 0 where
  pub no_error : NoError e'.targets
  pub same_deps : (n : List ℕ) → (target_of e'.targets n).deps ≡ (target_of e.targets n).deps
  pub keeps : (g n : List ℕ) → Waits e.targets g n → Waits e'.targets g n
  pub calm : r ≢ gives running → (n : List ℕ) → Waits e'.targets self n → ⊥
  pub new_runs :
      (n : List ℕ)
      → status_in e'.targets n ≡ running
      → (status_in e.targets n ≡ running) ⊎ Waits e'.targets self n
  pub going : e'.flags.keep_going ≡ false
  pub same_goals : e'.goals ≡ e.goals
  pub some_runs : r ≡ gives running → SomeRuns e'

abbrev pub Waited : {W : Type 0} → List ℕ → Engine W → Reply × Engine W → Type 0
Waited self e (r, e') = IsGood r → IsWaited self e r e'

module _ (calls : BuildCalls) (ts : Targets) (self : List ℕ) (e : Engine calls.World) where
  open calls use {World}

  -- The loop over the dependencies, of which `rest` are to come.
  pub record IsWaiting (rest : List (List ℕ)) (wait : Bool) (x : Engine World) : Type 0 where
    pub steps : Steps calls (Under ts self) e x
    pub no_error : NoError x.targets
    pub same_deps : (n : List ℕ) → (target_of x.targets n).deps ≡ (target_of e.targets n).deps
    pub keeps : (g n : List ℕ) → Waits e.targets g n → Waits x.targets g n
    pub calm :
        wait ≡ false
        → ((d : List ℕ)
            → IsDep e.targets d self
            → Memᴰ d rest ⊎ ((n : List ℕ) → Waits x.targets d n → ⊥))
          × ((n : List ℕ) → status_in x.targets n ≡ running → status_in e.targets n ≡ running)
    pub new_runs :
        (n : List ℕ)
        → status_in x.targets n ≡ running
        → (status_in e.targets n ≡ running)
          ⊎ ((d : List ℕ) × IsDep e.targets d self × Waits x.targets d n)
    pub going : x.flags.keep_going ≡ false
    pub same_goals : x.goals ≡ e.goals
    pub some_runs : wait ≡ true → SomeRuns x

  abbrev pub HasVisited : Visit World → Type 0
  HasVisited (done must wait x) = IsWaiting [] wait x
  HasVisited (left r x) = IsGood r → ⊥

  -- A note on a target that leaves its dependencies.
  pub IsWaiting-note :
      (rest : List (List ℕ)) (wait : Bool) (x : Engine World) (name : List ℕ) (f : Target → Target)
      → IsNote f
      → ((t : Target) → (f t).deps ≡ t.deps)
      → IsWaiting rest wait x
      → IsWaiting rest wait (write name f x)
  IsWaiting-note rest wait x name f note deps w =
      let there = λ (g n : List ℕ). (Waits-note name f x.targets note.keeps_status deps g n).0 in
      let back = λ (g n : List ℕ). (Waits-note name f x.targets note.keeps_status deps g n).1 in
      let same = λ (n : List ℕ). modify-note name n f x.targets note.keeps_status in
      record {
        steps = later w.steps (noted name f note);
        no_error = λ n h. w.no_error n (sym (same n) ∙ h);
        same_deps = λ n. deps-modify name n f x.targets deps ∙ w.same_deps n;
        keeps = λ g n h. there g n (w.keeps g n h);
        calm = λ none_waits.
            let (visited, old) = w.calm none_waits in
            (
              (λ d dep. elim (visited d dep) [
                | inl m ↦ inl m
                | inr alone ↦ inr (λ n h. alone n (back d n h))
              ]),
              λ n h. old n (sym (same n) ∙ h),
            );
        new_runs = λ n h. elim (w.new_runs n (sym (same n) ∙ h)) [
          | inl old ↦ inl old
          | inr (d, dep, below) ↦ inr (d, dep, there d n below)
        ];
        going = w.going;
        same_goals = w.same_goals;
        some_runs = λ h. let (n, ran) = w.some_runs h in (n, same n ∙ ran);
      }

  -- A dependency was brought up to date, and neither runs nor failed.
  pub IsWaiting-calm :
      (dep : List ℕ) (rest : List (List ℕ)) (wait : Bool) (x y : Engine World) (r : Reply)
      → IsWaiting (dep ∷ rest) wait x
      → Steps calls (Within ts dep) x y
      → Steps calls (Under ts self) e y
      → r ≢ gives running
      → IsWaited dep x r y
      → IsWaiting rest wait y
  IsWaiting-calm dep rest wait x y r w call all quiet done_with = record {
    steps = all;
    no_error = done_with.no_error;
    same_deps = λ n. done_with.same_deps n ∙ w.same_deps n;
    keeps = λ g n h. done_with.keeps g n (w.keeps g n h);
    calm = λ none_waits.
        let (visited, old) = w.calm none_waits in
        (
          (λ d is_dep. elim (visited d is_dep) [
            | inl m ↦ elim (Memᴰ.cases_cons m) [
              | inl same ↦
                  inr (λ n h. done_with.calm quiet n (subst (λ v. Waits y.targets v n) same h))
              | inr more ↦ inl more
            ]
            | inr alone ↦ inr (λ n h. alone n (back d n h))
          ]),
          λ n h. old n (ran n h),
        );
    new_runs = λ n h. elim (w.new_runs n (ran n h)) [
      | inl old ↦ inl old
      | inr (d, is_dep, below) ↦ inr (d, is_dep, done_with.keeps d n below)
    ];
    going = done_with.going;
    same_goals = done_with.same_goals ∙ w.same_goals;
    some_runs =
        λ h. let (n, was) = w.some_runs h in (n, runs_below (done_with.keeps n n (runs was)));
  }
    where
      ran : (n : List ℕ) → status_in y.targets n ≡ running → status_in x.targets n ≡ running
      ran n h = elim (done_with.new_runs n h) [
        | inl old ↦ old
        | inr new ↦ absurd (done_with.calm quiet n new)
      ]

      back : (g n : List ℕ) → Waits y.targets g n → Waits x.targets g n
      back =
          Waits-later y.targets x.targets (λ g n h u. Steps-unset calls (Within ts dep) call g u)
            (λ g n h r'. ran g r') (λ d g. subst (Memᴰ d) (done_with.same_deps g))

  -- A dependency runs, or waits.
  pub IsWaiting-running :
      (dep : List ℕ) (rest rest' : List (List ℕ)) (wait : Bool) (x y : Engine World) (r : Reply)
      → IsDep e.targets dep self
      → IsWaiting rest wait x
      → Steps calls (Under ts self) e y
      → r ≡ gives running
      → IsWaited dep x r y
      → IsWaiting rest' true y
  IsWaiting-running dep rest rest' wait x y r is_dep w all reply done_with = record {
    steps = all;
    no_error = done_with.no_error;
    same_deps = λ n. done_with.same_deps n ∙ w.same_deps n;
    keeps = λ g n h. done_with.keeps g n (w.keeps g n h);
    calm = λ h. cc;
    new_runs = λ n h. elim (done_with.new_runs n h) [
      | inl old ↦ elim (w.new_runs n old) [
        | inl first ↦ inl first
        | inr (d, its, below) ↦ inr (d, its, done_with.keeps d n below)
      ]
      | inr new ↦ inr (dep, is_dep, new)
    ];
    going = done_with.going;
    same_goals = done_with.same_goals ∙ w.same_goals;
    some_runs = λ h. done_with.some_runs reply;
  }
