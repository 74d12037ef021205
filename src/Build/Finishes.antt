-- ===== src/Build/Finishes.antt =====
-- lua/mkinit.lua, `make.update_goals_p` without keep_going: proofs on the goals, and on what runs for them.
use presto_build.Build.Depends.{has}
use mathlib.Core.List.{Memᴰ}
use presto_build.Base.{
  if_cases, ℕ, ◌≡◌, ◌≢◌, ◌⊎◌, inl, inr, refl, sym, ap, ◌∙◌, subst, leb, List, [], ◌∷◌, Bool, true,
  false, Bool-cases, same_text, if◌then◌else◌,
}
use presto_build.Build.Target.{has_backslash, unchanged, updated, running, error}
use presto_build.Build.Cycles.{Acyclic}
use presto_build.Build.Engine.{BuildCalls, Engine, Reply, gives, throws, unfinished}
use presto_build.Build.Update.{remove, bring_up_to_date}
use presto_build.Build.Jobs.{Went, goes, stops, runs_out, and_then, dispatch}
use presto_build.Build.Goals.{settle, after_goal, visit_goal, visit_goals, end_state}
use presto_build.Build.Grows.{remove-less}
use presto_build.Build.Spends.{remove-other}
use presto_build.Build.Steps.{Steps, later, asked, Steps-wider}
use presto_build.Build.Frames.{Steps-Grows}
use presto_build.Build.Busy.{IsBusy, Steps-IsBusy}
use presto_build.Build.Within.{Within}
use presto_build.Build.Refines.{bring_up_to_date-Steps}
use presto_build.Build.Runs.{Anywhere, Reached, dispatch-RanTo}
use presto_build.Build.Waits.{status_in, Waits, NoError, Steps-flags}
use presto_build.Build.Waiting.{IsGood, IsWaited}
use presto_build.Build.Settles.{bring_up_to_date-Waited}
use presto_build.Build.Lessens.{
  Shrinks-refl, Waits-Shrinks, NoError-Shrinks, Never, Shrunk, dispatch-Shrunk,
}

-- No goal is there twice.
abbrev pub Unique : List (List ℕ) → Type 0
Unique [] = Unit
Unique (g ∷ gs) = (Memᴰ g gs → ⊥) × Unique gs

Unique-remove : (name : List ℕ) (gs : List (List ℕ)) → Unique gs → Unique (remove name gs)
Unique-remove name [] u = u
Unique-remove name (x ∷ gs) (first, u) = elim (Bool-cases (same_text x name)) [
  | inl e ↦ rw e (Unique-remove name gs u)
  | inr e ↦ rw e ((λ m. first (remove-less name x gs m)), Unique-remove name gs u)
]

-- A run from `start`, whose targets have no cycle.
module _ (calls : BuildCalls) (begun : Engine calls.World) (wf : Acyclic begun.targets)
    (busy : IsBusy begun) where
  open calls use {World}

  -- Nothing has failed, and each target that runs is waited for by a goal.
  pub record IsOnWay (x : Engine World) : Type 0 where
    pub reached : Reached calls begun wf busy x
    pub no_error : NoError x.targets
    pub going : x.flags.keep_going ≡ false
    pub unique : Unique x.goals
    pub waited :
        (n : List ℕ)
        → status_in x.targets n ≡ running
        → (g : List ℕ) × Memᴰ g x.goals × Waits x.targets g n

  abbrev pub OnWay : {A : Type 0} → Went World A → Type 0
  OnWay (goes a x) = IsOnWay x
  OnWay (stops x) = Unit
  OnWay (runs_out x) = Unit

  and_then-OnWay :
      {A B : Type 0} (w : Went World A) (f : A → Engine World → Went World B)
      → OnWay w
      → ((a : A) (x : Engine World) → IsOnWay x → OnWay (f a x))
      → OnWay (and_then w f)
  and_then-OnWay (goes a x) f way keeps = keeps a x way
  and_then-OnWay (stops x) f way keeps = tt
  and_then-OnWay (runs_out x) f way keeps = tt

  -- A goal that is there was brought up to date.
  module _ (goal : List ℕ) (x : Engine World) (way : IsOnWay x) (mem : Memᴰ goal x.goals)
      (r : Reply) (y : Engine World) (steps : Steps calls (Within begun.targets goal) x y)
      (w : IsWaited goal x r y) where
    goals : y.goals ≡ x.goals
    goals = w.same_goals

    all : Reached calls begun wf busy y
    all = Steps-wider calls (Within begun.targets goal) Anywhere (λ n h. tt) way.reached steps

    goal_waits : IsOnWay y
    goal_waits = record {
      reached = all;
      no_error = w.no_error;
      going = w.going;
      unique = subst Unique (sym goals) way.unique;
      waited = λ n h. elim (w.new_runs n h) [
        | inl old ↦
            let (g, its, below) = way.waited n old in
            (g, subst (Memᴰ g) (sym goals) its, w.keeps g n below)
        | inr new ↦ (goal, subst (Memᴰ goal) (sym goals) mem, new)
      ];
    }

    goal_settled : r ≢ gives running → IsOnWay (settle goal y)
    goal_settled quiet = record {
      reached = later all (asked (remove goal y.goals));
      no_error = w.no_error;
      going = w.going;
      unique = Unique-remove goal y.goals (subst Unique (sym goals) way.unique);
      waited = λ n h. elim (w.new_runs n h) [
        | inl old ↦
            let (g, its, below) = way.waited n old in
            (
              g,
              remove-other goal g y.goals
                  (λ same.
                    w.calm quiet n (subst (λ v. Waits y.targets v n) same (w.keeps g n below)))
                  (subst (Memᴰ g) (sym goals) its),
              w.keeps g n below,
            )
        | inr new ↦ absurd (w.calm quiet n new)
      ];
    }

  -- The goals that are still to come are there.
  abbrev pub AllThere : List (List ℕ) → Engine World → Type 0
  AllThere gs x = (g : List ℕ) → Memᴰ g gs → Memᴰ g x.goals

  abbrev pub OnWayWith : List (List ℕ) → Went World Unit → Type 0
  OnWayWith rest (goes u y) = IsOnWay y × AllThere rest y
  OnWayWith rest (stops y) = Unit
  OnWayWith rest (runs_out y) = Unit

  Never-OnWay :
      (w : Went World Unit) (goal : List ℕ) (rest : List (List ℕ))
      → Never w
      → OnWayWith rest (and_then w (λ u z. goes tt (settle goal z)))
  Never-OnWay (goes u y) goal rest never = absurd never
  Never-OnWay (stops y) goal rest never = tt
  Never-OnWay (runs_out y) goal rest never = tt

  module _ (exit : Engine World → Went World Unit)
      (never : (z : Engine World) → z.flags.keep_going ≡ false → Never (exit z)) (goal : List ℕ)
      (rest : List (List ℕ)) (new : Memᴰ goal rest → ⊥) (x : Engine World) (way : IsOnWay x)
      (there : AllThere (goal ∷ rest) x) (y : Engine World)
      (steps : Steps calls (Within begun.targets goal) x y) where
    mem : Memᴰ goal x.goals
    mem = there goal (Memᴰ.head refl)

    off : y.flags.keep_going ≡ false
    off = ap (λ f. f.keep_going) (Steps-flags calls (Within begun.targets goal) steps) ∙ way.going

    others : y.goals ≡ x.goals → AllThere rest (settle goal y)
    others same g m =
        remove-other goal g y.goals (λ e. new (subst (λ v. Memᴰ v rest) e m))
          (subst (Memᴰ g) (sym same) (there g (Memᴰ.tail m)))

    pub after_goal-OnWay :
        (r : Reply)
        → (IsGood r → IsWaited goal x r y)
        → OnWayWith rest (after_goal exit goal (r, y))
    unfolding after_goal
    after_goal-OnWay (gives unchanged) w = (
      goal_settled goal x way mem (gives unchanged) y steps (w tt) (λ h. cc),
      others (w tt).same_goals,
    )
    after_goal-OnWay (gives updated) w = (
      goal_settled goal x way mem (gives updated) y steps (w tt) (λ h. cc),
      others (w tt).same_goals,
    )
    after_goal-OnWay (gives running) w = (
      goal_waits goal x way mem (gives running) y steps (w tt),
      λ g m. subst (Memᴰ g) (sym (w tt).same_goals) (there g (Memᴰ.tail m)),
    )
    after_goal-OnWay (gives error) w =
        if_cases (OnWayWith rest) (has y.unprintable goal) (stops y) _ tt
          (Never-OnWay (exit y) goal rest (never y off))
    after_goal-OnWay (throws t) w = Never-OnWay (exit y) goal rest (never y off)
    after_goal-OnWay unfinished w = tt

  pub visit_goals-OnWay :
      (exit : Engine World → Went World Unit) (fuel : ℕ) (gs : List (List ℕ))
      → ((z : Engine World) → z.flags.keep_going ≡ false → Never (exit z))
      → Unique gs
      → (x : Engine World) → IsOnWay x
      → AllThere gs x
      → OnWay (visit_goals exit (bring_up_to_date calls fuel) gs x)
  unfolding visit_goals
  visit_goals-OnWay exit fuel [] never u x way there = way
  visit_goals-OnWay exit fuel (goal ∷ gs) never (new, u) x way there =
      let (r, y) = bring_up_to_date calls fuel goal x in
      let grows = Steps-Grows calls Anywhere way.reached in
      go (visit_goal exit (bring_up_to_date calls fuel) goal x)
        (if_cases (OnWayWith gs) (has_backslash goal) (stops x) (after_goal exit goal (r, y)) tt (
          after_goal-OnWay exit never goal gs new x way there y
            (bring_up_to_date-Steps calls begun.targets wf fuel goal x grows) r
            (bring_up_to_date-Waited calls begun.targets wf fuel goal x grows way.no_error
              way.going)))
        (visit_goals-OnWay exit fuel gs never u)
    where
      go :
          (w : Went World Unit)
          → OnWayWith gs w
          → ((z : Engine World)
              → IsOnWay z
              → AllThere gs z
              → OnWay (visit_goals exit (bring_up_to_date calls fuel) gs z))
          → OnWay (
              and_then w (λ u z.
                if leb z.slots z.count
                then goes tt z
                else visit_goals exit (bring_up_to_date calls fuel) gs z))
      go (stops z) fine more = tt
      go (runs_out z) fine more = tt
      go (goes u z) (way', there') more = branch (leb z.slots z.count)
        where
          branch :
              (full : Bool)
              → OnWay
                  (if full then goes tt z else visit_goals exit (bring_up_to_date calls fuel) gs z)
          branch true = way'
          branch false = more z way' there'

  pub dispatch-OnWay : (fuel : ℕ) (x : Engine World) → IsOnWay x → OnWay (dispatch calls fuel x)
  dispatch-OnWay fuel x way =
      go (dispatch calls fuel x) (dispatch-RanTo calls begun wf busy fuel x way.reached) (
        dispatch-Shrunk calls x way.going fuel x (Shrinks-refl x)
          (Steps-IsBusy calls Anywhere way.reached busy))
    where
      go :
          (w : Went World Unit)
          → Reached calls begun wf busy (end_state w)
          → Shrunk calls x way.going w
          → OnWay w
      go (stops y) r s = tt
      go (runs_out y) r s = tt
      go (goes u y) r (s, busy') = record {
        reached = r;
        no_error = NoError-Shrinks x y s way.no_error;
        going = ap (λ f. f.keep_going) s.same_flags ∙ way.going;
        unique = subst Unique (sym s.same_goals) way.unique;
        waited = λ n h.
            let (g, its, below) = way.waited n (ran n h (s.status n)) in
            (g, subst (Memᴰ g) (sym s.same_goals) its, Waits-Shrinks x y s g n h below);
      }
        where
          ran :
              (n : List ℕ)
              → status_in y.targets n ≡ running
              → (status_in y.targets n ≡ status_in x.targets n)
                ⊎ (status_in x.targets n ≡ running) × (status_in y.targets n ≡ updated)
              → status_in x.targets n ≡ running
          ran n h (inl same) = sym same ∙ h
          ran n h (inr (old, now)) = old
