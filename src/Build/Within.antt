-- ===== src/Build/Within.antt =====
-- lua/mkinit.lua, `bring_up_to_date`: the targets that a call may touch, and its notes as steps.
use mathlib.Core.WellFounded.{Acc}
use presto_build.Base.{ℕ, ◌≡◌, refl, sym, subst, some, List, true}
use presto_build.Build.Target.{Target, Targets}
use presto_build.Build.Depends.{insert}
use presto_build.Build.Cycles.{IsDep, Reach, here, down}
use presto_build.Build.Engine.{
  BuildCalls, Engine, Reply, exists_of, timestamp_of, keep_exists, keep_time,
}
use presto_build.Build.Update.{Visit, done, left, remove, mark_newer, prune}
use presto_build.Build.Grows.{remove-less, Tame}
use presto_build.Build.Steps.{IsNote, wrote, Builds, onward}

-- A target that is above a dependency of itself.
below_dep : (ts : Targets) (n d m : List ℕ) → IsDep ts d n → Reach ts n m → Reach ts d m
below_dep ts n d m dep here = down dep here
below_dep ts n d m dep (down up r) = down up (below_dep ts n d _ dep r)

pub not_above :
    (ts : Targets) (n : List ℕ) → Acc (IsDep ts) n → (d : List ℕ) → IsDep ts d n → Reach ts n d → ⊥
not_above ts n acc = elim acc as (λ n _. (d : List ℕ) → IsDep ts d n → Reach ts n d → ⊥) [
  | Acc.intro n (h → ih) ↦ λ d dep r. go n ih d dep d refl r
]
  where
    go :
        (n : List ℕ)
        → ((d : List ℕ) → IsDep ts d n → (x : List ℕ) → IsDep ts x d → Reach ts d x → ⊥)
        → (d : List ℕ) → IsDep ts d n
        → (m : List ℕ) → m ≡ d
        → Reach ts n m
        → ⊥
    go n ih d dep m same here =
        ih n (subst (λ x. IsDep ts x n) (sym same) dep) n (subst (λ x. IsDep ts x n) (sym same) dep)
          here
    go n ih d dep m same (down {d = x} up r) =
        ih d dep x (subst (λ y. IsDep ts x y) same up) (below_dep ts n d x dep r)

-- Below the target.
abbrev pub Under : Targets → List ℕ → List ℕ → Type 0
Under ts self n = (d : List ℕ) × IsDep ts d self × Reach ts n d

-- The target, or below it.
abbrev pub Within : Targets → List ℕ → List ℕ → Type 0
Within ts self n = Reach ts n self

abbrev pub Ends :
    (calls : BuildCalls)
    → (List ℕ → Type 0)
    → Engine calls.World
    → Reply × Engine calls.World
    → Type 0
Ends calls P e (r, e') = Builds calls P e e'

-- The loop ends with steps below the target; where it returns, also with its own.
abbrev pub Leaves :
    (calls : BuildCalls) → Targets → List ℕ → Engine calls.World → Visit calls.World → Type 0
Leaves calls ts self e (done must wait e') = Builds calls (Under ts self) e e'
Leaves calls ts self e (left r e') = Builds calls (Within ts self) e e'

pub keeps_all :
    (f : Target → Target)
    → Tame f
    → ((t : Target) → (f t).status ≡ t.status)
    → ((t : Target) → (f t).has_command ≡ t.has_command)
    → IsNote f
keeps_all f tame status command = record {
  tame = tame;
  keeps_status = status;
  keeps_command = command;
}

module _ (calls : BuildCalls) (P : List ℕ → Type 0) where
  open calls use {World}

  pub note_exists :
      (e x : Engine World) (name : List ℕ)
      → Builds calls P e x
      → Builds calls P e (keep_exists calls name x)
  note_exists e x name steps = onward steps (
      wrote name _ (
        keeps_all (λ t. record t { known_exists = some (exists_of calls x name) })
          (λ t. ((λ f. f), λ d m. m)) (λ t. refl) (λ t. refl)))

  pub note_time :
      (e x : Engine World) (name : List ℕ)
      → Builds calls P e x
      → Builds calls P e (keep_time calls name x)
  note_time e x name steps = onward steps (
      wrote name _ (
        keeps_all (λ t. record t { known_time = some (timestamp_of calls x name) })
          (λ t. ((λ f. f), λ d m. m)) (λ t. refl) (λ t. refl)))

  pub note_newer :
      (e x : Engine World) (self dep : List ℕ)
      → Builds calls P e x
      → Builds calls P e (mark_newer self dep x)
  note_newer e x self dep steps = onward steps (
      wrote self _ (
        keeps_all (λ t. record t { deps_newer = insert dep t.deps_newer })
          (λ t. ((λ f. f), λ d m. m)) (λ t. refl) (λ t. refl)))

  pub note_pruned :
      (e x : Engine World) (self dep : List ℕ)
      → Builds calls P e x
      → Builds calls P e (prune self dep x)
  note_pruned e x self dep steps = onward steps (
      wrote self _ (
        keeps_all (λ t. record t { deps = remove dep t.deps; dep_failed = true })
          (λ t. ((λ f. refl), λ d. remove-less dep d t.deps)) (λ t. refl) (λ t. refl)))
