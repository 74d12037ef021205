-- ===== src/Build/Safe.antt =====
-- lua/mkinit.lua, `bring_up_to_date`: what it is for a start to be right, for a state to be safe and for a call
-- to be fine.
use mathlib.Core.List.{Memᴰ}
use mathlib.Core.List.Memᴰ
use presto_build.Base.{
  ℕ, ◌<◌, ◌≤◌, ◌≡◌, ◌⊎◌, inl, inr, sym, subst, ap, ◌∙◌, List, [], ◌∷◌, Bool, true, false,
  Bool-cases, All,
}
use presto_build.Build.Target.{
  Status, unchanged, updated, running, error, Target, target_of, modify,
}
use presto_build.Build.Engine.{
  Start, Engine, Reply, gives, throws, unfinished, target_status, write,
}
use presto_build.Build.Update.{Visit, done, left}
use presto_build.Build.Tally.{IsTally}
use presto_build.Build.Grows.{
  Grows, Grows-trans, Tame, Grows-modify, failed_of_Grows, blocks, Clean, Clean-modify,
}

-- A start was right: a slot was free, and no dependency ran or had failed.
abbrev pub IsRight : ℕ → Start → Type 0
IsRight slots s = (s.jobs_before < slots) × All (λ b. blocks b ≡ false) s.deps_before

-- Every start so far was right, the number of slots is the given one, and `count` counts the running jobs.
pub record IsSafe {W : Type 0} (slots : ℕ) (e : Engine W) : Type 0 where
  pub right : All (IsRight slots) e.started
  pub same_slots : e.slots ≡ slots
  pub tally : IsTally e.jobs e.count e.pos

abbrev pub IsCalm : Reply → Type 0
IsCalm (gives unchanged) = Unit
IsCalm (gives updated) = Unit
IsCalm (gives running) = ⊥
IsCalm (gives error) = ⊥
IsCalm (throws t) = ⊥
IsCalm unfinished = ⊥

-- What a call on the target `self` leaves: a slot is free, or the last one was just taken; and where it
-- ends without a running or a failed target, none has come to run or to fail on the way.
pub record IsFine {W : Type 0} (slots : ℕ) (self : List ℕ) (e : Engine W) (r : Reply)
    (e' : Engine W) : Type 0 where
  pub safe : IsSafe slots e'
  pub room : (e'.count < slots) ⊎ ((r ≡ gives running) × (e'.count ≤ slots))
  pub grows : Grows e.targets e'.targets
  pub calm : IsCalm r → Clean e.targets e'.targets × (blocks (target_status e' self) ≡ false)

-- The loop over the dependencies `all`, of which `rest` are to come.
pub record IsVisiting {W : Type 0} (slots : ℕ) (self : List ℕ) (all rest : List (List ℕ))
    (e : Engine W) (wait : Bool) (e' : Engine W) : Type 0 where
  pub safe : IsSafe slots e'
  pub grows : Grows e.targets e'.targets
  pub covers :
      ((wait ≡ true) ⊎ ((target_of e'.targets self).dep_failed ≡ true))
      ⊎ (Clean e.targets e'.targets
          × ((d : List ℕ) → Memᴰ d all → Memᴰ d rest ⊎ (blocks (target_status e' d) ≡ false)))

abbrev pub IsVisited : {W : Type 0} → ℕ → List ℕ → List (List ℕ) → Engine W → Visit W → Type 0
IsVisited slots self all e (left r e') =
    (IsCalm r → ⊥) × IsSafe slots e' × (e'.count < slots) × Grows e.targets e'.targets
IsVisited slots self all e (done must wait e') =
    IsVisiting slots self all [] e wait e'
    × ((e'.count < slots) ⊎ ((wait ≡ true) × (e'.count ≤ slots)))

pub not_bad : (s : Status) → (blocks s ≡ true → ⊥) → blocks s ≡ false
not_bad s h = elim (Bool-cases (blocks s)) [ inl e ↦ absurd (h e) | inr e ↦ e ]

-- Writes that leave status, dependencies and failure alone.
pub Tame-same :
    (f : Target → Target)
    → ((t : Target) → (f t).dep_failed ≡ t.dep_failed)
    → ((t : Target) → (f t).deps ≡ t.deps)
    → Tame f
Tame-same f failed deps t = ((λ e. failed t ∙ e), λ d m. subst (Memᴰ d) (deps t) m)

module _ {W : Type 0} (slots : ℕ) (self : List ℕ) (all : List (List ℕ)) (e : Engine W) where
  -- After a write to a target in the loop.
  pub IsVisiting-write :
      (rest : List (List ℕ)) (wait : Bool) (e' : Engine W) (name : List ℕ) (f : Target → Target)
      → Tame f
      → ((t : Target) → (f t).status ≡ t.status)
      → IsVisiting slots self all rest e wait e'
      → IsVisiting slots self all rest e wait (write name f e')
  IsVisiting-write rest wait e' name f tame same v =
      let step : Grows e'.targets (modify name f e'.targets) =
        Grows-modify name f e'.targets tame in
      let clean : Clean e'.targets (modify name f e'.targets) =
        Clean-modify name f e'.targets (λ t b. ap blocks (sym (same t)) ∙ b) in
      record {
        safe = record {
          right = v.safe.right;
          same_slots = v.safe.same_slots;
          tally = v.safe.tally;
        };
        grows = Grows-trans e.targets e'.targets (modify name f e'.targets) v.grows step;
        covers = elim v.covers [
          | inl (inl w) ↦ inl (inl w)
          | inl (inr w) ↦
              inl (inr (failed_of_Grows e'.targets (modify name f e'.targets) step self w))
          | inr (c, covered) ↦ inr (
            (λ n b. c n (clean n b)),
            (λ d m. elim (covered d m) [
              | inl k ↦ inl k
              | inr k ↦ inr (not_bad _ (λ b. cc (k, clean d b)))
            ]),
          )
        ];
      }

  -- After a dependency that neither runs nor failed.
  pub IsVisiting-calm :
      (dep : List ℕ) (rest : List (List ℕ)) (wait : Bool) (e' e'' : Engine W) (r : Reply)
      → IsVisiting slots self all (dep ∷ rest) e wait e'
      → IsFine slots dep e' r e''
      → IsCalm r
      → IsVisiting slots self all rest e wait e''
  IsVisiting-calm dep rest wait e' e'' r v fine calm =
      let (clean, good) = fine.calm calm in
      record {
        safe = fine.safe;
        grows = Grows-trans e.targets e'.targets e''.targets v.grows fine.grows;
        covers = elim v.covers [
          | inl (inl w) ↦ inl (inl w)
          | inl (inr w) ↦ inl (inr (failed_of_Grows e'.targets e''.targets fine.grows self w))
          | inr (c, covered) ↦ inr (
            (λ n b. c n (clean n b)),
            (λ d m. elim (covered d m) [
              | inl k ↦ elim (Memᴰ.cases_cons k) [
                | inl same ↦ inr (subst (λ x. blocks (target_status e'' x) ≡ false) (sym same) good)
                | inr later ↦ inl later
              ]
              | inr k ↦ inr (not_bad _ (λ b. cc (k, clean d b)))
            ]),
          )
        ];
      }

  -- After one that runs or failed, where the loop knows it.
  pub IsVisiting-blocks :
      (rest rest' : List (List ℕ)) (wait wait' : Bool) (e' e'' : Engine W)
      → IsVisiting slots self all rest e wait e'
      → IsSafe slots e''
      → Grows e'.targets e''.targets
      → (wait' ≡ true) ⊎ ((target_of e''.targets self).dep_failed ≡ true)
      → IsVisiting slots self all rest' e wait' e''
  IsVisiting-blocks rest rest' wait wait' e' e'' v safe grows known = record {
    safe = safe;
    grows = Grows-trans e.targets e'.targets e''.targets v.grows grows;
    covers = inl known;
  }
