-- ===== src/Build/Once.antt =====
-- lua/mkinit.lua: the steps of the build engine; an invariant of the commands that they start.
use presto_build.Base.{ℕ, ◌≡◌, ◌≢◌, refl, ◌∙◌, List, [], ◌∷◌, true, false, subst, sym, ap, All}
use presto_build.Build.Target.{Status, unchanged, updated, running, error, target_of}
use presto_build.Build.Engine.{BuildCalls, Start, Engine, target_status, set_status}
use presto_build.Build.Steps.{
  is_settled, is_final, Move, noted, failed, began, ended, moved, gave_up, asked, Steps, stay,
  later,
}
use presto_build.Build.Frames.{modify-status, modify-command, modify-note, IsStarted, start-Started}

-- No target is the target of two starts.
abbrev pub Distinct : List Start → Type 0
Distinct [] = Unit
Distinct (s ∷ starts) = All (λ r. r.target ≢ s.target) starts × Distinct starts

-- No target was started twice, and the status of each that was started is set.
pub record IsOnce {W : Type 0} (e : Engine W) : Type 0 where
  pub distinct : Distinct e.started
  pub settled : All (λ s. is_settled (target_status e s.target) ≡ true) e.started

final_settled : (s : Status) → is_final s ≡ true → is_settled s ≡ true
final_settled unchanged h = cc
final_settled updated h = refl
final_settled running h = refl
final_settled error h = refl

module _ {W : Type 0} where
  -- Nothing was started, and what was set is set.
  IsOnce-same :
      (x y : Engine W)
      → y.started ≡ x.started
      → ((n : List ℕ)
          → is_settled (target_status x n) ≡ true
          → is_settled (target_status y n) ≡ true)
      → IsOnce x
      → IsOnce y
  IsOnce-same x y same set once = record {
    distinct = subst Distinct (sym same) once.distinct;
    settled =
        subst (All (λ s. is_settled (target_status y s.target) ≡ true)) (sym same)
          (go x.started once.settled);
  }
    where
      go :
          (starts : List Start)
          → All (λ s. is_settled (target_status x s.target) ≡ true) starts
          → All (λ s. is_settled (target_status y s.target) ≡ true) starts
      go [] all = tt
      go (s ∷ starts) (h, all) = (set s.target h, go starts all)

  set_status-settled :
      (x : Engine W) (name : List ℕ) (status : Status)
      → is_settled status ≡ true
      → (n : List ℕ) → is_settled (target_status x n) ≡ true
      → is_settled (target_of (set_status name status x).targets n).status ≡ true
  set_status-settled x name status set n old =
      modify-status (λ s. is_settled s ≡ true) name n status x.targets (λ same. set) old

  -- A target whose status is not set was not started.
  new_start :
      (x : Engine W) (name : List ℕ)
      → is_settled (target_status x name) ≡ false
      → (starts : List Start) → All (λ s. is_settled (target_status x s.target) ≡ true) starts
      → All (λ r. r.target ≢ name) starts
  new_start x name unset [] all = tt
  new_start x name unset (s ∷ starts) (h, all) = (
    (λ same. cc (h, unset, ap (λ n. is_settled (target_status x n)) same)),
    new_start x name unset starts all,
  )

module _ (calls : BuildCalls) where
  open calls use {World}

  start-IsOnce :
      (name : List ℕ) (x y : Engine World)
      → is_settled (target_status x name) ≡ false
      → (target_of x.targets name).has_command ≡ true
      → IsStarted calls name x y
      → IsOnce x
      → IsOnce y
  start-IsOnce name x y unset command s once = record {
    distinct = subst Distinct (sym s.same_started) (
      subst (λ n. All (λ r. r.target ≢ n) x.started) (sym s.first_target)
          (new_start x name unset x.started once.settled),
      once.distinct,
    );
    settled = subst (All Set) (sym s.same_started) (
      subst (λ n. is_settled (target_status y n) ≡ true) (sym s.first_target)
          (subst (λ ts. is_settled (target_of ts name).status ≡ true) (sym s.same_targets)
            (ap is_settled (modify-command name s.status x.targets command) ∙ s.settled)),
      go x.started once.settled,
    );
  }
    where
      Set : Start → Type 0
      Set r = is_settled (target_status y r.target) ≡ true

      go :
          (starts : List Start)
          → All (λ r. is_settled (target_status x r.target) ≡ true) starts
          → All Set starts
      go [] all = tt
      go (r ∷ starts) (h, all) = (
        subst (λ ts. is_settled (target_of ts r.target).status ≡ true) (sym s.same_targets)
            (set_status-settled x name s.status s.settled r.target h),
        go starts all,
      )

  module _ (P : List ℕ → Type 0) where
    Move-IsOnce : {x y : Engine World} → Move calls P x y → IsOnce x → IsOnce y
    Move-IsOnce {x} {y} (noted name f note) once =
        IsOnce-same x y refl
          (λ n h. ap is_settled (modify-note name n f x.targets note.keeps_status) ∙ h) once
    Move-IsOnce {x} {y} (failed name p same) once =
        IsOnce-same x y refl (set_status-settled x name error refl) once
    Move-IsOnce {x} {y} (began name p same command ask) once =
        start-IsOnce name x y (ap is_settled same) command (start-Started calls name x) once
    Move-IsOnce {x} {y} (ended job status before after runs p final) once =
        IsOnce-same x y refl (set_status-settled x job.target status (final_settled status final))
          once
    Move-IsOnce {x} {y} (moved world) once = IsOnce-same x y refl (λ n h. h) once
    Move-IsOnce {x} {y} gave_up once = IsOnce-same x y refl (λ n h. h) once
    Move-IsOnce {x} {y} (asked goals) once = IsOnce-same x y refl (λ n h. h) once

    -- Steps start no command a second time: from a state in which no target was started twice and the status
    -- of each that was started is set, they lead to such states only.
    pub Steps-IsOnce : {x y : Engine World} → Steps calls P x y → IsOnce x → IsOnce y
    Steps-IsOnce stay once = once
    Steps-IsOnce (later steps step) once = Move-IsOnce step (Steps-IsOnce steps once)
