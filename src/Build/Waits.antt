-- ===== src/Build/Waits.antt =====
-- lua/mkinit.lua, `bring_up_to_date`: what it is for a target to wait for a running one, and lemmas.
use mathlib.Core.List.{Memᴰ}
use presto_build.Base.{
  ℕ, ◌+◌, ◌≡◌, ◌≢◌, ◌⊎◌, inl, inr, refl, sym, ap, ◌∙◌, subst, Option, none, some, List, true,
  Bool-cases, same_text,
}
use presto_build.Build.Target.{
  Status, unchanged, running, error, Target, Targets, or_fresh, target_of, changed, modify,
}
use presto_build.Build.Engine.{
  BuildCalls, Resumed, raised, dead, yielded, Engine, target_status, after_begin, start,
}
use presto_build.Build.Cycles.{IsDep}
use presto_build.Build.Steps.{
  is_settled, is_final, Move, noted, failed, began, ended, moved, gave_up, asked, Steps, stay,
  later,
}
use presto_build.Build.Frames.{modify-status, modify-note, status_after, start-Started}

abbrev pub status_in : Targets → List ℕ → Status
status_in ts n = (target_of ts n).status

-- The target runs, or is not settled and has a dependency that waits for the running one.
pub data Waits (ts : Targets) : List ℕ → List ℕ → Type 0 where
  runs : {n : List ℕ} → status_in ts n ≡ running → Waits ts n n
  waits : {g d n : List ℕ} → status_in ts g ≡ unchanged → IsDep ts d g → Waits ts d n → Waits ts g n

-- What the target waits for runs.
pub runs_below : {ts : Targets} {g n : List ℕ} → Waits ts g n → status_in ts n ≡ running
runs_below (runs r) = r
runs_below (waits u dep w) = runs_below w

-- Only a target that runs, or is not settled, waits.
pub not_settled :
    (ts : Targets) (g n : List ℕ)
    → Waits ts g n
    → (status_in ts g ≡ running)
      ⊎ ((status_in ts g ≡ unchanged) × ((d : List ℕ) × IsDep ts d g × Waits ts d n))
not_settled ts g n (runs r) = inl r
not_settled ts g n (waits {d = d} u dep w) = inr (u, (d, dep, w))

-- From one state to another in which a target that waits has the same dependencies and waits for its own, and
-- one that runs still runs.
pub Waits-later :
    (ts us : Targets)
    → ((g n : List ℕ) → Waits ts g n → status_in ts g ≡ unchanged → status_in us g ≡ unchanged)
    → ((g n : List ℕ) → Waits ts g n → status_in ts g ≡ running → status_in us g ≡ running)
    → ((d g : List ℕ) → IsDep ts d g → IsDep us d g)
    → (g n : List ℕ) → Waits ts g n
    → Waits us g n
Waits-later ts us still run deps g n (runs r) = runs (run g n (runs r) r)
Waits-later ts us still run deps g n (waits {d = d} u dep w) =
    waits (still g n (waits u dep w) u) (deps d g dep) (Waits-later ts us still run deps d n w)

-- A status was written to a target that waits for none.
pub Waits-written :
    (ts : Targets) (self : List ℕ) (status : Status)
    → ((n : List ℕ) → Waits ts self n → ⊥)
    → ((d g : List ℕ)
        → IsDep ts d g
        → IsDep (modify self (λ t. record t { status = status }) ts) d g)
    → (g n : List ℕ) → Waits ts g n
    → Waits (modify self (λ t. record t { status = status }) ts) g n
Waits-written ts self status alone deps =
    Waits-later ts (modify self (λ t. record t { status = status }) ts) (λ g n w u. kept g n w ∙ u)
      (λ g n w r. kept g n w ∙ r) deps
  where
    kept :
        (g n : List ℕ)
        → Waits ts g n
        → status_in (modify self (λ t. record t { status = status }) ts) g ≡ status_in ts g
    kept g n w = elim (status_after self g status ts) [
      | inl (same, is) ↦ absurd (alone n (subst (λ x. Waits ts x n) same w))
      | inr (other, is) ↦ is
    ]

-- A write that leaves the dependencies.
pub deps-modify :
    (name n : List ℕ) (f : Target → Target) (ts : Targets)
    → ((t : Target) → (f t).deps ≡ t.deps)
    → (target_of (modify name f ts) n).deps ≡ (target_of ts n).deps
unfolding modify
deps-modify name n f ts same = elim (Bool-cases (same_text n name)) [
  | inl e ↦ rw e (go (ts n))
  | inr e ↦ rw e refl
]
  where
    go : (o : Option Target) → (or_fresh (changed f o)).deps ≡ (or_fresh o).deps
    go none = refl
    go (some t) = same t

-- A write that leaves the status and the dependencies.
pub Waits-note :
    (name : List ℕ) (f : Target → Target) (ts : Targets)
    → ((t : Target) → (f t).status ≡ t.status)
    → ((t : Target) → (f t).deps ≡ t.deps)
    → (g n : List ℕ)
    → (Waits ts g n → Waits (modify name f ts) g n) × (Waits (modify name f ts) g n → Waits ts g n)
Waits-note name f ts status deps g n = (
  Waits-later ts (modify name f ts) (λ a b w h. modify-note name a f ts status ∙ h)
      (λ a b w h. modify-note name a f ts status ∙ h)
      (λ d a. subst (Memᴰ d) (sym (deps-modify name a f ts deps))) g n,
  Waits-later (modify name f ts) ts (λ a b w h. sym (modify-note name a f ts status) ∙ h)
      (λ a b w h. sym (modify-note name a f ts status) ∙ h)
      (λ d a. subst (Memᴰ d) (deps-modify name a f ts deps)) g n,
)

-- No target has failed.
abbrev pub NoError : Targets → Type 0
NoError ts = (n : List ℕ) → status_in ts n ≢ error

-- A status that is not set was not set before a write.
pub unset_written :
    (ts : Targets) (name n : List ℕ) (status : Status)
    → status ≢ unchanged
    → status_in (modify name (λ t. record t { status = status }) ts) n ≡ unchanged
    → status_in ts n ≡ unchanged
unset_written ts name n status set =
    modify-status (λ s. s ≡ unchanged → status_in ts n ≡ unchanged) name n status ts
      (λ same h. absurd (set h)) (λ h. h)

module _ (calls : BuildCalls) (P : List ℕ → Type 0) where
  open calls use {World}

  not_unset : (s : Status) → is_settled s ≡ true → s ≢ unchanged
  not_unset s set same = cc (set, ap is_settled same)

  not_final : (s : Status) → is_final s ≡ true → s ≢ unchanged
  not_final s set same = cc (set, ap is_final same)

  Move-unset :
      {x y : Engine World}
      → Move calls P x y
      → (n : List ℕ) → target_status y n ≡ unchanged
      → target_status x n ≡ unchanged
  Move-unset {x} (noted name f note) n h =
      sym (modify-note name n f x.targets note.keeps_status) ∙ h
  Move-unset {x} (failed name p same) n h = unset_written x.targets name n error (λ e. cc) h
  Move-unset {x} (began name p same command ask) n h =
      let s = start-Started calls name x in
      unset_written x.targets name n s.status (not_unset s.status s.settled)
        (ap (λ ts. status_in ts n) (sym s.same_targets) ∙ h)
  Move-unset {x} (ended job status before after are p final) n h =
      unset_written x.targets job.target n status (not_final status final) h
  Move-unset {x} (moved world) n h = h
  Move-unset {x} gave_up n h = h
  Move-unset {x} (asked goals) n h = h

  -- Steps never take a status back.
  pub Steps-unset :
      {x y : Engine World}
      → Steps calls P x y
      → (n : List ℕ) → target_status y n ≡ unchanged
      → target_status x n ≡ unchanged
  Steps-unset stay n h = h
  Steps-unset (later steps step) n h = Steps-unset steps n (Move-unset step n h)

module _ (calls : BuildCalls) (P : List ℕ → Type 0) where
  open calls use {World, begin}

  after_begin-flags :
      (name : List ℕ) (back : Resumed) (x : Engine World)
      → (after_begin name back x).1.flags ≡ x.flags
  unfolding after_begin
  after_begin-flags name (raised printed) x = refl
  after_begin-flags name dead x = refl
  after_begin-flags name (yielded handle) x = refl

  Move-flags : {x y : Engine World} → Move calls P x y → y.flags ≡ x.flags
  unfolding start
  Move-flags (noted name f note) = refl
  Move-flags (failed name p same) = refl
  Move-flags {x} (began name p same command ask) =
      let (back, world) = begin name (x.pos + 1) x.world in after_begin-flags name back _
  Move-flags (ended job status before after are p final) = refl
  Move-flags (moved world) = refl
  Move-flags gave_up = refl
  Move-flags (asked goals) = refl

  pub Steps-flags : {x y : Engine World} → Steps calls P x y → y.flags ≡ x.flags
  Steps-flags stay = refl
  Steps-flags (later steps step) = Move-flags step ∙ Steps-flags steps
