-- ===== src/Build/Complete.antt =====
-- lua/mkinit.lua, `bring_up_to_date`: proofs on targets for which there is nothing to be done.
use mathlib.Core.List.{Memᴰ}
use presto_build.Base.{
  ℕ, zero, suc, ◌+◌, ◌≤◌, ◌≡◌, refl, subst, ap, ◌∙◌, List, [], ◌∷◌, Bool, true, false, not, ◌||◌,
  if◌then◌else◌, enough_for_all, arith,
}
use presto_build.File.Times.{earlier}
use presto_build.Build.Target.{Status, unchanged, updated, running, error, target_of}
use presto_build.Build.Engine.{
  BuildCalls, Engine, Reply, gives, throws, unfinished, target_status, set_status, exists_of,
  timestamp_of, keep_exists, keep_time,
}
use presto_build.Build.Update.{
  Visit, done, left, mark_newer, is_older, keep_times, after_dep, visit, build_now, conclude,
  needed, opened, build_target, unless_settled, bring_up_to_date,
}
use presto_build.Build.Same.{
  UpToDate, up_to_date, IsSame, IsSame-refl, IsSame-keep_exists, IsSame-keep_time, exists_of-IsSame,
  timestamp_of-IsSame,
}
use presto_build.Build.Decides.{UpToDate-of_unchanged}

module _ (calls : BuildCalls) (e : Engine calls.World) (plain : e.flags.always_make ≡ false) where
  open calls use {World}

  -- Nothing was to be done, and nothing was done.
  abbrev IsIdle : Reply × Engine World → Type 0
  IsIdle (gives unchanged, y) = IsSame calls e y
  IsIdle (gives updated, y) = ⊥
  IsIdle (gives running, y) = ⊥
  IsIdle (gives error, y) = ⊥
  IsIdle (throws t, y) = ⊥
  IsIdle (unfinished, y) = ⊥

  abbrev IsIdleVisit : Visit World → Type 0
  IsIdleVisit (done must wait y) = (must ≡ false) × (wait ≡ false) × IsSame calls e y
  IsIdleVisit (left r y) = ⊥

  after_dep-Idle :
      (self dep : List ℕ) (more : Bool → Bool → Engine World → Visit World)
      (out : Reply × Engine World)
      → earlier (timestamp_of calls e self) (timestamp_of calls e dep) ≡ false
      → ((y : Engine World) → IsSame calls e y → IsIdleVisit (more false false y))
      → IsIdle out
      → IsIdleVisit (after_dep calls self dep false false more out)
  unfolding after_dep
  after_dep-Idle self dep more (gives unchanged, y) old rest s = go (is_older calls self dep y) read
    where
      read : is_older calls self dep y ≡ false
      read =
          ap (λ v. earlier v (timestamp_of calls (keep_time calls self y) dep))
            (timestamp_of-IsSame calls e y s self)
          ∙ ap (earlier (timestamp_of calls e self)) (
              timestamp_of-IsSame calls e (keep_time calls self y)
                (IsSame-keep_time calls e y self s) dep)
          ∙ old

      go :
          (b : Bool)
          → b ≡ false
          → IsIdleVisit (
              if b
              then more true false (mark_newer self dep (keep_times calls self dep y))
              else more false false (keep_times calls self dep y))
      go true absent = cc
      go false same = rest (keep_times calls self dep y) (
          IsSame-keep_time calls e (keep_time calls self y) dep (IsSame-keep_time calls e y self s))
  after_dep-Idle self dep more (gives updated, y) old rest s = absurd s
  after_dep-Idle self dep more (gives running, y) old rest s = absurd s
  after_dep-Idle self dep more (gives error, y) old rest s = absurd s
  after_dep-Idle self dep more (throws t, y) old rest s = absurd s
  after_dep-Idle self dep more (unfinished, y) old rest s = absurd s

  visit-Idle :
      (bring : List ℕ → Engine World → Reply × Engine World) (self : List ℕ) (deps : List (List ℕ))
      → ((d : List ℕ)
          → Memᴰ d deps
          → earlier (timestamp_of calls e self) (timestamp_of calls e d) ≡ false)
      → ((d : List ℕ) → Memᴰ d deps → (y : Engine World) → IsSame calls e y → IsIdle (bring d y))
      → (x : Engine World) → IsSame calls e x
      → IsIdleVisit (visit calls bring self deps false false x)
  unfolding visit
  visit-Idle bring self [] old idle x s = (refl, refl, s)
  visit-Idle bring self (dep ∷ deps) old idle x s =
      after_dep-Idle self dep (visit calls bring self deps) (bring dep x) (old dep (Memᴰ.head refl))
        (visit-Idle bring self deps (λ d m. old d (Memᴰ.tail m)) (λ d m. idle d (Memᴰ.tail m)))
        (idle dep (Memᴰ.head refl) x s)

  conclude-Idle :
      (self : List ℕ) (v : Visit World)
      → (target_of e.targets self).dep_failed ≡ false
      → IsIdleVisit v
      → IsIdle (conclude calls self v)
  unfolding conclude
  conclude-Idle self (left r y) calm idle = absurd idle
  conclude-Idle self (done must wait y) calm (no_must, no_wait, s) =
      go wait (target_of y.targets self).dep_failed must no_wait
        ((s.same_target self).same_failed ∙ calm) no_must
    where
      go :
          (w failed m : Bool)
          → w ≡ false
          → failed ≡ false
          → m ≡ false
          → IsIdle (
              if w
              then (gives running, y)
              else if failed
              then (gives error, set_status self error y)
              else if m
              then build_now calls self y
              else (gives unchanged, y))
      go true failed m a b c = cc
      go false true m a b c = cc
      go false false true a b c = cc
      go false false false a b c = s

  build_target-Idle :
      (bring : List ℕ → Engine World → Reply × Engine World) (self : List ℕ) (x : Engine World)
      → (target_of e.targets self).dep_failed ≡ false
      → exists_of calls e self ≡ true
      → ((d : List ℕ)
          → Memᴰ d (target_of e.targets self).deps
          → earlier (timestamp_of calls e self) (timestamp_of calls e d) ≡ false)
      → ((d : List ℕ)
          → Memᴰ d (target_of e.targets self).deps
          → (y : Engine World) → IsSame calls e y
          → IsIdle (bring d y))
      → IsSame calls e x
      → IsIdle (build_target calls bring self x)
  unfolding build_target
  build_target-Idle bring self x calm there old idle s = conclude-Idle self _ calm (
      go (needed calls self x) (target_of x.targets self).deps
        (not_needed x.flags.always_make (exists_of calls x self) (s.same_always ∙ plain)
          (exists_of-IsSame calls e x s self ∙ there))
        (s.same_target self).same_deps)
    where
      not_needed : (a b : Bool) → a ≡ false → b ≡ true → (a || not b) ≡ false
      not_needed true b h k = cc
      not_needed false true h k = refl
      not_needed false false h k = cc

      opened-Same : (b : Bool) → IsSame calls e (if b then x else keep_exists calls self x)
      opened-Same true = s
      opened-Same false = IsSame-keep_exists calls e x self s

      go :
          (must : Bool) (deps : List (List ℕ))
          → must ≡ false
          → deps ≡ (target_of e.targets self).deps
          → IsIdleVisit (visit calls bring self deps must false (opened calls self x))
      go true deps absent same = cc
      go false deps fine same =
          visit-Idle bring self deps (λ d m. old d (subst (Memᴰ d) same m))
            (λ d m. idle d (subst (Memᴰ d) same m)) (opened calls self x)
            (opened-Same x.flags.always_make)

  abbrev IsIdleWith : ℕ → List ℕ → Type 0
  IsIdleWith k n =
      (fuel : ℕ) (x : Engine World)
      → k ≤ fuel
      → IsSame calls e x
      → IsIdle (bring_up_to_date calls fuel n x)

  IsIdleWith-exists : (n : List ℕ) → UpToDate calls e n → (k : ℕ) × IsIdleWith k n
  unfolding bring_up_to_date
  IsIdleWith-exists n (up_to_date status calm there old up) = go (
      enough_for_all IsIdleWith (λ k m d le idle fuel x bound. idle fuel x (omega arith))
        (target_of e.targets n).deps (λ d m. IsIdleWith-exists d (up d m)))
    where
      step :
          (k : ℕ)
          → ((d : List ℕ) → Memᴰ d (target_of e.targets n).deps → IsIdleWith k d)
          → IsIdleWith (k + 1) n
      step k idle zero x enough s = absurd (omega arith)
      step k idle (suc fuel) x enough s =
          settled (target_status x n) ((s.same_target n).same_status ∙ status)
        where
          settled :
              (st : Status)
              → st ≡ unchanged
              → IsIdle
                  (unless_settled calls st (build_target calls (bring_up_to_date calls fuel) n x) x)
          settled unchanged same =
              build_target-Idle (bring_up_to_date calls fuel) n x calm there old
                (λ d m y. idle d m fuel y (omega arith)) s
          settled updated same = cc
          settled running same = cc
          settled error same = cc

      go :
          (k : ℕ) × ((d : List ℕ) → Memᴰ d (target_of e.targets n).deps → IsIdleWith k d)
          → (k : ℕ) × IsIdleWith k n
      go (k, idle) = (k + 1, step k idle)

  unchanged_of_idle : (out : Reply × Engine World) → IsIdle out → out.0 ≡ gives unchanged
  unchanged_of_idle (gives unchanged, y) s = refl
  unchanged_of_idle (gives updated, y) s = absurd s
  unchanged_of_idle (gives running, y) s = absurd s
  unchanged_of_idle (gives error, y) s = absurd s
  unchanged_of_idle (throws t, y) s = absurd s
  unchanged_of_idle (unfinished, y) s = absurd s

-- Without the flag always_make, `bring_up_to_date` answers that nothing was to be done, with enough fuel, for
-- each target that is up to date: it and all it depends on exist, no dependency is newer than its user, and
-- nothing of it was updated, runs or failed. It gives that answer for no other target, whatever the fuel, and
-- then it has started no command.
pub bring_up_to_date-UpToDate :
    (calls : BuildCalls) (e : Engine calls.World) (n : List ℕ)
    → e.flags.always_make ≡ false
    → (UpToDate calls e n
        → (k : ℕ) × ((fuel : ℕ) → k ≤ fuel → (bring_up_to_date calls fuel n e).0 ≡ gives unchanged))
      × ((fuel : ℕ)
          → (bring_up_to_date calls fuel n e).0 ≡ gives unchanged
          → UpToDate calls e n × ((bring_up_to_date calls fuel n e).1.started ≡ e.started))
bring_up_to_date-UpToDate calls e n plain = (
  (λ up.
      let (k, idle) = IsIdleWith-exists calls e plain n up in
      (
        k,
        λ fuel enough. unchanged_of_idle calls e plain _ (idle fuel e enough (IsSame-refl calls e)),
      )),
  (λ fuel same.
      let (s, up) = UpToDate-of_unchanged calls e plain fuel n same in (up, s.same_started)),
)
