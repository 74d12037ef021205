-- ===== src/Build/Brings.antt =====
-- lua/mkinit.lua, `bring_up_to_date`: proofs on the commands that a whole call starts.
use presto_build.Base.{
  ℕ, zero, suc, ◌<◌, ◌≡◌, inl, inr, refl, ap, Option, none, some, List, [], ◌∷◌, Bool, true, false,
  Bool-cases, if◌then◌else◌,
}
use presto_build.Build.Target.{
  Status, unchanged, updated, running, error, Target, or_fresh, target_of, defined,
}
use presto_build.Build.Engine.{BuildCalls, keep_exists, Engine, Reply, gives, target_status}
use presto_build.Build.Update.{
  visit, needed, opened, build_target, unless_settled, bring_up_to_date,
}
use presto_build.Build.Grows.{Grows-refl, blocks}
use presto_build.Build.Safe.{IsSafe, IsVisiting, IsVisited}
use presto_build.Build.Visits.{Brings, visit-Visited}
use presto_build.Build.Commands.{Grows-kept, Clean-kept, IsFineCall, ends_well}
use presto_build.Build.Concludes.{conclude-Fine}

module _ (calls : BuildCalls) (slots : ℕ) (self : List ℕ) where
  open calls use {World}

  visit-Fine :
      (bring : List ℕ → Engine World → Reply × Engine World) (brings : Brings slots bring)
      (e e' : Engine World) (must : Bool)
      → IsVisiting slots self
          (target_of e.targets self).deps
          (target_of e.targets self).deps
          e
          false
          e'
      → e'.count < slots
      → IsVisited slots self
          (target_of e.targets self).deps
          e
          (visit calls bring self (target_of e.targets self).deps must false e')
  unfolding visit
  visit-Fine bring brings e e' must v lt = elim (Bool-cases (defined e.targets self)) [
    | inl def ↦
        visit-Visited calls slots self (target_of e.targets self).deps e def bring brings
          (target_of e.targets self).deps must false e' v lt
    | inr undef ↦ bare (target_of e.targets self).deps (no_deps (e.targets self) undef) v
  ]
    where
      no_deps :
          (o : Option Target)
          → (elim o [ none ↦ false | some t ↦ true ]) ≡ false
          → (or_fresh o).deps ≡ []
      no_deps none h = refl
      no_deps (some t) h = cc

      bare :
          (ds : List (List ℕ))
          → ds ≡ []
          → IsVisiting slots self ds ds e false e'
          → IsVisited slots self ds e (visit calls bring self ds must false e')
      bare [] none_left v = (v, inl lt)
      bare (d ∷ ds) none_left v = cc

  build_target-Fine :
      (bring : List ℕ → Engine World → Reply × Engine World) (brings : Brings slots bring)
      (e : Engine World)
      → blocks (target_status e self) ≡ false
      → IsSafe slots e
      → e.count < slots
      → IsFineCall slots self e (build_target calls bring self e)
  unfolding build_target
  build_target-Fine bring brings e good safe lt =
      conclude-Fine calls slots self e _ good
        (go (opened calls self e) (visiting e.flags.always_make))
    where
      Ready : Engine World → Type 0
      Ready e' =
          IsVisiting slots self (target_of e.targets self).deps (target_of e.targets self).deps e
            false e'
          × (e'.count < slots)

      visiting : (b : Bool) → Ready (if b then e else keep_exists calls self e)
      visiting true = (
        record {
          safe = safe;
          grows = Grows-refl e.targets;
          covers = inr ((λ n b. b), λ d m. inl m);
        },
        lt,
      )
      visiting false = (
        record {
          safe = record { right = safe.right; same_slots = safe.same_slots; tally = safe.tally };
          grows = Grows-kept calls self e;
          covers = inr (Clean-kept calls self e, λ d m. inl m);
        },
        lt,
      )

      go :
          (e' : Engine World)
          → Ready e'
          → IsVisited slots self (target_of e.targets self).deps e (
              visit calls bring self (target_of e.targets self).deps (needed calls self e) false e')
      go e' (v, less) = visit-Fine bring brings e e' (needed calls self e) v less

module _ (calls : BuildCalls) (slots : ℕ) where
  open calls use {World}

  pub bring_up_to_date-Fine : (fuel : ℕ) → Brings slots (bring_up_to_date calls fuel)
  unfolding bring_up_to_date
  bring_up_to_date-Fine zero self e safe lt = record {
    safe = safe;
    room = inl lt;
    grows = Grows-refl e.targets;
    calm = λ calm. absurd calm;
  }
  bring_up_to_date-Fine (suc fuel) self e safe lt =
      go (bring_up_to_date-Fine fuel) (target_status e self) refl
    where
      go :
          Brings slots (bring_up_to_date calls fuel)
          → (s : Status) → target_status e self ≡ s
          → IsFineCall slots self e
              (unless_settled calls s (build_target calls (bring_up_to_date calls fuel) self e) e)
      go brings unchanged same =
          build_target-Fine calls slots self (bring_up_to_date calls fuel) brings e (ap blocks same)
            safe lt
      go brings updated same =
          ends_well slots self e (ap blocks same) (gives updated) e e safe lt (Grows-refl e.targets)
            (λ n b. b) (Grows-refl e.targets) (λ n b. b)
      go brings running same = record {
        safe = safe;
        room = inl lt;
        grows = Grows-refl e.targets;
        calm = λ calm. absurd calm;
      }
      go brings error same = record {
        safe = safe;
        room = inl lt;
        grows = Grows-refl e.targets;
        calm = λ calm. absurd calm;
      }
