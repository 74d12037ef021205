-- ===== src/Build/Concludes.antt =====
-- lua/mkinit.lua, what `bring_up_to_date` does after its loop: proofs on the command that it starts.
use mathlib.Core.List.{Memᴰ}
use mathlib.Core.List.Memᴰ
use presto_build.Base.{
  ℕ, ◌<◌, ◌≡◌, inl, inr, refl, List, Bool, true, false, not, ◌||◌, if◌then◌else◌,
}
use presto_build.Build.Target.{unchanged, error, Targets, target_of}
use presto_build.Build.Engine.{
  BuildCalls, keep_exists, exists_of, Engine, index_function, no_rule, gives, throws, target_status,
  set_status, start,
}
use presto_build.Build.Update.{Visit, done, left, without_command, build_now, conclude}
use presto_build.Build.Grows.{Grows, Grows-refl, Grows-trans, blocks, Clean}
use presto_build.Build.Safe.{IsSafe, IsFine, IsVisited}
use presto_build.Build.Commands.{
  Grows-kept, Clean-kept, Grows-status, IsFineCall, ends_badly, ends_well, start-Fine,
}

module _ (calls : BuildCalls) (slots : ℕ) (self : List ℕ) where
  open calls use {World}

  without_command-Fine :
      (e e' : Engine World)
      → blocks (target_status e self) ≡ false
      → IsSafe slots e'
      → e'.count < slots
      → Grows e.targets e'.targets
      → Clean e.targets e'.targets
      → IsFine slots self e (without_command calls self e').0 (without_command calls self e').1
  unfolding without_command
  without_command-Fine e e' good safe lt g c =
      go (not e'.flags.always_make || not (exists_of calls e' self)) e'.flags.always_make
    where
      same_safe : (ts : Targets) → IsSafe slots (record e' { targets = ts })
      same_safe ts = record { right = safe.right; same_slots = safe.same_slots; tally = safe.tally }

      go :
          (refused always : Bool)
          → let kept = if always then keep_exists calls self e' else e' in
            IsFineCall slots self e (
              if refused
              then (throws (no_rule self), set_status self error kept)
              else (gives unchanged, kept))
      go true true =
          ends_badly slots self e good (throws (no_rule self)) e'
            (set_status self error (keep_exists calls self e')) (λ calm. calm) (same_safe _) lt g
            (Grows-trans e'.targets (keep_exists calls self e').targets
              (set_status self error (keep_exists calls self e')).targets (Grows-kept calls self e')
              (Grows-status self error (keep_exists calls self e')))
      go true false =
          ends_badly slots self e good (throws (no_rule self)) e' (set_status self error e')
            (λ calm. calm) (same_safe _) lt g (Grows-status self error e')
      go false true =
          ends_well slots self e good (gives unchanged) e' (keep_exists calls self e') (same_safe _)
            lt g c (Grows-kept calls self e') (Clean-kept calls self e')
      go false false =
          ends_well slots self e good (gives unchanged) e' e' safe lt g c (Grows-refl e'.targets)
            (λ n b. b)

  build_now-Fine :
      (e e' : Engine World)
      → blocks (target_status e self) ≡ false
      → IsSafe slots e'
      → e'.count < slots
      → Grows e.targets e'.targets
      → Clean e.targets e'.targets
      → ((d : List ℕ)
          → Memᴰ d (target_of e.targets self).deps
          → blocks (target_status e' d) ≡ false)
      → IsFine slots self e (build_now calls self e').0 (build_now calls self e').1
  unfolding build_now
  build_now-Fine e e' good safe lt g c deps =
      go e'.flags.question (target_of e'.targets self).has_command
    where
      go :
          (ask command : Bool)
          → IsFineCall slots self e (
              if ask
              then (throws index_function, e')
              else if command
              then start calls self e'
              else without_command calls self e')
      go true command =
          ends_badly slots self e good (throws index_function) e' e' (λ calm. calm) safe lt g
            (Grows-refl e'.targets)
      go false true = start-Fine calls slots self e e' good safe lt g c deps
      go false false = without_command-Fine e e' good safe lt g c

  pub conclude-Fine :
      (e : Engine World) (v : Visit World)
      → blocks (target_status e self) ≡ false
      → IsVisited slots self (target_of e.targets self).deps e v
      → IsFine slots self e (conclude calls self v).0 (conclude calls self v).1
  unfolding conclude
  conclude-Fine e (left r e') good (loud, safe, lt, g) =
      ends_badly slots self e good r e' e' loud safe lt g (Grows-refl e'.targets)
  conclude-Fine e (done must true e') good (v, room) = record {
    safe = v.safe;
    room = elim room [ inl lt ↦ inl lt | inr (same, le) ↦ inr (refl, le) ];
    grows = v.grows;
    calm = λ calm. absurd calm;
  }
  conclude-Fine e (done must false e') good (v, room) = elim v.covers [
    | inl (inl absent) ↦ cc
    | inl (inr failed) ↦ go must (target_of e'.targets self).dep_failed (λ ok. cc)
    | inr (c, covered) ↦
        go must (target_of e'.targets self).dep_failed
          (λ ok. (c, (λ d m. elim (covered d m) [ inl k ↦ absurd (Memᴰ.not-nil k) | inr k ↦ k ])))
  ]
    where
      lt : e'.count < slots
      lt = elim room [ inl less ↦ less | inr (absent, le) ↦ cc ]

      go :
          (must failed : Bool)
          → (failed ≡ false
              → Clean e.targets e'.targets
                × ((d : List ℕ)
                    → Memᴰ d (target_of e.targets self).deps
                    → blocks (target_status e' d) ≡ false))
          → IsFineCall slots self e (
              if failed
              then (gives error, set_status self error e')
              else (if must then build_now calls self e' else (gives unchanged, e')))
      go must true h =
          ends_badly slots self e good (gives error) e' (set_status self error e') (λ calm. calm)
            (record { right = v.safe.right; same_slots = v.safe.same_slots; tally = v.safe.tally })
            lt v.grows (Grows-status self error e')
      go true false h = build_now-Fine e e' good v.safe lt v.grows (h refl).0 (h refl).1
      go false false h =
          ends_well slots self e good (gives unchanged) e' e' v.safe lt v.grows (h refl).0
            (Grows-refl e'.targets) (λ n b. b)
