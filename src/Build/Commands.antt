-- ===== src/Build/Commands.antt =====
-- lua/mkinit.lua, `make.jobs.start` as the last step of `bring_up_to_date`: proofs on the command that is started.
use mathlib.Core.List.{Memᴰ}
use presto_build.Base.{
  ℕ, ◌+◌, ◌<◌, ◌≡◌, inl, inr, refl, sym, subst, some, List, [], ◌∷◌, ◌++◌, map, false, All, arith,
}
use presto_build.Build.Target.{Status, updated, running, error, target_of}
use presto_build.Build.Engine.{
  keep_message, BuildCalls, Resumed, raised, dead, yielded, keep_exists, exists_of, Engine, Reply,
  gives, target_status, set_status, after_begin, start, running_jobs,
}
use presto_build.Build.Grows.{
  Grows, Grows-trans, Grows-modify, deps_of_Grows, blocks, Clean, Clean-modify,
}
use presto_build.Build.Tally.{IsTally, IsTally-up, IsTally-add}
use presto_build.Build.Safe.{IsSafe, IsCalm, IsFine, not_bad}

All-good :
    (f : List ℕ → Status) (ds : List (List ℕ))
    → ((d : List ℕ) → Memᴰ d ds → blocks (f d) ≡ false)
    → All (λ b. blocks b ≡ false) (map f ds)
All-good f [] h = tt
All-good f (d ∷ ds) h = (h d (Memᴰ.head refl), All-good f ds (λ x m. h x (Memᴰ.tail m)))

pub Grows-status :
    {W : Type 0} (name : List ℕ) (status : Status) (e : Engine W)
    → Grows e.targets (set_status name status e).targets
Grows-status name status e =
    Grows-modify name (λ t. record t { status = status }) e.targets (λ t. ((λ f. f), λ d m. m))

-- A status that lets the target's users be built.
pub Clean-status :
    {W : Type 0} (name : List ℕ) (status : Status) (e : Engine W)
    → blocks status ≡ false
    → Clean e.targets (set_status name status e).targets
Clean-status name status e good =
    Clean-modify name (λ t. record t { status = status }) e.targets (λ t b. cc)

pub Grows-kept :
    (calls : BuildCalls) (name : List ℕ) (e : Engine calls.World)
    → Grows e.targets (keep_exists calls name e).targets
Grows-kept calls name e =
    Grows-modify name (λ t. record t { known_exists = some (exists_of calls e name) }) e.targets
      (λ t. ((λ f. f), λ d m. m))

pub Clean-kept :
    (calls : BuildCalls) (name : List ℕ) (e : Engine calls.World)
    → Clean e.targets (keep_exists calls name e).targets
Clean-kept calls name e =
    Clean-modify name (λ t. record t { known_exists = some (exists_of calls e name) }) e.targets
      (λ t b. b)

abbrev pub IsFineCall : {W : Type 0} → ℕ → List ℕ → Engine W → Reply × Engine W → Type 0
IsFineCall slots self e (r, e') = IsFine slots self e r e'

-- A call on `self` from `e`, where `self` is neither running nor failed.
module _ {W : Type 0} (slots : ℕ) (self : List ℕ) (e : Engine W)
    (good : blocks (target_status e self) ≡ false) where
  -- It ends in an engine that is like `e'` but for a status, or is `e'`.
  pub ends_badly :
      (r : Reply) (e' e'' : Engine W)
      → (IsCalm r → ⊥)
      → IsSafe slots e''
      → e''.count < slots
      → Grows e.targets e'.targets
      → Grows e'.targets e''.targets
      → IsFine slots self e r e''
  ends_badly r e' e'' loud safe lt g h = record {
    safe = safe;
    room = inl lt;
    grows = Grows-trans e.targets e'.targets e''.targets g h;
    calm = λ c. absurd (loud c);
  }

  pub ends_well :
      (r : Reply) (e' e'' : Engine W)
      → IsSafe slots e''
      → e''.count < slots
      → Grows e.targets e'.targets
      → Clean e.targets e'.targets
      → Grows e'.targets e''.targets
      → Clean e'.targets e''.targets
      → IsFine slots self e r e''
  ends_well r e' e'' safe lt g c h k = record {
    safe = safe;
    room = inl lt;
    grows = Grows-trans e.targets e'.targets e''.targets g h;
    calm = λ calm. (
      (λ n b. c n (k n b)),
      not_bad (target_status e'' self) (λ b. cc (good, c self (k self b))),
    );
  }

  after_begin-Fine :
      (back : Resumed) (e' : Engine W)
      → IsTally (e'.jobs ++ record { id = e'.pos; target = self } ∷ []) (e'.count + 1) e'.pos
      → IsSafe slots e'
      → e'.count < slots
      → Grows e.targets e'.targets
      → Clean e.targets e'.targets
      → IsFine slots self e (after_begin self back e').0 (after_begin self back e').1
  unfolding after_begin
  after_begin-Fine (raised printed) e' added safe lt g c =
      ends_badly (gives error) e' (set_status self error (keep_message printed self e'))
        (λ calm. calm)
        (record { right = safe.right; same_slots = safe.same_slots; tally = safe.tally }) lt g
        (Grows-status self error e')
  after_begin-Fine dead e' added safe lt g c =
      ends_well (gives updated) e' (set_status self updated e')
        (record { right = safe.right; same_slots = safe.same_slots; tally = safe.tally }) lt g c
        (Grows-status self updated e') (Clean-status self updated e' refl)
  after_begin-Fine (yielded handle) e' added safe lt g c = record {
    safe = record { right = safe.right; same_slots = safe.same_slots; tally = added };
    room = inr (refl, omega arith);
    grows =
        Grows-trans e.targets e'.targets (set_status self running e').targets g
          (Grows-status self running e');
    calm = λ calm. absurd calm;
  }

module _ (calls : BuildCalls) (slots : ℕ) (self : List ℕ) where
  open calls use {World, begin}

  pub start-Fine :
      (e e' : Engine World)
      → blocks (target_status e self) ≡ false
      → IsSafe slots e'
      → e'.count < slots
      → Grows e.targets e'.targets
      → Clean e.targets e'.targets
      → ((d : List ℕ)
          → Memᴰ d (target_of e.targets self).deps
          → blocks (target_status e' d) ≡ false)
      → IsFine slots self e (start calls self e').0 (start calls self e').1
  unfolding start
  start-Fine e e' good safe lt g c deps = go (begin self (e'.pos + 1) e'.world)
    where
      begun : World → Engine World
      begun world = record e' {
        pos = e'.pos + 1;
        world = world;
        started =
            record {
              target = self;
              jobs_before = running_jobs e'.jobs;
              deps_before = map (target_status e') (target_of e'.targets self).deps;
            }
            ∷ e'.started;
      }

      go :
          (back : Resumed × World)
          → IsFine slots self e
              (after_begin self back.0 (begun back.1)).0
              (after_begin self back.0 (begun back.1)).1
      go (back, world) =
          after_begin-Fine slots self e good back (begun world)
            (IsTally-add e'.jobs e'.count e'.pos (record { id = e'.pos + 1; target = self }) refl
              safe.tally)
            (record {
              right = (
                (
                  subst (λ n. n < slots) (sym safe.tally.counted) lt,
                  All-good (target_status e') (target_of e'.targets self).deps
                      (λ d m. deps d (deps_of_Grows e.targets e'.targets g self d m)),
                ),
                safe.right,
              );
              same_slots = safe.same_slots;
              tally = IsTally-up e'.jobs e'.count e'.pos safe.tally;
            })
            lt g c
