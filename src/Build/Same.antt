-- ===== src/Build/Same.antt =====
-- lua/mkinit.lua, `bring_up_to_date`: states that differ only in what was read of the disk, and what it is for
-- a target to be up to date.
use mathlib.Core.List.{Memᴰ}
use presto_build.Base.{
  ℕ, ◌≡◌, refl, sym, ap, ◌∙◌, Option, none, some, List, Bool, true, false, Bool-cases, inl, inr,
  same_text, eq_of_same_text, subst,
}
use presto_build.Lua.{Value}
use presto_build.File.Times.{earlier}
use presto_build.Build.Target.{
  unchanged, Kind, file_target, phony_target, dir_target, Target, new_target, or_fresh, target_of,
  changed, modify,
}
use presto_build.Build.Engine.{
  BuildCalls, Engine, write, exists_from, time_from, exists_of, timestamp_of, keep_exists,
  keep_time,
}

-- The files of a target and of what it depends on are there, no dependency is newer than its user, and
-- nothing was updated, runs or failed.
pub data UpToDate (calls : BuildCalls) (e : Engine calls.World) : List ℕ → Type 0 where
  up_to_date :
      {name : List ℕ}
      → (target_of e.targets name).status ≡ unchanged
      → (target_of e.targets name).dep_failed ≡ false
      → exists_of calls e name ≡ true
      → ((d : List ℕ)
          → Memᴰ d (target_of e.targets name).deps
          → earlier (timestamp_of calls e name) (timestamp_of calls e d) ≡ false)
      → ((d : List ℕ) → Memᴰ d (target_of e.targets name).deps → UpToDate calls e d)
      → UpToDate calls e name

module _ (calls : BuildCalls) where
  open calls use {World}

  -- What a build decides by is the same of two targets.
  pub record IsSameTarget (name : List ℕ) (world : World) (t u : Target) : Type 0 where
    pub same_status : u.status ≡ t.status
    pub same_deps : u.deps ≡ t.deps
    pub same_failed : u.dep_failed ≡ t.dep_failed
    pub same_exists :
        exists_from calls u.kind u.known_exists name world
        ≡ exists_from calls t.kind t.known_exists name world
    pub same_time :
        time_from calls u.kind u.known_time name world
        ≡ time_from calls t.kind t.known_time name world

  -- Nothing was started, and all targets are as before.
  pub record IsSame (e e' : Engine World) : Type 0 where
    pub same_world : e'.world ≡ e.world
    pub same_started : e'.started ≡ e.started
    pub same_always : e'.flags.always_make ≡ e.flags.always_make
    pub same_target :
        (n : List ℕ) → IsSameTarget n e.world (target_of e.targets n) (target_of e'.targets n)

  IsSameTarget-refl : (n : List ℕ) (world : World) (t : Target) → IsSameTarget n world t t
  IsSameTarget-refl n world t = record {
    same_status = refl;
    same_deps = refl;
    same_failed = refl;
    same_exists = refl;
    same_time = refl;
  }

  IsSameTarget-trans :
      (n : List ℕ) (world : World) (t u v : Target)
      → IsSameTarget n world t u
      → IsSameTarget n world u v
      → IsSameTarget n world t v
  IsSameTarget-trans n world t u v a b = record {
    same_status = b.same_status ∙ a.same_status;
    same_deps = b.same_deps ∙ a.same_deps;
    same_failed = b.same_failed ∙ a.same_failed;
    same_exists = b.same_exists ∙ a.same_exists;
    same_time = b.same_time ∙ a.same_time;
  }

  pub IsSame-refl : (e : Engine World) → IsSame e e
  IsSame-refl e = record {
    same_world = refl;
    same_started = refl;
    same_always = refl;
    same_target = λ n. IsSameTarget-refl n e.world (target_of e.targets n);
  }

  -- A write that keeps them is no difference.
  IsSame-write :
      (e e' : Engine World) (name : List ℕ) (f : Target → Target)
      → IsSame e e'
      → IsSameTarget name e'.world
          (or_fresh (e'.targets name))
          (or_fresh (changed f (e'.targets name)))
      → IsSame e (write name f e')
  unfolding modify
  IsSame-write e e' name f s keeps = record {
    same_world = s.same_world;
    same_started = s.same_started;
    same_always = s.same_always;
    same_target = λ n. elim (Bool-cases (same_text n name)) [
      | inl same ↦ rw same (
          IsSameTarget-trans n e.world (target_of e.targets n) (target_of e'.targets n)
            (or_fresh (changed f (e'.targets n))) (s.same_target n)
            (subst
              (λ m.
                IsSameTarget m e.world (or_fresh (e'.targets m))
                  (or_fresh (changed f (e'.targets m))))
              (sym (eq_of_same_text n name same))
              (subst
                (λ w.
                  IsSameTarget name w (or_fresh (e'.targets name))
                    (or_fresh (changed f (e'.targets name))))
                s.same_world keeps)))
      | inr other ↦ rw other (s.same_target n)
    ];
  }

  exists_again :
      (k : Kind) (known : Option Bool) (n : List ℕ) (world : World)
      → exists_from calls k (some (exists_from calls k known n world)) n world
        ≡ exists_from calls k known n world
  exists_again phony_target known n world = refl
  exists_again dir_target known n world = refl
  exists_again file_target known n world = refl

  time_again :
      (k : Kind) (known : Option Value) (n : List ℕ) (world : World)
      → time_from calls k (some (time_from calls k known n world)) n world
        ≡ time_from calls k known n world
  time_again phony_target known n world = refl
  time_again dir_target known n world = refl
  time_again file_target known n world = refl

  pub IsSame-keep_exists :
      (e e' : Engine World) (name : List ℕ) → IsSame e e' → IsSame e (keep_exists calls name e')
  IsSame-keep_exists e e' name s = IsSame-write e e' name _ s (go (e'.targets name))
    where
      go :
          (o : Option Target)
          → IsSameTarget name e'.world (or_fresh o) (
              or_fresh (
                changed
                  (λ t. record t {
                    known_exists = some (
                        exists_from calls
                          (or_fresh o).kind
                          (or_fresh o).known_exists
                          name
                          e'.world);
                  })
                  o))
      go none = IsSameTarget-refl name e'.world new_target
      go (some t) = record {
        same_status = refl;
        same_deps = refl;
        same_failed = refl;
        same_exists = exists_again t.kind t.known_exists name e'.world;
        same_time = refl;
      }

  pub IsSame-keep_time :
      (e e' : Engine World) (name : List ℕ) → IsSame e e' → IsSame e (keep_time calls name e')
  IsSame-keep_time e e' name s = IsSame-write e e' name _ s (go (e'.targets name))
    where
      go :
          (o : Option Target)
          → IsSameTarget name e'.world (or_fresh o) (
              or_fresh (
                changed
                  (λ t. record t {
                    known_time =
                        some
                          (time_from calls (or_fresh o).kind (or_fresh o).known_time name e'.world);
                  })
                  o))
      go none = IsSameTarget-refl name e'.world new_target
      go (some t) = record {
        same_status = refl;
        same_deps = refl;
        same_failed = refl;
        same_exists = refl;
        same_time = time_again t.kind t.known_time name e'.world;
      }

  -- What is read of the disk is the same.
  pub exists_of-IsSame :
      (e e' : Engine World)
      → IsSame e e'
      → (n : List ℕ) → exists_of calls e' n ≡ exists_of calls e n
  exists_of-IsSame e e' s n =
      ap
        (λ w.
          exists_from calls (target_of e'.targets n).kind (target_of e'.targets n).known_exists n w)
        s.same_world
      ∙ (s.same_target n).same_exists

  pub timestamp_of-IsSame :
      (e e' : Engine World)
      → IsSame e e'
      → (n : List ℕ) → timestamp_of calls e' n ≡ timestamp_of calls e n
  timestamp_of-IsSame e e' s n =
      ap
        (λ w. time_from calls (target_of e'.targets n).kind (target_of e'.targets n).known_time n w)
        s.same_world
      ∙ (s.same_target n).same_time
