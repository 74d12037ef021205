-- ===== src/Build/Update.antt =====
-- lua/mkinit.lua: `__target:bring_up_to_date`.
use presto_build.Base.{
  ℕ, zero, suc, leb, List, [], ◌∷◌, Bool, true, false, not, ◌||◌, same_text, if◌then◌else◌,
}
use presto_build.File.Times.{earlier}
use presto_build.Build.Target.{Status, unchanged, updated, running, error, target_of}
use presto_build.Build.Depends.{has, insert}
use presto_build.Build.Engine.{
  bad_message, BuildCalls, Engine, index_function, no_rule, Reply, gives, throws, unfinished, write,
  set_status, start, exists_of, timestamp_of, keep_exists, keep_time,
}

-- How the loop over the dependencies ends: with `must_build` and `must_wait`, or by a return.
pub data Visit (W : Type 0) : Type 0 where
  done : Bool → Bool → Engine W → Visit W
  left : Reply → Engine W → Visit W

-- self.deps[name] = nil
abbrev pub remove : List ℕ → List (List ℕ) → List (List ℕ)
remove name [] = []
remove name (d ∷ ds) = let rest = remove name ds in if same_text d name then rest else d ∷ rest

-- self.deps_newer[dep_name] = true
abbrev pub mark_newer : {W : Type 0} → List ℕ → List ℕ → Engine W → Engine W
mark_newer self dep e = write self (λ t. record t { deps_newer = insert dep t.deps_newer }) e

-- The failed dependency is taken off, and `dep_status` is an error.
abbrev pub prune : {W : Type 0} → List ℕ → List ℕ → Engine W → Engine W
prune self dep e = write self (λ t. record t { deps = remove dep t.deps; dep_failed = true }) e

-- What the loop does with a dependency that could not be updated.
unfoldable pub failed_dep :
    {W : Type 0}
    → List ℕ
    → List ℕ
    → Bool
    → Bool
    → (Bool → Bool → Engine W → Visit W)
    → Engine W
    → Visit W
failed_dep self dep must wait rest e =
    let more = rest must wait (prune self dep e) in
    if e.flags.keep_going then more else left (gives error) (set_status self error e)

module _ (calls : BuildCalls) where
  open calls use {World}

  -- Whether self.timestamp < dep.timestamp, both of which are kept.
  abbrev pub is_older : List ℕ → List ℕ → Engine World → Bool
  is_older self dep e =
      earlier (timestamp_of calls e self) (timestamp_of calls (keep_time calls self e) dep)

  abbrev pub keep_times : List ℕ → List ℕ → Engine World → Engine World
  keep_times self dep e = keep_time calls dep (keep_time calls self e)

  -- One round of the loop, after pcall(dep.bring_up_to_date, dep).
  unfoldable pub after_dep :
      List ℕ
      → List ℕ
      → Bool
      → Bool
      → (Bool → Bool → Engine World → Visit World)
      → Reply × Engine World
      → Visit World
  after_dep self dep must wait rest (gives updated, e) = rest true wait (mark_newer self dep e)
  after_dep self dep must wait rest (gives unchanged, e) =
      let e' = keep_times self dep e in
      if is_older self dep e then rest true wait (mark_newer self dep e') else rest must wait e'
  after_dep self dep must wait rest (gives error, e) =
      if has e.unprintable dep
      then left (throws bad_message) e
      else failed_dep self dep must wait rest e
  after_dep self dep must wait rest (throws t, e) = failed_dep self dep must wait rest e
  after_dep self dep must wait rest (gives running, e) =
      let more = rest must true e in if leb e.slots e.count then done must true e else more
  after_dep self dep must wait rest (unfinished, e) = left unfinished e

  unfoldable pub visit :
      (List ℕ → Engine World → Reply × Engine World)
      → List ℕ
      → List (List ℕ)
      → Bool
      → Bool
      → Engine World
      → Visit World
  visit bring self [] must wait e = done must wait e
  visit bring self (dep ∷ deps) must wait e =
      after_dep self dep must wait (visit bring self deps) (bring dep e)

  -- There is no command: an error, unless the target is there and had to be built for always_make only.
  unfoldable pub without_command : List ℕ → Engine World → Reply × Engine World
  without_command self e =
      let kept = if e.flags.always_make then keep_exists calls self e else e in
      if not e.flags.always_make || not (exists_of calls e self)
      then (throws (no_rule self), set_status self error kept)
      else (gives unchanged, kept)

  -- `phony_target.command` is read of a function, which raises an error.
  unfoldable pub build_now : List ℕ → Engine World → Reply × Engine World
  build_now self e =
      if e.flags.question
      then (throws index_function, e)
      else if (target_of e.targets self).has_command
      then start calls self e
      else without_command self e

  unfoldable pub conclude : List ℕ → Visit World → Reply × Engine World
  conclude self (left reply e) = (reply, e)
  conclude self (done must wait e) =
      if wait
      then (gives running, e)
      else if (target_of e.targets self).dep_failed
      then (gives error, set_status self error e)
      else if must
      then build_now self e
      else (gives unchanged, e)

  -- make.flags.always_make or not(self.exists)
  abbrev pub needed : List ℕ → Engine World → Bool
  needed self e = e.flags.always_make || not (exists_of calls e self)

  abbrev pub opened : List ℕ → Engine World → Engine World
  opened self e = if e.flags.always_make then e else keep_exists calls self e

  unfoldable pub build_target :
      (List ℕ → Engine World → Reply × Engine World) → List ℕ → Engine World → Reply × Engine World
  build_target bring self e =
      conclude self
        (visit bring self (target_of e.targets self).deps (needed self e) false (opened self e))

  abbrev pub unless_settled : Status → Reply × Engine World → Engine World → Reply × Engine World
  unless_settled unchanged built e = built
  unless_settled updated built e = (gives updated, e)
  unless_settled running built e = (gives running, e)
  unless_settled error built e = (gives error, e)

  unfoldable pub bring_up_to_date : ℕ → List ℕ → Engine World → Reply × Engine World
  bring_up_to_date zero self e = (unfinished, e)
  bring_up_to_date (suc fuel) self e =
      unless_settled (target_of e.targets self).status (build_target (bring_up_to_date fuel) self e)
        e
