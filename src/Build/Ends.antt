-- ===== src/Build/Ends.antt =====
-- lua/mkinit.lua, `bring_up_to_date`: proofs on its parts, for a reply that its fuel is enough for.
use mathlib.Core.List.{Memᴰ}
use presto_build.Base.{
  if_cases, ℕ, ◌+◌, ◌≡◌, ◌≢◌, refl, leb, some, List, [], ◌∷◌, Bool, true, false, not, ◌||◌,
  if◌then◌else◌,
}
use presto_build.Build.Target.{
  Status, unchanged, updated, running, error, Target, Targets, target_of, modify,
}
use presto_build.Build.Depends.{has, insert}
use presto_build.Build.Engine.{
  bad_message, BuildCalls, Resumed, raised, dead, yielded, Engine, index_function, no_rule, Reply,
  gives, throws, unfinished, write, set_status, after_begin, start, exists_of, timestamp_of,
  keep_exists, keep_time,
}
use presto_build.Build.Update.{
  Visit, done, left, remove, mark_newer, prune, failed_dep, is_older, keep_times, after_dep, visit,
  without_command, build_now, conclude, needed, opened, build_target, unless_settled,
}
use presto_build.Build.Grows.{Grows, Grows-trans, Tame, Grows-modify, deps_of_Grows, remove-less}
use presto_build.Build.Cycles.{IsDep}

-- Dependencies were only taken off, and the flag always_make is as it was.
abbrev pub Later : {W : Type 0} → Targets → Bool → Engine W → Type 0
Later ts always e = Grows ts e.targets × (e.flags.always_make ≡ always)

-- The reply of a call is as `Ok` says, and the rest as in `Later`.
abbrev pub HasEnded : {W : Type 0} → (Reply → Type 0) → Targets → Bool → Reply × Engine W → Type 0
HasEnded Ok ts always (r, e) = Ok r × Later ts always e

abbrev HasLeft : {W : Type 0} → (Reply → Type 0) → Targets → Bool → Visit W → Type 0
HasLeft Ok ts always (done must wait e) = Later ts always e
HasLeft Ok ts always (left r e) = Ok r × Later ts always e

module _ {W : Type 0} (ts : Targets) (always : Bool) where
  pub written :
      (name : List ℕ) (f : Target → Target) (e : Engine W)
      → Tame f
      → Later ts always e
      → Later ts always (write name f e)
  written name f e tame g = (
    Grows-trans ts e.targets (modify name f e.targets) g.0 (Grows-modify name f e.targets tame),
    g.1,
  )

  status_written :
      (name : List ℕ) (s : Status) (e : Engine W)
      → Later ts always e
      → Later ts always (set_status name s e)
  status_written name s e =
      written name (λ t. record t { status = s }) e (λ t. ((λ f. f), λ d m. m))

module _ {W : Type 0} (ts : Targets) (always : Bool) (Ok : Reply → Type 0)
    (ok : (r : Reply) → r ≢ unfinished → Ok r) where
  after_begin-HasEnded :
      (self : List ℕ) (back : Resumed) (e : Engine W)
      → Later ts always e
      → HasEnded Ok ts always (after_begin self back e)
  unfolding after_begin
  after_begin-HasEnded self (raised printed) e g =
      (ok _ (λ same. cc), status_written ts always self error e g)
  after_begin-HasEnded self dead e g =
      (ok _ (λ same. cc), status_written ts always self updated e g)
  after_begin-HasEnded self (yielded handle) e g =
      (ok _ (λ same. cc), status_written ts always self running e g)

module _ (calls : BuildCalls) (ts : Targets) (always : Bool) (Ok : Reply → Type 0)
    (ok : (r : Reply) → r ≢ unfinished → Ok r) (self : List ℕ) where
  open calls use {World, begin}

  exists_written :
      (e : Engine World) → Later ts always e → Later ts always (keep_exists calls self e)
  exists_written e =
      written ts always self (λ t. record t { known_exists = some (exists_of calls e self) }) e
        (λ t. ((λ f. f), λ d m. m))

  start-HasEnded :
      (e : Engine World) → Later ts always e → HasEnded Ok ts always (start calls self e)
  unfolding start
  start-HasEnded e g =
      let (back, world) = begin self (e.pos + 1) e.world in
      after_begin-HasEnded ts always Ok ok self back _ g

  without_command-HasEnded :
      (e : Engine World) → Later ts always e → HasEnded Ok ts always (without_command calls self e)
  unfolding without_command
  without_command-HasEnded e g =
      go (if e.flags.always_make then keep_exists calls self e else e)
        (not e.flags.always_make || not (exists_of calls e self)) (kept e.flags.always_make)
    where
      kept : (b : Bool) → Later ts always (if b then keep_exists calls self e else e)
      kept true = exists_written e g
      kept false = g

      go :
          (x : Engine World) (b : Bool)
          → Later ts always x
          → HasEnded Ok ts always
              (if b then (throws (no_rule self), set_status self error x) else (gives unchanged, x))
      go x true h = (ok _ (λ same. cc), status_written ts always self error x h)
      go x false h = (ok _ (λ same. cc), h)

  conclude-HasEnded :
      (v : Visit World) → HasLeft Ok ts always v → HasEnded Ok ts always (conclude calls self v)
  unfolding conclude build_now
  conclude-HasEnded (left r e) h = h
  conclude-HasEnded (done must wait e) g =
      go wait (target_of e.targets self).dep_failed must e.flags.question
        (target_of e.targets self).has_command
    where
      go :
          (wait failed must ask command : Bool)
          → HasEnded Ok ts always (
              if wait
              then (gives running, e)
              else if failed
              then (gives error, set_status self error e)
              else if must
              then (if ask
                  then (throws index_function, e)
                  else if command
                  then start calls self e
                  else without_command calls self e)
              else (gives unchanged, e))
      go true failed must ask command = (ok _ (λ same. cc), g)
      go false true must ask command = (ok _ (λ same. cc), status_written ts always self error e g)
      go false false false ask command = (ok _ (λ same. cc), g)
      go false false true true command = (ok _ (λ same. cc), g)
      go false false true false true = start-HasEnded e g
      go false false true false false = without_command-HasEnded e g

  failed_dep-HasLeft :
      (dep : List ℕ) (must wait : Bool) (rest : Bool → Bool → Engine World → Visit World)
      (e : Engine World)
      → ((must wait : Bool) (x : Engine World)
          → Later ts always x
          → HasLeft Ok ts always (rest must wait x))
      → Later ts always e
      → HasLeft Ok ts always (failed_dep self dep must wait rest e)
  unfolding failed_dep
  failed_dep-HasLeft dep must wait rest e more g = go e.flags.keep_going
    where
      go :
          (b : Bool)
          → HasLeft Ok ts always (
              if b
              then rest must wait (prune self dep e)
              else left (gives error) (set_status self error e))
      go true = more must wait (prune self dep e) (
          written ts always self (λ t. record t { deps = remove dep t.deps; dep_failed = true }) e
            (λ t. ((λ f. refl), λ d. remove-less dep d t.deps)) g)
      go false = (ok _ (λ same. cc), status_written ts always self error e g)

  newer_written :
      (dep : List ℕ) (e : Engine World)
      → Later ts always e
      → Later ts always (mark_newer self dep e)
  newer_written dep e =
      written ts always self (λ t. record t { deps_newer = insert dep t.deps_newer }) e
        (λ t. ((λ f. f), λ d m. m))

  time_written :
      (name : List ℕ) (e : Engine World)
      → Later ts always e
      → Later ts always (keep_time calls name e)
  time_written name e =
      written ts always name (λ t. record t { known_time = some (timestamp_of calls e name) }) e
        (λ t. ((λ f. f), λ d m. m))

  after_dep-HasLeft :
      (dep : List ℕ) (must wait : Bool) (rest : Bool → Bool → Engine World → Visit World)
      (out : Reply × Engine World)
      → ((must wait : Bool) (x : Engine World)
          → Later ts always x
          → HasLeft Ok ts always (rest must wait x))
      → HasEnded Ok ts always out
      → HasLeft Ok ts always (after_dep calls self dep must wait rest out)
  unfolding after_dep
  after_dep-HasLeft dep must wait rest (gives updated, e) more (ne, g) =
      more true wait (mark_newer self dep e) (newer_written dep e g)
  after_dep-HasLeft dep must wait rest (gives unchanged, e) more (ne, g) =
      go (is_older calls self dep e)
    where
      now : Later ts always (keep_times calls self dep e)
      now = time_written dep (keep_time calls self e) (time_written self e g)

      go :
          (b : Bool)
          → HasLeft Ok ts always (
              if b
              then rest true wait (mark_newer self dep (keep_times calls self dep e))
              else rest must wait (keep_times calls self dep e))
      go true = more true wait _ (newer_written dep (keep_times calls self dep e) now)
      go false = more must wait _ now
  after_dep-HasLeft dep must wait rest (gives error, e) more (ne, g) =
      if_cases (HasLeft Ok ts always) (has e.unprintable dep) (left (throws bad_message) e)
        (failed_dep self dep must wait rest e) (ok _ (λ same. cc), g)
        (failed_dep-HasLeft dep must wait rest e more g)
  after_dep-HasLeft dep must wait rest (throws t, e) more (ne, g) =
      failed_dep-HasLeft dep must wait rest e more g
  after_dep-HasLeft dep must wait rest (gives running, e) more (ne, g) = go (leb e.slots e.count)
    where
      go : (b : Bool) → HasLeft Ok ts always (if b then done must true e else rest must true e)
      go true = g
      go false = more must true e g
  after_dep-HasLeft dep must wait rest (unfinished, e) more (fine, g) = (fine, g)

  visit-HasLeft :
      (bring : List ℕ → Engine World → Reply × Engine World) (deps : List (List ℕ))
      → ((d : List ℕ)
          → Memᴰ d deps
          → (x : Engine World) → Later ts always x
          → HasEnded Ok ts always (bring d x))
      → (must wait : Bool) (e : Engine World) → Later ts always e
      → HasLeft Ok ts always (visit calls bring self deps must wait e)
  unfolding visit
  visit-HasLeft bring [] ends must wait e g = g
  visit-HasLeft bring (dep ∷ deps) ends must wait e g =
      after_dep-HasLeft dep must wait (visit calls bring self deps) (bring dep e)
        (visit-HasLeft bring deps (λ d m. ends d (Memᴰ.tail m))) (ends dep (Memᴰ.head refl) e g)

  pub unless_settled-HasEnded :
      (s : Status) (built : Reply × Engine World) (e : Engine World)
      → HasEnded Ok ts always built
      → Later ts always e
      → HasEnded Ok ts always (unless_settled calls s built e)
  unless_settled-HasEnded unchanged built e h g = h
  unless_settled-HasEnded updated built e h g = (ok _ (λ same. cc), g)
  unless_settled-HasEnded running built e h g = (ok _ (λ same. cc), g)
  unless_settled-HasEnded error built e h g = (ok _ (λ same. cc), g)

  pub build_target-HasEnded :
      (bring : List ℕ → Engine World → Reply × Engine World) (e : Engine World)
      → ((d : List ℕ)
          → IsDep ts d self
          → (x : Engine World) → Later ts always x
          → HasEnded Ok ts always (bring d x))
      → Later ts always e
      → HasEnded Ok ts always (build_target calls bring self e)
  unfolding build_target
  build_target-HasEnded bring e ends g = conclude-HasEnded _ (
      visit-HasLeft bring (target_of e.targets self).deps
        (λ d m. ends d (deps_of_Grows ts e.targets g.0 self d m)) (needed calls self e) false
        (opened calls self e) (open_written e.flags.always_make))
    where
      open_written : (b : Bool) → Later ts always (if b then e else keep_exists calls self e)
      open_written true = g
      open_written false = exists_written e g
