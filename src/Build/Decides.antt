-- ===== src/Build/Decides.antt =====
-- lua/mkinit.lua, `bring_up_to_date`: proofs on calls that find nothing to be done.
use mathlib.Core.List.Memᴰ
use presto_build.Base.{
  ℕ, zero, suc, ◌+◌, ◌≡◌, ◌≢◌, ◌⊎◌, inl, inr, refl, sym, subst, ◌∙◌, Option, none, some, List, [],
  ◌∷◌, Bool, true, false, not, ◌||◌, Bool-cases, if◌then◌else◌,
}
use presto_build.Build.Target.{
  Status, unchanged, updated, running, error, Target, Targets, or_fresh, target_of, defined,
}
use presto_build.Build.Engine.{
  BuildCalls, Resumed, raised, dead, yielded, Engine, index_function, no_rule, Reply, gives, throws,
  unfinished, target_status, set_status, after_begin, start, exists_of, keep_exists,
}
use presto_build.Build.Update.{
  Visit, done, left, visit, without_command, build_now, conclude, needed, opened, build_target,
  unless_settled, bring_up_to_date,
}
use presto_build.Build.Grows.{Grows-refl}
use presto_build.Build.Commands.{Grows-kept}
use presto_build.Build.Ends.{HasEnded}
use presto_build.Build.Total.{bring_up_to_date-Later}
use presto_build.Build.Same.{
  UpToDate, up_to_date, IsSame, IsSame-refl, IsSame-keep_exists, exists_of-IsSame,
}
use presto_build.Build.Sound.{IsSound, IsDoomed, IsClear, IsGoing, IsGone, visit-Gone}

module _ (calls : BuildCalls) (e : Engine calls.World) (self : List ℕ) where
  open calls use {World, begin}

  -- Without always_make, a target that must be built does not end with nothing to be done.
  build_now-Sound :
      (y : Engine World)
      → y.flags.always_make ≡ false
      → IsSound calls e self (build_now calls self y)
  unfolding build_now start without_command after_begin
  build_now-Sound y plain =
      go y.flags.question (target_of y.targets self).has_command y.flags.always_make plain
        (not (exists_of calls y self))
    where
      begun : (back : Resumed) (x : Engine World) → IsSound calls e self (after_begin self back x)
      begun (raised printed) x = tt
      begun dead x = tt
      begun (yielded handle) x = tt

      go :
          (ask command always : Bool)
          → always ≡ false
          → (absent : Bool)
          → IsSound calls e self (
              if ask
              then (throws index_function, y)
              else if command
              then start calls self y
              else (if not always || absent
                  then (
                    throws (no_rule self),
                    set_status self error (if always then keep_exists calls self y else y),
                  )
                  else (gives unchanged, (if always then keep_exists calls self y else y))))
      go true command always none_made absent = tt
      go false true always none_made absent =
          let (back, world) = begin self (y.pos + 1) y.world in begun back _
      go false false false none_made absent = tt
      go false false true none_made absent = cc

  conclude-Sound :
      (ts : Targets) (v : Visit World)
      → target_status e self ≡ unchanged
      → IsGone calls e ts self (target_of e.targets self).deps v
      → IsSound calls e self (conclude calls self v)
  unfolding conclude
  conclude-Sound ts (left r y) status gone = go r gone
    where
      go : (s : Reply) → s ≢ gives unchanged → IsSound calls e self (s, y)
      go (gives unchanged) ne = absurd (ne refl)
      go (gives updated) ne = tt
      go (gives running) ne = tt
      go (gives error) ne = tt
      go (throws t) ne = tt
      go unfinished ne = tt
  conclude-Sound ts (done must wait y) status (later, i) =
      go wait must (target_of y.targets self).dep_failed refl i
    where
      go :
          (w m failed : Bool)
          → (target_of y.targets self).dep_failed ≡ failed
          → IsDoomed calls e self m w y ⊎ IsClear calls e self (target_of e.targets self).deps [] y
          → IsSound calls e self (
              if w
              then (gives running, y)
              else if failed
              then (gives error, set_status self error y)
              else if m
              then build_now calls self y
              else (gives unchanged, y))
      go true m failed same j = tt
      go false m true same j = tt
      go false true false same j = build_now-Sound y later.1
      go false false false same (inl (inl absent)) = cc
      go false false false same (inl (inr (inl absent))) = cc
      go false false false same (inl (inr (inr absent))) = cc
      go false false false same (inr (s, there, covered)) = (
        s,
        up_to_date status (sym (s.same_target self).same_failed ∙ same) there
            (λ d m. elim (covered d m) [ inl k ↦ absurd (Memᴰ.not-nil k) | inr good ↦ good.1 ])
            (λ d m. elim (covered d m) [ inl k ↦ absurd (Memᴰ.not-nil k) | inr good ↦ good.0 ]),
      )

  -- The loop from its start.
  started-Gone :
      (bring : List ℕ → Engine World → Reply × Engine World)
      → ((n : List ℕ) (x : Engine World) → IsSame calls e x → IsSound calls e n (bring n x))
      → ((n : List ℕ) (x : Engine World)
          → x.flags.always_make ≡ false
          → HasEnded (λ r. Unit) x.targets false (bring n x))
      → (ts : Targets) (must : Bool) (x : Engine World) (deps : List (List ℕ))
      → deps ≡ (or_fresh (ts self)).deps
      → IsGoing calls e ts self deps deps must false x
      → IsGone calls e ts self deps (visit calls bring self deps must false x)
  unfolding visit
  started-Gone bring sounds ends ts must x deps same going = elim (Bool-cases (defined ts self)) [
    | inl def ↦ visit-Gone calls e ts self def deps bring sounds ends deps must false x going
    | inr undef ↦ bare deps (same ∙ no_deps (ts self) undef) going
  ]
    where
      no_deps :
          (o : Option Target)
          → (elim o [ none ↦ false | some t ↦ true ]) ≡ false
          → (or_fresh o).deps ≡ []
      no_deps none h = refl
      no_deps (some t) h = cc

      bare :
          (ds : List (List ℕ))
          → ds ≡ []
          → IsGoing calls e ts self ds ds must false x
          → IsGone calls e ts self ds (visit calls bring self ds must false x)
      bare [] empty g = g
      bare (d ∷ ds) empty g = cc

  build_target-Sound :
      (bring : List ℕ → Engine World → Reply × Engine World)
      → ((n : List ℕ) (x : Engine World) → IsSame calls e x → IsSound calls e n (bring n x))
      → ((n : List ℕ) (x : Engine World)
          → x.flags.always_make ≡ false
          → HasEnded (λ r. Unit) x.targets false (bring n x))
      → (x : Engine World) → e.flags.always_make ≡ false
      → IsSame calls e x
      → target_status e self ≡ unchanged
      → IsSound calls e self (build_target calls bring self x)
  unfolding build_target
  build_target-Sound bring sounds ends x plain s status = conclude-Sound x.targets _ status (
      subst
        (λ ds. IsGone calls e x.targets self ds (
          visit calls bring self (target_of x.targets self).deps (needed calls self x) false
            (opened calls self x)))
        (s.same_target self).same_deps
        (started-Gone bring sounds ends x.targets (needed calls self x) (opened calls self x)
          (target_of x.targets self).deps refl
          (start_from x.flags.always_make (s.same_always ∙ plain))))
    where
      in_doubt : (a b : Bool) → b ≡ false → (a || not b) ≡ true
      in_doubt true b absent = refl
      in_doubt false false absent = refl
      in_doubt false true absent = cc

      begins :
          (z : Engine World)
          → IsSame calls e z
          → IsDoomed calls e self (needed calls self x) false z
            ⊎ IsClear calls e self (target_of x.targets self).deps (target_of x.targets self).deps z
      begins z same = elim (Bool-cases (exists_of calls e self)) [
        | inl there ↦ inr (same, there, λ d m. inl m)
        | inr absent ↦ inl (
            inl (
              in_doubt x.flags.always_make (exists_of calls x self)
                (exists_of-IsSame calls e x s self ∙ absent)))
      ]

      start_from :
          (b : Bool)
          → x.flags.always_make ≡ false
          → IsGoing calls e x.targets self
              (target_of x.targets self).deps
              (target_of x.targets self).deps
              (needed calls self x)
              false
              (if b then x else keep_exists calls self x)
      start_from true plain_x = ((Grows-refl x.targets, plain_x), begins x s)
      start_from false plain_x = (
        (Grows-kept calls self x, plain_x),
        begins (keep_exists calls self x) (IsSame-keep_exists calls e x self s),
      )

module _ (calls : BuildCalls) (e : Engine calls.World) (plain : e.flags.always_make ≡ false) where
  open calls use {World}

  bring_up_to_date-Sound :
      (fuel : ℕ) (n : List ℕ) (x : Engine World)
      → IsSame calls e x
      → IsSound calls e n (bring_up_to_date calls fuel n x)
  unfolding bring_up_to_date
  bring_up_to_date-Sound zero n x s = tt
  bring_up_to_date-Sound (suc fuel) n x s =
      go (bring_up_to_date-Sound fuel) (target_status x n) refl
    where
      go :
          ((d : List ℕ) (y : Engine World)
            → IsSame calls e y
            → IsSound calls e d (bring_up_to_date calls fuel d y))
          → (status : Status) → target_status x n ≡ status
          → IsSound calls e n
              (unless_settled calls status (build_target calls (bring_up_to_date calls fuel) n x) x)
      go sounds unchanged same =
          build_target-Sound calls e n (bring_up_to_date calls fuel) sounds
            (λ d y plain_y.
              bring_up_to_date-Later calls y.targets false fuel d y (Grows-refl y.targets, plain_y))
            x plain s (sym (s.same_target n).same_status ∙ same)
      go sounds updated same = tt
      go sounds running same = tt
      go sounds error same = tt

  -- Nothing to be done: nothing was done, and the target is up to date.
  pub UpToDate-of_unchanged :
      (fuel : ℕ) (n : List ℕ)
      → (bring_up_to_date calls fuel n e).0 ≡ gives unchanged
      → IsSame calls e (bring_up_to_date calls fuel n e).1 × UpToDate calls e n
  UpToDate-of_unchanged fuel n same =
      go (bring_up_to_date calls fuel n e) same
        (bring_up_to_date-Sound fuel n e (IsSame-refl calls e))
    where
      go :
          (out : Reply × Engine World)
          → out.0 ≡ gives unchanged
          → IsSound calls e n out
          → IsSame calls e out.1 × UpToDate calls e n
      go (gives unchanged, y) eq sound = sound
      go (gives updated, y) eq sound = cc
      go (gives running, y) eq sound = cc
      go (gives error, y) eq sound = cc
      go (throws t, y) eq sound = cc
      go (unfinished, y) eq sound = cc
