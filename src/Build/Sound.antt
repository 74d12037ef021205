-- ===== src/Build/Sound.antt =====
-- lua/mkinit.lua, the loop of `bring_up_to_date`: proofs on rounds that find nothing to be done.
use mathlib.Core.List.{Memᴰ}
use mathlib.Core.List.Memᴰ
use presto_build.Base.{
  if_cases, ℕ, ◌≡◌, ◌≢◌, ◌⊎◌, inl, inr, refl, sym, subst, ap, ◌∙◌, leb, some, List, [], ◌∷◌, Bool,
  true, false, if◌then◌else◌,
}
use presto_build.File.Times.{earlier}
use presto_build.Build.Target.{unchanged, updated, running, error, Targets, target_of, defined}
use presto_build.Build.Depends.{has, insert}
use presto_build.Build.Engine.{
  bad_message, BuildCalls, Engine, Reply, gives, throws, unfinished, set_status, exists_of,
  timestamp_of, keep_time,
}
use presto_build.Build.Update.{
  Visit, done, left, remove, mark_newer, prune, failed_dep, is_older, keep_times, after_dep, visit,
}
use presto_build.Build.Grows.{
  Grows, Grows-refl, Grows-trans, failed_of_Grows, defined_of_Grows, remove-less,
}
use presto_build.Build.Visits.{failed-modify}
use presto_build.Build.Ends.{Later, HasEnded, written}
use presto_build.Build.Same.{UpToDate, IsSame, IsSame-keep_time, timestamp_of-IsSame}

module _ (calls : BuildCalls) (e : Engine calls.World) where
  open calls use {World}

  -- Where a call finds nothing to be done, nothing has changed, and the target is up to date.
  abbrev pub IsSound : List ℕ → Reply × Engine World → Type 0
  IsSound n (gives unchanged, y) = IsSame calls e y × UpToDate calls e n
  IsSound n (gives updated, y) = Unit
  IsSound n (gives running, y) = Unit
  IsSound n (gives error, y) = Unit
  IsSound n (throws t, y) = Unit
  IsSound n (unfinished, y) = Unit

  -- The loop will not end with nothing to be done.
  abbrev pub IsDoomed : List ℕ → Bool → Bool → Engine World → Type 0
  IsDoomed self must wait x =
      (must ≡ true) ⊎ ((wait ≡ true) ⊎ ((target_of x.targets self).dep_failed ≡ true))

  abbrev IsGood : List ℕ → List ℕ → Type 0
  IsGood self d =
      UpToDate calls e d × (earlier (timestamp_of calls e self) (timestamp_of calls e d) ≡ false)

  -- The target exists; the dependencies but `rest` are up to date, and not newer.
  abbrev pub IsClear : List ℕ → List (List ℕ) → List (List ℕ) → Engine World → Type 0
  IsClear self all rest x =
      IsSame calls e x
      × (exists_of calls e self ≡ true)
      × ((d : List ℕ) → Memᴰ d all → Memᴰ d rest ⊎ IsGood self d)

  abbrev pub IsGoing :
      Targets → List ℕ → List (List ℕ) → List (List ℕ) → Bool → Bool → Engine World → Type 0
  IsGoing ts self all rest must wait x =
      Later ts false x × (IsDoomed self must wait x ⊎ IsClear self all rest x)

  abbrev pub IsGone : Targets → List ℕ → List (List ℕ) → Visit World → Type 0
  IsGone ts self all (left r y) = r ≢ gives unchanged
  IsGone ts self all (done must wait y) = IsGoing ts self all [] must wait y

  IsDoomed-Grows :
      (self : List ℕ) (must wait : Bool) (x y : Engine World)
      → Grows x.targets y.targets
      → IsDoomed self must wait x
      → IsDoomed self must wait y
  IsDoomed-Grows self must wait x y g (inl m) = inl m
  IsDoomed-Grows self must wait x y g (inr (inl w)) = inr (inl w)
  IsDoomed-Grows self must wait x y g (inr (inr f)) =
      inr (inr (failed_of_Grows x.targets y.targets g self f))

  Later-trans :
      (ts : Targets) (x y : Engine World)
      → Later ts false x
      → Later x.targets false y
      → Later ts false y
  Later-trans ts x y l m = (Grows-trans ts x.targets y.targets l.0 m.0, m.1)

  module _ (ts : Targets) (self : List ℕ) (def : defined ts self ≡ true) (all : List (List ℕ)) where
    abbrev Continues : List (List ℕ) → (Bool → Bool → Engine World → Visit World) → Type 0
    Continues rest more =
        (must wait : Bool) (y : Engine World)
        → IsGoing ts self all rest must wait y
        → IsGone ts self all (more must wait y)

    newer :
        (dep : List ℕ) (y : Engine World)
        → Later ts false y
        → Later ts false (mark_newer self dep y)
    newer dep y =
        written ts false self (λ t. record t { deps_newer = insert dep t.deps_newer }) y
          (λ t. ((λ f. f), λ d m. m))

    timed :
        (us : Targets) (name : List ℕ) (y : Engine World)
        → Later us false y
        → Later us false (keep_time calls name y)
    timed us name y =
        written us false name (λ t. record t { known_time = some (timestamp_of calls y name) }) y
          (λ t. ((λ f. f), λ d m. m))

    failed_dep-Gone :
        (dep : List ℕ) (rest : List (List ℕ)) (must wait : Bool)
        (more : Bool → Bool → Engine World → Visit World) (y : Engine World)
        → Continues rest more
        → Later ts false y
        → IsGone ts self all (failed_dep self dep must wait more y)
    unfolding failed_dep
    failed_dep-Gone dep rest must wait more y continues later = go y.flags.keep_going
      where
        go :
            (b : Bool)
            → IsGone ts self all (
                if b
                then more must wait (prune self dep y)
                else left (gives error) (set_status self error y))
        go true = continues must wait (prune self dep y) (
          written ts false self (λ t. record t { deps = remove dep t.deps; dep_failed = true }) y
              (λ t. ((λ f. refl), λ d. remove-less dep d t.deps)) later,
          inl (
              inr (
                inr (
                  failed-modify self dep y.targets
                    (defined_of_Grows ts y.targets later.0 self def)))),
        )
        go false = λ same. cc

    -- After a dependency with nothing to be done.
    unchanged-Gone :
        (dep : List ℕ) (rest : List (List ℕ)) (must wait : Bool)
        (more : Bool → Bool → Engine World → Visit World) (y : Engine World)
        → Continues rest more
        → Later ts false y
        → IsDoomed self must wait y ⊎ (IsClear self all (dep ∷ rest) y × UpToDate calls e dep)
        → IsGone ts self all (after_dep calls self dep must wait more (gives unchanged, y))
    unfolding after_dep
    unchanged-Gone dep rest must wait more y continues later found =
        go (is_older calls self dep y) refl found
      where
        later' : Later ts false (keep_times calls self dep y)
        later' = timed ts dep (keep_time calls self y) (timed ts self y later)

        grows' : Grows y.targets (keep_times calls self dep y).targets
        grows' =
            (timed y.targets dep (keep_time calls self y)
              (timed y.targets self y (Grows-refl y.targets, later.1))).0

        read :
            IsSame calls e y
            → is_older calls self dep y
              ≡ earlier (timestamp_of calls e self) (timestamp_of calls e dep)
        read s =
            ap (λ v. earlier v (timestamp_of calls (keep_time calls self y) dep))
              (timestamp_of-IsSame calls e y s self)
            ∙ ap (earlier (timestamp_of calls e self)) (
                timestamp_of-IsSame calls e (keep_time calls self y)
                  (IsSame-keep_time calls e y self s) dep)

        go :
            (b : Bool)
            → is_older calls self dep y ≡ b
            → IsDoomed self must wait y ⊎ (IsClear self all (dep ∷ rest) y × UpToDate calls e dep)
            → IsGone ts self all (
                if b
                then more true wait (mark_newer self dep (keep_times calls self dep y))
                else more must wait (keep_times calls self dep y))
        go true same f =
            continues true wait (mark_newer self dep (keep_times calls self dep y))
              (newer dep (keep_times calls self dep y) later', inl (inl refl))
        go false same (inl doomed) = continues must wait (keep_times calls self dep y) (
          later',
          inl (IsDoomed-Grows self must wait y (keep_times calls self dep y) grows' doomed),
        )
        go false same (inr ((s, there, covered), up)) =
            continues must wait (keep_times calls self dep y) (
              later',
              inr (
                IsSame-keep_time calls e (keep_time calls self y) dep
                    (IsSame-keep_time calls e y self s),
                there,
                (λ d m. elim (covered d m) [
                  | inl k ↦ elim (Memᴰ.cases_cons k) [
                    | inl here ↦ inr (subst (IsGood self) (sym here) (up, sym (read s) ∙ same))
                    | inr later ↦ inl later
                  ]
                  | inr k ↦ inr k
                ]),
              ),
            )

    after_dep-Gone :
        (dep : List ℕ) (rest : List (List ℕ)) (must wait : Bool)
        (more : Bool → Bool → Engine World → Visit World) (x : Engine World)
        (out : Reply × Engine World)
        → Continues rest more
        → IsGoing ts self all (dep ∷ rest) must wait x
        → HasEnded (λ r. Unit) x.targets false out
        → (IsSame calls e x → IsSound dep out)
        → IsGone ts self all (after_dep calls self dep must wait more out)
    unfolding after_dep
    after_dep-Gone dep rest must wait more x (gives updated, y) continues (l, i) (u, g) sound =
        continues true wait (mark_newer self dep y)
          (newer dep y (Later-trans ts x y l g), inl (inl refl))
    after_dep-Gone dep rest must wait more x (gives unchanged, y) continues (l, i) (u, g) sound =
        unchanged-Gone dep rest must wait more y continues (Later-trans ts x y l g) (elim i [
          | inl doomed ↦ inl (IsDoomed-Grows self must wait x y g.0 doomed)
          | inr (s, there, covered) ↦ inr (((sound s).0, there, covered), (sound s).1)
        ])
    after_dep-Gone dep rest must wait more x (gives error, y) continues (l, i) (u, g) sound =
        if_cases (IsGone ts self all) (has y.unprintable dep) (left (throws bad_message) y)
          (failed_dep self dep must wait more y) (λ same. cc)
          (failed_dep-Gone dep rest must wait more y continues (Later-trans ts x y l g))
    after_dep-Gone dep rest must wait more x (throws t, y) continues (l, i) (u, g) sound =
        failed_dep-Gone dep rest must wait more y continues (Later-trans ts x y l g)
    after_dep-Gone dep rest must wait more x (gives running, y) continues (l, i) (u, g) sound =
        go (leb y.slots y.count)
      where
        go : (b : Bool) → IsGone ts self all (if b then done must true y else more must true y)
        go true = (Later-trans ts x y l g, inl (inr (inl refl)))
        go false = continues must true y (Later-trans ts x y l g, inl (inr (inl refl)))
    after_dep-Gone dep rest must wait more x (unfinished, y) continues i g sound = λ same. cc

    pub visit-Gone :
        (bring : List ℕ → Engine World → Reply × Engine World)
        → ((n : List ℕ) (x : Engine World) → IsSame calls e x → IsSound n (bring n x))
        → ((n : List ℕ) (x : Engine World)
            → x.flags.always_make ≡ false
            → HasEnded (λ r. Unit) x.targets false (bring n x))
        → (rest : List (List ℕ)) → Continues rest (visit calls bring self rest)
    unfolding visit
    visit-Gone bring sounds ends [] must wait x going = going
    visit-Gone bring sounds ends (dep ∷ rest) must wait x going =
        after_dep-Gone dep rest must wait (visit calls bring self rest) x (bring dep x)
          (visit-Gone bring sounds ends rest) going (ends dep x going.0.1) (sounds dep x)
