-- ===== src/Build/Visits.antt =====
-- lua/mkinit.lua, the loop of `bring_up_to_date`: proofs on the commands that its rounds start.
use presto_build.Base.{
  if_cases, ℕ, ◌<◌, ◌≤◌, ◌≡◌, ◌≢◌, ◌⊎◌, inl, inr, refl, subst, leb, Option, none, some, List, [],
  ◌∷◌, Bool, true, false, same_text_refl, if◌then◌else◌, arith,
}
use presto_build.Build.Target.{
  unchanged, updated, running, error, Target, Targets, or_fresh, target_of, defined, changed,
  modify,
}
use presto_build.Build.Depends.{has, insert}
use presto_build.Build.Engine.{
  bad_message, BuildCalls, keep_time, timestamp_of, Engine, Reply, gives, throws, unfinished,
  set_status,
}
use presto_build.Build.Update.{
  Visit, done, left, remove, mark_newer, prune, failed_dep, is_older, keep_times, after_dep, visit,
}
use presto_build.Build.Grows.{Grows, Grows-trans, Grows-modify, defined_of_Grows, remove-less}
use presto_build.Build.Safe.{
  IsSafe, IsFine, IsVisiting, IsVisited, IsVisiting-write, IsVisiting-calm, IsVisiting-blocks,
}

-- Every call through `bring` is fine, where a slot is free.
abbrev pub Brings : {W : Type 0} → ℕ → (List ℕ → Engine W → Reply × Engine W) → Type 0
Brings {W} slots bring =
    (name : List ℕ) (e : Engine W)
    → IsSafe slots e
    → e.count < slots
    → IsFine slots name e (bring name e).0 (bring name e).1

-- The rest of the loop, from where a slot is free.
abbrev Goes :
    {W : Type 0}
    → ℕ
    → List ℕ
    → List (List ℕ)
    → List (List ℕ)
    → Engine W
    → (Bool → Bool → Engine W → Visit W)
    → Type 0
Goes {W} slots self all rest e more =
    (must wait : Bool) (e' : Engine W)
    → IsVisiting slots self all rest e wait e'
    → e'.count < slots
    → IsVisited slots self all e (more must wait e')

free :
    {W : Type 0} (slots : ℕ) (self : List ℕ) (e : Engine W) (r : Reply) (e' : Engine W)
    → IsFine slots self e r e'
    → r ≢ gives running
    → e'.count < slots
free slots self e r e' fine ne = elim fine.room [ inl lt ↦ lt | inr (same, le) ↦ absurd (ne same) ]

pub failed-modify :
    (self dep : List ℕ) (ts : Targets)
    → defined ts self ≡ true
    → (target_of
        (modify self (λ t. record t { deps = remove dep t.deps; dep_failed = true }) ts)
        self).dep_failed
      ≡ true
unfolding modify
failed-modify self dep ts def = rw (same_text_refl self) (go (ts self) def)
  where
    go :
        (o : Option Target)
        → (elim o [ none ↦ false | some t ↦ true ]) ≡ true
        → (or_fresh
            (changed (λ t. record t { deps = remove dep t.deps; dep_failed = true }) o)).dep_failed
          ≡ true
    go none e = cc
    go (some t) e = refl

not_full : (a b : ℕ) → leb a b ≡ false → b < a
not_full a b h = ground arith

module _ {W : Type 0} (slots : ℕ) (self : List ℕ) (all : List (List ℕ)) (e : Engine W)
    (def : defined e.targets self ≡ true) where
  failed_dep-Visited :
      (dep : List ℕ) (rest : List (List ℕ)) (must wait : Bool)
      (more : Bool → Bool → Engine W → Visit W) (e' e'' : Engine W)
      → Goes slots self all rest e more
      → IsVisiting slots self all (dep ∷ rest) e wait e'
      → IsSafe slots e''
      → e''.count < slots
      → Grows e'.targets e''.targets
      → IsVisited slots self all e (failed_dep self dep must wait more e'')
  unfolding failed_dep
  failed_dep-Visited dep rest must wait more e' e'' goes v safe lt grows = go e''.flags.keep_going
    where
      so_far : Grows e.targets e''.targets
      so_far = Grows-trans e.targets e'.targets e''.targets v.grows grows

      go :
          (b : Bool)
          → IsVisited slots self all e (
              if b
              then more must wait (prune self dep e'')
              else left (gives error) (set_status self error e''))
      go true =
          goes must wait (prune self dep e'')
            (IsVisiting-blocks slots self all e (dep ∷ rest) rest wait wait e' (prune self dep e'')
              v (record { right = safe.right; same_slots = safe.same_slots; tally = safe.tally })
              (Grows-trans e'.targets e''.targets (prune self dep e'').targets grows (
                Grows-modify self _ e''.targets
                  (λ t. ((λ f. refl), λ d. remove-less dep d t.deps))))
              (inr (
                failed-modify self dep e''.targets
                  (defined_of_Grows e.targets e''.targets so_far self def))))
            lt
      go false = (
        (λ calm. calm),
        record { right = safe.right; same_slots = safe.same_slots; tally = safe.tally },
        lt,
        Grows-trans e.targets e''.targets (set_status self error e'').targets so_far (
            Grows-modify self (λ t. record t { status = error }) e''.targets
              (λ t. ((λ f. f), λ d m. m))),
      )

  running-Visited :
      (dep : List ℕ) (rest : List (List ℕ)) (must wait : Bool)
      (more : Bool → Bool → Engine W → Visit W) (e' e'' : Engine W)
      → Goes slots self all rest e more
      → IsVisiting slots self all (dep ∷ rest) e wait e'
      → IsFine slots dep e' (gives running) e''
      → IsVisited slots self all e
          (if leb e''.slots e''.count then done must true e'' else more must true e'')
  running-Visited dep rest must wait more e' e'' goes v fine =
      go (leb e''.slots e''.count)
        (λ full. has_room full (elim fine.room [ inl lt ↦ lt_le lt | inr (same, le) ↦ le ]))
    where
      next : (later : List (List ℕ)) → IsVisiting slots self all later e true e''
      next later =
          IsVisiting-blocks slots self all e (dep ∷ rest) later wait true e' e'' v fine.safe
            fine.grows (inl refl)

      lt_le : e''.count < slots → e''.count ≤ slots
      lt_le lt = omega arith

      has_room : leb e''.slots e''.count ≡ false → e''.count ≤ slots → e''.count < slots
      has_room full le =
          let same = fine.safe.same_slots in
          let lt : e''.count < e''.slots = not_full e''.slots e''.count full in
          subst (λ s. e''.count < s) same lt

      at_most :
          (e''.count < slots) ⊎ ((gives running ≡ gives running) × (e''.count ≤ slots))
          → (e''.count < slots) ⊎ ((true ≡ true) × (e''.count ≤ slots))
      at_most (inl lt) = inl lt
      at_most (inr (same, le)) = inr (refl, le)

      go :
          (b : Bool)
          → (b ≡ false → e''.count < slots)
          → IsVisited slots self all e (if b then done must true e'' else more must true e'')
      go true lt = (next [], at_most fine.room)
      go false lt = goes must true e'' (next rest) (lt refl)

module _ (calls : BuildCalls) (slots : ℕ) (self : List ℕ) (all : List (List ℕ))
    (e : Engine calls.World) (def : defined e.targets self ≡ true) where
  open calls use {World}

  marked :
      (dep : List ℕ) (rest : List (List ℕ)) (wait : Bool) (x : Engine World)
      → IsVisiting slots self all rest e wait x
      → IsVisiting slots self all rest e wait (mark_newer self dep x)
  marked dep rest wait x =
      IsVisiting-write slots self all e rest wait x self
        (λ t. record t { deps_newer = insert dep t.deps_newer }) (λ t. ((λ f. f), λ d m. m))
        (λ t. refl)

  kept :
      (rest : List (List ℕ)) (wait : Bool) (x : Engine World) (name : List ℕ)
      → IsVisiting slots self all rest e wait x
      → IsVisiting slots self all rest e wait (keep_time calls name x)
  kept rest wait x name =
      IsVisiting-write slots self all e rest wait x name
        (λ t. record t { known_time = some (timestamp_of calls x name) })
        (λ t. ((λ f. f), λ d m. m)) (λ t. refl)

  after_dep-Visited :
      (dep : List ℕ) (rest : List (List ℕ)) (must wait : Bool)
      (more : Bool → Bool → Engine World → Visit World) (e' : Engine World)
      (out : Reply × Engine World)
      → Goes slots self all rest e more
      → IsVisiting slots self all (dep ∷ rest) e wait e'
      → IsFine slots dep e' out.0 out.1
      → IsVisited slots self all e (after_dep calls self dep must wait more out)
  unfolding after_dep
  after_dep-Visited dep rest must wait more e' (gives updated, e'') goes v fine =
      goes true wait (mark_newer self dep e'')
        (marked dep rest wait e''
          (IsVisiting-calm slots self all e dep rest wait e' e'' (gives updated) v fine tt))
        (free slots dep e' (gives updated) e'' fine (λ same. cc))
  after_dep-Visited dep rest must wait more e' (gives unchanged, e'') goes v fine =
      go (is_older calls self dep e'')
    where
      lt : e''.count < slots
      lt = free slots dep e' (gives unchanged) e'' fine (λ same. cc)

      now : IsVisiting slots self all rest e wait (keep_times calls self dep e'')
      now = kept rest wait (keep_time calls self e'') dep (
          kept rest wait e'' self
            (IsVisiting-calm slots self all e dep rest wait e' e'' (gives unchanged) v fine tt))

      go :
          (b : Bool)
          → IsVisited slots self all e (
              if b
              then more true wait (mark_newer self dep (keep_times calls self dep e''))
              else more must wait (keep_times calls self dep e''))
      go true = goes true wait _ (marked dep rest wait (keep_times calls self dep e'') now) lt
      go false = goes must wait _ now lt
  after_dep-Visited dep rest must wait more e' (gives error, e'') goes v fine =
      if_cases (IsVisited slots self all e) (has e''.unprintable dep)
        (left (throws bad_message) e'') (failed_dep self dep must wait more e'')
        (
          (λ calm. calm),
          fine.safe,
          free slots dep e' (gives error) e'' fine (λ same. cc),
          Grows-trans e.targets e'.targets e''.targets v.grows fine.grows,
        )
        (failed_dep-Visited slots self all e def dep rest must wait more e' e'' goes v fine.safe
          (free slots dep e' (gives error) e'' fine (λ same. cc)) fine.grows)
  after_dep-Visited dep rest must wait more e' (throws t, e'') goes v fine =
      failed_dep-Visited slots self all e def dep rest must wait more e' e'' goes v fine.safe
        (free slots dep e' (throws t) e'' fine (λ same. cc)) fine.grows
  after_dep-Visited dep rest must wait more e' (gives running, e'') goes v fine =
      running-Visited slots self all e def dep rest must wait more e' e'' goes v fine
  after_dep-Visited dep rest must wait more e' (unfinished, e'') goes v fine = (
    (λ calm. calm),
    fine.safe,
    free slots dep e' unfinished e'' fine (λ same. cc),
    Grows-trans e.targets e'.targets e''.targets v.grows fine.grows,
  )

  pub visit-Visited :
      (bring : List ℕ → Engine World → Reply × Engine World) (brings : Brings slots bring)
      (rest : List (List ℕ))
      → Goes slots self all rest e (visit calls bring self rest)
  unfolding visit
  visit-Visited bring brings [] must wait e' v lt = (v, inl lt)
  visit-Visited bring brings (dep ∷ rest) must wait e' v lt =
      after_dep-Visited dep rest must wait (visit calls bring self rest) e' (bring dep e')
        (visit-Visited bring brings rest) v (brings dep e' v.safe lt)
