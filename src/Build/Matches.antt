-- ===== src/Build/Matches.antt =====
-- lua/mkinit.lua, `make.jobs.running`: lemmas on the targets of the jobs.
use presto_build.Base.{ℕ, ◌≡◌, ◌⊎◌, inl, inr, refl, sym, subst, List, [], ◌∷◌, ◌++◌}
use presto_build.Build.Engine.{Job}

-- A job of the target is among the jobs.
abbrev pub HasJob : List Job → List ℕ → Type 0
HasJob [] n = ⊥
HasJob (job ∷ jobs) n = (job.target ≡ n) ⊎ HasJob jobs n

-- No target has two jobs.
abbrev pub OneEach : List Job → Type 0
OneEach [] = Unit
OneEach (job ∷ jobs) = (HasJob jobs job.target → ⊥) × OneEach jobs

pub HasJob-add :
    (jobs : List Job) (job : Job) (n : List ℕ)
    → HasJob (jobs ++ job ∷ []) n
    → HasJob jobs n ⊎ (job.target ≡ n)
HasJob-add [] job n (inl same) = inr same
HasJob-add [] job n (inr none_left) = absurd none_left
HasJob-add (x ∷ jobs) job n (inl same) = inl (inl same)
HasJob-add (x ∷ jobs) job n (inr more) = elim (HasJob-add jobs job n more) [
  | inl old ↦ inl (inr old)
  | inr new ↦ inr new
]

pub has_more :
    (jobs : List Job) (job : Job) (n : List ℕ) → HasJob jobs n → HasJob (jobs ++ job ∷ []) n
has_more [] job n absent = absurd absent
has_more (x ∷ jobs) job n (inl same) = inl same
has_more (x ∷ jobs) job n (inr more) = inr (has_more jobs job n more)

pub has_last : (jobs : List Job) (job : Job) → HasJob (jobs ++ job ∷ []) job.target
has_last [] job = inl refl
has_last (x ∷ jobs) job = inr (has_last jobs job)

pub OneEach-add :
    (jobs : List Job) (job : Job)
    → (HasJob jobs job.target → ⊥)
    → OneEach jobs
    → OneEach (jobs ++ job ∷ [])
OneEach-add [] job new each = ((λ absent. absent), tt)
OneEach-add (x ∷ jobs) job new (first, each) = (
  (λ has. elim (HasJob-add jobs job x.target has) [
    | inl old ↦ first old
    | inr same ↦ new (inl (sym same))
  ]),
  OneEach-add jobs job (λ has. new (inr has)) each,
)

pub HasJob-middle :
    (before : List Job) (job : Job) (after : List Job) (n : List ℕ)
    → HasJob (before ++ job ∷ after) n
    → (job.target ≡ n) ⊎ HasJob (before ++ after) n
HasJob-middle [] job after n has = has
HasJob-middle (x ∷ before) job after n (inl same) = inr (inl same)
HasJob-middle (x ∷ before) job after n (inr has) = elim (HasJob-middle before job after n has) [
  | inl same ↦ inl same
  | inr old ↦ inr (inr old)
]

pub has_around :
    (before : List Job) (job : Job) (after : List Job) (n : List ℕ)
    → HasJob (before ++ after) n
    → HasJob (before ++ job ∷ after) n
has_around [] job after n has = inr has
has_around (x ∷ before) job after n (inl same) = inl same
has_around (x ∷ before) job after n (inr has) = inr (has_around before job after n has)

pub has_middle :
    (before : List Job) (job : Job) (after : List Job) → HasJob (before ++ job ∷ after) job.target
has_middle [] job after = inl refl
has_middle (x ∷ before) job after = inr (has_middle before job after)

pub OneEach-middle :
    (before : List Job) (job : Job) (after : List Job)
    → OneEach (before ++ job ∷ after)
    → OneEach (before ++ after) × (HasJob (before ++ after) job.target → ⊥)
OneEach-middle [] job after (first, each) = (each, first)
OneEach-middle (x ∷ before) job after (first, each) =
    let (rest, alone) = OneEach-middle before job after each in
    (
      ((λ has. first (has_around before job after x.target has)), rest),
      λ has. elim has [
        | inl same ↦
            first (subst (HasJob (before ++ job ∷ after)) (sym same) (has_middle before job after))
        | inr more ↦ alone more
      ],
    )
