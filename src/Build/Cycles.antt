-- ===== src/Build/Cycles.antt =====
-- lua/mkinit.lua, `check_for_cycle`: what a cycle of dependencies is, and proofs on the traversal.
use mathlib.Core.WellFounded.{Acc, WellFounded}
use mathlib.Core.List.{Memᴰ}
use mathlib.Core.List.Memᴰ
use presto_build.Base.{
  ℕ, zero, suc, ◌+◌, ◌≤◌, ◌≡◌, ◌≢◌, inl, inr, refl, sym, subst, Option, none, some, List, [], ◌∷◌,
  Bool, true, false, Bool-cases, same_text, same_text_refl, eq_of_same_text, if◌then◌else◌, arith,
}
use presto_build.Build.Target.{Targets, target_of}
use presto_build.Build.Depends.{any_raises, check_for_cycle}

-- `d` is a dependency of `n`.
abbrev pub IsDep : Targets → List ℕ → List ℕ → Type 0
IsDep ts d n = Memᴰ d (target_of ts n).deps

-- Every way down the dependencies ends; in particular none comes back.
abbrev pub Acyclic : Targets → Type 0
Acyclic ts = WellFounded (IsDep ts)

-- The target `top` is `n`, or is below it.
pub data Reach (ts : Targets) (top : List ℕ) : List ℕ → Type 0 where
  here : Reach ts top top
  down : {n d : List ℕ} → IsDep ts d n → Reach ts top d → Reach ts top n

-- What an answer of the traversal says of a target, and of some dependencies.
abbrev pub Verdict : Targets → List ℕ → List ℕ → Option Bool → Type 0
Verdict ts top n none = Unit
Verdict ts top n (some true) = Reach ts top n
Verdict ts top n (some false) = Reach ts top n → ⊥

abbrev VerdictAny : Targets → List ℕ → List (List ℕ) → Option Bool → Type 0
VerdictAny ts top ds none = Unit
VerdictAny ts top ds (some true) = (d : List ℕ) × Memᴰ d ds × Reach ts top d
VerdictAny ts top ds (some false) = (d : List ℕ) → Memᴰ d ds → Reach ts top d → ⊥

module _ (ts : Targets) (top : List ℕ) where
  any_raises-Verdict :
      (check : List ℕ → Option Bool) (ds : List (List ℕ))
      → ((d : List ℕ) → Verdict ts top d (check d))
      → VerdictAny ts top ds (any_raises check ds)
  any_raises-Verdict check [] h = λ d mem r. Memᴰ.not-nil mem
  any_raises-Verdict check (d ∷ ds) h =
      go (check d) (h d) (any_raises check ds) (any_raises-Verdict check ds h)
    where
      below :
          (o : Option Bool)
          → (Reach ts top d → ⊥)
          → VerdictAny ts top ds o
          → VerdictAny ts top (d ∷ ds) o
      below none safe v = tt
      below (some true) safe v = (v.0, Memᴰ.tail v.1, v.2)
      below (some false) safe v = λ x mem r. elim (Memᴰ.cases_cons mem) [
        | inl e ↦ safe (subst (Reach ts top) e r)
        | inr m ↦ v x m r
      ]

      go :
          (o : Option Bool)
          → Verdict ts top d o
          → (rest : Option Bool) → VerdictAny ts top ds rest
          → VerdictAny ts top
              (d ∷ ds)
              (elim o [ none ↦ none | some raised ↦ if raised then some true else rest ])
      go none v rest w = tt
      go (some true) v rest w = (d, Memᴰ.head refl, v)
      go (some false) v rest w = below rest v w

  -- An error is raised exactly when the target is above `top`.
  pub check_for_cycle-Verdict :
      (fuel : ℕ) (n : List ℕ) → Verdict ts top n (check_for_cycle fuel ts top n)
  unfolding check_for_cycle
  check_for_cycle-Verdict zero n = tt
  check_for_cycle-Verdict (suc fuel) n = elim (Bool-cases (same_text n top)) [
    | inl e ↦ rw e (subst (Reach ts top) (sym (eq_of_same_text n top e)) here)
    | inr e ↦ rw e (
        go (any_raises (check_for_cycle fuel ts top) (target_of ts n).deps)
          (any_raises-Verdict (check_for_cycle fuel ts top) (target_of ts n).deps
            (check_for_cycle-Verdict fuel))
          (λ same. cc (same_text_refl n, e, same)))
  ]
    where
      not_below :
          ((d : List ℕ) → Memᴰ d (target_of ts n).deps → Reach ts top d → ⊥)
          → (n ≢ top)
          → (m : List ℕ) → Reach ts top m
          → m ≡ n
          → ⊥
      not_below v ne m here e = ne (sym e)
      not_below v ne m (down {d = d} mem r) e = v d (subst (λ x. IsDep ts d x) e mem) r

      go :
          (o : Option Bool)
          → VerdictAny ts top (target_of ts n).deps o
          → (n ≢ top)
          → Verdict ts top n o
      go none v ne = tt
      go (some true) v ne = down v.1 v.2
      go (some false) v ne = λ r. not_below v ne n r refl

-- An answer that is the same with any fuel from some on.
abbrev pub Answers : (ℕ → Option Bool) → Type 0
Answers f = (k : ℕ) × (b : Bool) × ((fuel : ℕ) → k ≤ fuel → f fuel ≡ some b)

module _ (ts : Targets) (top : List ℕ) where
  any_raises-Answers :
      (ds : List (List ℕ))
      → ((d : List ℕ) → Memᴰ d ds → Answers (λ fuel. check_for_cycle fuel ts top d))
      → Answers (λ fuel. any_raises (check_for_cycle fuel ts top) ds)
  any_raises-Answers [] h = (0, false, λ fuel enough. refl)
  any_raises-Answers (d ∷ ds) h =
      go (h d (Memᴰ.head refl)) (any_raises-Answers ds (λ x mem. h x (Memᴰ.tail mem)))
    where
      go :
          Answers (λ fuel. check_for_cycle fuel ts top d)
          → Answers (λ fuel. any_raises (check_for_cycle fuel ts top) ds)
          → Answers (λ fuel. any_raises (check_for_cycle fuel ts top) (d ∷ ds))
      go (k, true, f) rest = (k, true, λ fuel enough. rw (f fuel enough, any_raises) refl)
      go (k, false, f) (k', b, g) =
          (k + k', b, λ fuel enough. rw (f fuel (omega arith), any_raises) (g fuel (omega arith)))

  -- Without a cycle the traversal ends.
  pub check_for_cycle-Answers :
      (n : List ℕ) → Acc (IsDep ts) n → Answers (λ fuel. check_for_cycle fuel ts top n)
  unfolding check_for_cycle
  check_for_cycle-Answers n acc =
      elim acc as (λ n _. Answers (λ fuel. check_for_cycle fuel ts top n)) [
        | Acc.intro n (h → ih) ↦ go n (any_raises-Answers (target_of ts n).deps ih)
      ]
    where
      go :
          (n : List ℕ)
          → Answers (λ fuel. any_raises (check_for_cycle fuel ts top) (target_of ts n).deps)
          → Answers (λ fuel. check_for_cycle fuel ts top n)
      go n (k, b, f) = elim (Bool-cases (same_text n top)) [
        | inl e ↦ (1, true, λ fuel enough. found e fuel enough)
        | inr e ↦ (k + 1, b, λ fuel enough. deeper e fuel enough)
      ]
        where
          found :
              same_text n top ≡ true
              → (fuel : ℕ) → 1 ≤ fuel
              → check_for_cycle fuel ts top n ≡ some true
          found e zero enough = absurd (omega arith)
          found e (suc fuel) enough = rw e refl

          deeper :
              same_text n top ≡ false
              → (fuel : ℕ) → k + 1 ≤ fuel
              → check_for_cycle fuel ts top n ≡ some b
          deeper e zero enough = absurd (omega arith)
          deeper e (suc fuel) enough = rw e (f fuel (omega arith))
