-- ===== src/Build/Grows.antt =====
-- lua/mkinit.lua, `bring_up_to_date`: relations between the targets before and after a call.
use mathlib.Core.List.{Memᴰ}
use mathlib.Core.List.Memᴰ
use presto_build.Base.{
  ℕ, ◌≡◌, refl, Option, none, some, List, [], ◌∷◌, Bool, true, false, Bool-cases, inl, inr,
  same_text, if◌then◌else◌,
}
use presto_build.Build.Target.{
  Status, unchanged, updated, running, error, Target, Targets, or_fresh, target_of, defined,
  changed, modify,
}
use presto_build.Build.Update.{remove}

abbrev pub GrowsAt : Option Target → Option Target → Type 0
GrowsAt none none = Unit
GrowsAt none (some u) = ⊥
GrowsAt (some t) none = ⊥
GrowsAt (some t) (some u) =
    (t.dep_failed ≡ true → u.dep_failed ≡ true) × ((d : List ℕ) → Memᴰ d u.deps → Memᴰ d t.deps)

abbrev pub Grows : Targets → Targets → Type 0
Grows ts us = (n : List ℕ) → GrowsAt (ts n) (us n)

GrowsAt-refl : (o : Option Target) → GrowsAt o o
GrowsAt-refl none = tt
GrowsAt-refl (some t) = ((λ e. e), (λ d m. m))

GrowsAt-trans : (o p q : Option Target) → GrowsAt o p → GrowsAt p q → GrowsAt o q
GrowsAt-trans none none none g h = tt
GrowsAt-trans (some t) (some u) (some v) g h = ((λ e. h.0 (g.0 e)), (λ d m. g.1 d (h.1 d m)))
GrowsAt-trans none (some u) q g h = absurd g
GrowsAt-trans (some t) none q g h = absurd g
GrowsAt-trans none none (some v) g h = absurd h
GrowsAt-trans (some t) (some u) none g h = absurd h

pub Grows-refl : (ts : Targets) → Grows ts ts
Grows-refl ts n = GrowsAt-refl (ts n)

pub Grows-trans : (ts us vs : Targets) → Grows ts us → Grows us vs → Grows ts vs
Grows-trans ts us vs g h n = GrowsAt-trans (ts n) (us n) (vs n) (g n) (h n)

-- A write that takes no dependency in and forgets no failure.
abbrev pub Tame : (Target → Target) → Type 0
Tame f =
    (t : Target)
    → (t.dep_failed ≡ true → (f t).dep_failed ≡ true)
      × ((d : List ℕ) → Memᴰ d (f t).deps → Memᴰ d t.deps)

pub Grows-modify :
    (name : List ℕ) (f : Target → Target) (ts : Targets) → Tame f → Grows ts (modify name f ts)
unfolding modify
Grows-modify name f ts tame n = elim (Bool-cases (same_text n name)) [
  | inl e ↦ rw e (go (ts n))
  | inr e ↦ rw e (GrowsAt-refl (ts n))
]
  where
    go : (o : Option Target) → GrowsAt o (changed f o)
    go none = tt
    go (some t) = tame t

pub deps_of_Grows :
    (ts us : Targets) (g : Grows ts us) (n d : List ℕ)
    → Memᴰ d (target_of us n).deps
    → Memᴰ d (target_of ts n).deps
deps_of_Grows ts us g n d mem = go (ts n) (us n) (g n) mem
  where
    go : (o p : Option Target) → GrowsAt o p → Memᴰ d (or_fresh p).deps → Memᴰ d (or_fresh o).deps
    go none none h m = m
    go (some t) (some u) h m = h.1 d m
    go none (some u) h m = absurd h
    go (some t) none h m = absurd h

pub failed_of_Grows :
    (ts us : Targets) (g : Grows ts us) (n : List ℕ)
    → (target_of ts n).dep_failed ≡ true
    → (target_of us n).dep_failed ≡ true
failed_of_Grows ts us g n e = go (ts n) (us n) (g n) e
  where
    go :
        (o p : Option Target)
        → GrowsAt o p
        → (or_fresh o).dep_failed ≡ true
        → (or_fresh p).dep_failed ≡ true
    go none none h f = f
    go (some t) (some u) h f = h.0 f
    go none (some u) h f = absurd h
    go (some t) none h f = absurd h

pub defined_of_Grows :
    (ts us : Targets) (g : Grows ts us) (n : List ℕ) → defined ts n ≡ true → defined us n ≡ true
defined_of_Grows ts us g n e = go (ts n) (us n) (g n) e
  where
    go :
        (o p : Option Target)
        → GrowsAt o p
        → (elim o [ none ↦ false | some t ↦ true ]) ≡ true
        → (elim p [ none ↦ false | some t ↦ true ]) ≡ true
    go none none h f = f
    go (some t) (some u) h f = refl
    go none (some u) h f = absurd h
    go (some t) none h f = absurd h

if-less :
    (b : Bool) (d x : List ℕ) (ds es : List (List ℕ))
    → (Memᴰ d es → Memᴰ d ds)
    → Memᴰ d (if b then es else x ∷ es)
    → Memᴰ d (x ∷ ds)
if-less true d x ds es h m = Memᴰ.tail (h m)
if-less false d x ds es h m = elim (Memᴰ.cases_cons m) [
  | inl e ↦ Memᴰ.head e
  | inr k ↦ Memᴰ.tail (h k)
]

pub remove-less : (name d : List ℕ) (ds : List (List ℕ)) → Memᴰ d (remove name ds) → Memᴰ d ds
remove-less name d [] m = m
remove-less name d (x ∷ ds) m =
    if-less (same_text x name) d x ds (remove name ds) (remove-less name d ds) m

-- A status that keeps what depends on the target from being built: its command runs, or failed.
abbrev pub blocks : Status → Bool
blocks unchanged = false
blocks updated = false
blocks running = true
blocks error = true

-- No target has come to run, or to fail.
abbrev pub Clean : Targets → Targets → Type 0
Clean ts us =
    (n : List ℕ) → blocks (target_of us n).status ≡ true → blocks (target_of ts n).status ≡ true

pub Clean-modify :
    (name : List ℕ) (f : Target → Target) (ts : Targets)
    → ((t : Target) → blocks (f t).status ≡ true → blocks t.status ≡ true)
    → Clean ts (modify name f ts)
unfolding modify
Clean-modify name f ts calm n e = elim (Bool-cases (same_text n name)) [
  | inl s ↦ go (ts n) (rw s at e)
  | inr s ↦ rw s at e
]
  where
    go :
        (o : Option Target)
        → blocks (or_fresh (changed f o)).status ≡ true
        → blocks (or_fresh o).status ≡ true
    go none h = h
    go (some t) h = calm t h
