-- ===== src/Build/Edges.antt =====
-- lua/mkinit.lua, `depends_on`: lemmas on the dependencies when one is added.
use mathlib.Core.List.{Memᴰ}
use mathlib.Core.List.Memᴰ
use presto_build.Base.{
  ℕ, ◌≡◌, ◌⊎◌, inl, inr, refl, sym, Option, none, some, List, [], ◌∷◌, Bool, true, false,
  Bool-cases, same_text, same_text_refl, eq_of_same_text, if◌then◌else◌,
}
use presto_build.Build.Target.{Target, Targets, or_fresh, defined, changed, modify}
use presto_build.Build.Depends.{has, insert, add_dep}
use presto_build.Build.Cycles.{IsDep}

insert-cases :
    (name d : List ℕ) (ds : List (List ℕ)) → Memᴰ d (insert name ds) → (d ≡ name) ⊎ Memᴰ d ds
insert-cases name d ds mem = go (has ds name) mem
  where
    go : (b : Bool) → Memᴰ d (if b then ds else name ∷ ds) → (d ≡ name) ⊎ Memᴰ d ds
    go true m = inr m
    go false m = Memᴰ.cases_cons m

has-Mem : (name : List ℕ) (ds : List (List ℕ)) → has ds name ≡ true → Memᴰ name ds
has-Mem name [] e = cc
has-Mem name (d ∷ ds) e = elim (Bool-cases (same_text d name)) [
  | inl same ↦ Memᴰ.head (sym (eq_of_same_text d name same))
  | inr other ↦ Memᴰ.tail (has-Mem name ds (rw other at e))
]

insert-Mem : (name : List ℕ) (ds : List (List ℕ)) → Memᴰ name (insert name ds)
insert-Mem name ds = elim (Bool-cases (has ds name)) [
  | inl e ↦ rw e (has-Mem name ds e)
  | inr e ↦ rw e (Memᴰ.head refl)
]

insert-keeps : (name d : List ℕ) (ds : List (List ℕ)) → Memᴰ d ds → Memᴰ d (insert name ds)
insert-keeps name d ds mem = go (has ds name)
  where
    go : (b : Bool) → Memᴰ d (if b then ds else name ∷ ds)
    go true = mem
    go false = Memᴰ.tail mem

pub add_dep-IsDep :
    (ts : Targets) (self name d n : List ℕ)
    → IsDep (add_dep self name ts) d n
    → IsDep ts d n ⊎ ((n ≡ self) × (d ≡ name))
unfolding add_dep modify
add_dep-IsDep ts self name d n dep = elim (Bool-cases (same_text n self)) [
  | inl e ↦ go e (ts n) (rw e at dep)
  | inr e ↦ inl (rw e at dep)
]
  where
    go :
        same_text n self ≡ true
        → (o : Option Target)
        → Memᴰ d (or_fresh (changed (λ t. record t { deps = insert name t.deps }) o)).deps
        → Memᴰ d (or_fresh o).deps ⊎ ((n ≡ self) × (d ≡ name))
    go e none m = inl m
    go e (some t) m = elim (insert-cases name d t.deps m) [
      | inl new ↦ inr (eq_of_same_text n self e, new)
      | inr old ↦ inl old
    ]

pub IsDep-add_dep :
    (ts : Targets) (self name d n : List ℕ) → IsDep ts d n → IsDep (add_dep self name ts) d n
unfolding add_dep modify
IsDep-add_dep ts self name d n dep = elim (Bool-cases (same_text n self)) [
  | inl e ↦ rw e (go (ts n) dep)
  | inr e ↦ rw e dep
]
  where
    go :
        (o : Option Target)
        → Memᴰ d (or_fresh o).deps
        → Memᴰ d (or_fresh (changed (λ t. record t { deps = insert name t.deps }) o)).deps
    go none m = m
    go (some t) m = insert-keeps name d t.deps m

pub IsDep-added :
    (ts : Targets) (self name : List ℕ)
    → defined ts self ≡ true
    → IsDep (add_dep self name ts) name self
unfolding add_dep modify
IsDep-added ts self name def = rw (same_text_refl self) (go (ts self) def)
  where
    go :
        (o : Option Target)
        → (elim o [ none ↦ false | some t ↦ true ]) ≡ true
        → Memᴰ name (or_fresh (changed (λ t. record t { deps = insert name t.deps }) o)).deps
    go none e = cc
    go (some t) e = insert-Mem name t.deps

pub defined-add_dep :
    (ts : Targets) (self name : List ℕ)
    → defined ts self ≡ true
    → defined (add_dep self name ts) self ≡ true
unfolding add_dep modify
defined-add_dep ts self name def = rw (same_text_refl self, defined) (go (ts self) def)
  where
    go :
        (o : Option Target)
        → (elim o [ none ↦ false | some t ↦ true ]) ≡ true
        → (elim (changed (λ t. record t { deps = insert name t.deps }) o) [
          | none ↦ false
          | some t ↦ true
        ])
          ≡ true
    go none e = e
    go (some t) e = refl
