-- ===== src/Build/Acyclic.antt =====
-- lua/mkinit.lua, `depends_on` and `check_for_cycle`: proofs on calls of `depends_on` and on cycles.
use mathlib.Core.WellFounded as Founded
use mathlib.Core.WellFounded.Acc
use mathlib.Core.WellFounded.{Acc, WellFounded}
use mathlib.Core.List.{Memᴰ}
use mathlib.Core.List.Memᴰ
use presto_build.Base.{
  ℕ, ◌+◌, ◌≤◌, ◌≡◌, ◌⊎◌, inl, inr, refl, sym, subst, Option, none, some, List, [], ◌∷◌, Bool, true,
  false, Bool-cases, same_text, same_text_refl, All, arith, if◌then◌else◌,
}
use presto_build.Build.Target.{Target, Targets, has_backslash, or_fresh, defined, register}
use presto_build.Build.Depends.{
  check_for_cycle, add_dep, Added, check_dep, add_deps, ensure, refuses, depends_on,
}
use presto_build.Build.Edges.{add_dep-IsDep, IsDep-add_dep, IsDep-added, defined-add_dep}
use presto_build.Build.Cycles.{
  IsDep, Acyclic, Reach, here, down, Verdict, check_for_cycle-Verdict, Answers,
  check_for_cycle-Answers,
}

-- Fewer dependencies have no cycle either.
pub Acyclic-of_subset :
    (ts us : Targets) → ((d n : List ℕ) → IsDep us d n → IsDep ts d n) → Acyclic ts → Acyclic us
Acyclic-of_subset ts us less wf =
    Founded.intro
      (λ n. Acc.ndrec (λ x _ ih. Acc.intro x (λ d dep. ih d (less d x dep))) (wf.apply n))

-- One more dependency has no cycle, where its end was not above its start.
module _ (ts us : Targets) (self name : List ℕ)
    (more : (d n : List ℕ) → IsDep us d n → IsDep ts d n ⊎ ((n ≡ self) × (d ≡ name)))
    (apart : Reach ts self name → ⊥) where
  Acc-apart : (n : List ℕ) → Acc (IsDep ts) n → (Reach ts self n → ⊥) → Acc (IsDep us) n
  Acc-apart n acc = elim acc as (λ n _. (Reach ts self n → ⊥) → Acc (IsDep us) n) [
    | Acc.intro n (h → ih) ↦ λ away. Acc.intro n (λ d dep. elim (more d n dep) [
      | inl old ↦ ih d old (λ r. away (down old r))
      | inr new ↦ absurd (away (subst (Reach ts self) (sym new.0) here))
    ])
  ]

  Acyclic-of_more : Acyclic ts → Acyclic us
  Acyclic-of_more wf = Founded.intro (λ n.
      Acc.ndrec
        (λ x _ ih. Acc.intro x (λ d dep. elim (more d x dep) [
          | inl old ↦ ih d old
          | inr new ↦ subst (Acc (IsDep us)) (sym new.1) (Acc-apart name (wf.apply name) apart)
        ]))
        (wf.apply n))

-- What `check_for_cycle` is asked of a dependency, and its answer.
abbrev pub Apart : Targets → List ℕ → List ℕ → Bool → Type 0
Apart ts self name true = Reach ts self name
Apart ts self name false = Reach ts self name → ⊥

undefined-apart :
    (ts : Targets) (self name : List ℕ)
    → defined ts self ≡ true
    → defined ts name ≡ false
    → Reach ts self name
    → ⊥
undefined-apart ts self name def undef r = go name r undef
  where
    none_below : (n d : List ℕ) → defined ts n ≡ false → IsDep ts d n → ⊥
    none_below n d e dep = leaf (ts n) e dep
      where
        leaf :
            (o : Option Target)
            → (elim o [ none ↦ false | some t ↦ true ]) ≡ false
            → Memᴰ d (or_fresh o).deps
            → ⊥
        leaf none e m = Memᴰ.not-nil m
        leaf (some t) e m = cc

    go : (n : List ℕ) → Reach ts self n → defined ts n ≡ false → ⊥
    go n here e = cc
    go n (down {d = d} dep r) e = none_below n d e dep

-- With enough fuel the check of a dependency answers, and says whether the target is below it.
check_dep-Apart :
    (ts : Targets) (self name : List ℕ)
    → Acyclic ts
    → defined ts self ≡ true
    → (k : ℕ) × (b : Bool) × ((fuel : ℕ) → k ≤ fuel → check_dep fuel self name ts ≡ some b)
      × Apart ts self name b
check_dep-Apart ts self name wf def = elim (Bool-cases (defined ts name)) [
  | inl e ↦ go e (check_for_cycle-Answers ts self name (wf.apply name))
  | inr e ↦ (0, false, (λ fuel enough. rw (e, check_dep) refl), undefined-apart ts self name def e)
]
  where
    judged : (b : Bool) → Verdict ts self name (some b) → Apart ts self name b
    judged true v = v
    judged false v = v

    go :
        defined ts name ≡ true
        → Answers (λ fuel. check_for_cycle fuel ts self name)
        → (k : ℕ) × (b : Bool) × ((fuel : ℕ) → k ≤ fuel → check_dep fuel self name ts ≡ some b)
          × Apart ts self name b
    go e (k, b, f) = (
      k,
      b,
      (λ fuel enough. rw (e, check_dep) (f fuel enough)),
      judged b (
          subst (Verdict ts self name) (f k (omega arith))
            (check_for_cycle-Verdict ts self k name)),
    )

-- Why a call on these names raises an error: the first name of which it does.
abbrev pub IsRefused : Targets → List ℕ → List (List ℕ) → Type 0
IsRefused us self names =
    (name : List ℕ) × Memᴰ name names × ((has_backslash name ≡ true) ⊎ Reach us self name)

-- What a call that added dependencies leaves.
pub record IsAdded (ts : Targets) (self : List ℕ) (names : List (List ℕ)) (a : Added) : Type 0 where
  pub acyclic : Acyclic a.targets
  pub grows : (d n : List ℕ) → IsDep ts d n → IsDep a.targets d n
  pub all_added : a.raised ≡ false → All (λ name. IsDep a.targets name self) names
  pub refused : a.raised ≡ true → IsRefused a.targets self names

abbrev pub Adds : Targets → List ℕ → List (List ℕ) → (ℕ → Option Added) → Type 0
Adds ts self names f =
    (k : ℕ) × (a : Added) × ((fuel : ℕ) → k ≤ fuel → f fuel ≡ some a) × IsAdded ts self names a

add_deps-Adds :
    (self : List ℕ) (names : List (List ℕ)) (ts : Targets)
    → Acyclic ts
    → defined ts self ≡ true
    → Adds ts self names (λ fuel. add_deps fuel self names ts)
unfolding add_deps
add_deps-Adds self [] ts wf def = (
  0,
  record { raised = false; targets = ts },
  (λ fuel enough. refl),
  record { acyclic = wf; grows = λ d n dep. dep; all_added = λ e. tt; refused = λ e. cc },
)
add_deps-Adds self (name ∷ names) ts wf def = elim (Bool-cases (has_backslash name)) [
  | inl e ↦ (
    0,
    record { raised = true; targets = ts },
    (λ fuel enough. rw e refl),
    record {
      acyclic = wf;
      grows = λ d n dep. dep;
      all_added = λ h. cc;
      refused = λ h. (name, Memᴰ.head refl, inl e);
    },
  )
  | inr e ↦ go e (check_dep-Apart ts self name wf def) (λ wf'.
      add_deps-Adds self names (add_dep self name ts) wf' (defined-add_dep ts self name def))
]
  where
    next : Targets
    next = add_dep self name ts

    go :
        has_backslash name ≡ false
        → (k : ℕ) × (b : Bool) × ((fuel : ℕ) → k ≤ fuel → check_dep fuel self name ts ≡ some b)
          × Apart ts self name b
        → (Acyclic next → Adds next self names (λ fuel. add_deps fuel self names next))
        → Adds ts self (name ∷ names) (λ fuel. add_deps fuel self (name ∷ names) ts)
    go clean (k, true, f, r) more = (
      k,
      record { raised = true; targets = ts },
      (λ fuel enough. rw (clean, f fuel enough, add_deps) refl),
      record {
        acyclic = wf;
        grows = λ d n dep. dep;
        all_added = λ e. cc;
        refused = λ e. (name, Memᴰ.head refl, inr r);
      },
    )
    go clean (k, false, f, apart) more =
        let (k', a, g, rest) =
          more
            (Acyclic-of_more ts next self name (λ d n. add_dep-IsDep ts self name d n) apart wf) in
        (
          k + k',
          a,
          (λ fuel enough. rw (clean, f fuel (omega arith), add_deps) (g fuel (omega arith))),
          record {
            acyclic = rest.acyclic;
            grows = λ d n dep. rest.grows d n (IsDep-add_dep ts self name d n dep);
            all_added =
                λ e. (rest.grows name self (IsDep-added ts self name def), rest.all_added e);
            refused = λ e. let (x, mem, r) = rest.refused e in (x, Memᴰ.tail mem, r);
          },
        )

module _ (ts : Targets) (self : List ℕ) (t : Target) (bare : t.deps ≡ []) where
  pub IsDep-register : (d n : List ℕ) → IsDep (register self t ts) d n → IsDep ts d n
  unfolding register
  IsDep-register d n dep = elim (Bool-cases (same_text n self)) [
    | inl e ↦ absurd (Memᴰ.not-nil (subst (Memᴰ d) bare (rw e at dep)))
    | inr e ↦ rw e at dep
  ]

  Acyclic-ensure : Acyclic ts → Acyclic (ensure self t ts)
  Acyclic-ensure wf = elim (Bool-cases (defined ts self)) [
    | inl e ↦ rw e wf
    | inr e ↦ rw e (Acyclic-of_subset ts (register self t ts) IsDep-register wf)
  ]

  defined-ensure : defined (ensure self t ts) self ≡ true
  unfolding register
  defined-ensure = elim (Bool-cases (defined ts self)) [
    | inl e ↦ rw e e
    | inr e ↦ rw (e, same_text_refl self, defined) refl
  ]

  -- On targets without a cycle, and an object that has no dependencies unless it is registered: with enough
  -- fuel `depends_on` returns, and the targets have no cycle again, also where it raises an error. Where it
  -- raises none, all the names are dependencies; where it does, the object is not registered and its name has
  -- a backslash, or one of the names has one, or the target itself is one of the names or below one.
  pub depends_on-Adds :
      (names : List (List ℕ))
      → Acyclic ts
      → (k : ℕ) × (a : Added) × ((fuel : ℕ) → k ≤ fuel → depends_on fuel self t names ts ≡ some a)
        × Acyclic a.targets
        × (a.raised ≡ false → All (λ name. IsDep a.targets name self) names)
        × (a.raised ≡ true
            → ((defined ts self ≡ false) × (has_backslash self ≡ true))
              ⊎ IsRefused a.targets self names)
  unfolding depends_on
  depends_on-Adds names wf = elim (Bool-cases (refuses self ts)) [
    | inl e ↦ (
      0,
      record { raised = true; targets = ts },
      (λ fuel enough. rw e refl),
      wf,
      (λ h. cc),
      λ h. inl (unnamed (defined ts self) e),
    )
    | inr e ↦
        let (k, a, f, h) =
          add_deps-Adds self names (ensure self t ts) (Acyclic-ensure wf) defined-ensure in
        (
          k,
          a,
          (λ fuel enough. rw e (f fuel enough)),
          h.acyclic,
          h.all_added,
          λ r. inr (h.refused r),
        )
  ]
    where
      unnamed :
          (b : Bool)
          → (if b then false else has_backslash self) ≡ true
          → (b ≡ false) × (has_backslash self ≡ true)
      unnamed true e = cc
      unnamed false e = (refl, e)
