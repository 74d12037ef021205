-- ===== src/Build/Depends.antt =====
-- lua/mkinit.lua: `__target:depends_on` and `__target:check_for_cycle`. Dependencies are given by name.
use presto_build.Base.{
  ℕ, zero, suc, Option, none, some, List, [], ◌∷◌, Bool, true, false, same_text, if◌then◌else◌,
}
use presto_build.Build.Target.{Target, Targets, has_backslash, target_of, defined, modify, register}

-- The traversal of some dependencies, up to the first that raises an error; `none` is fuel that ran out.
abbrev pub any_raises : (List ℕ → Option Bool) → List (List ℕ) → Option Bool
any_raises check [] = some false
any_raises check (d ∷ ds) =
    let rest = any_raises check ds in
    elim (check d) [ none ↦ none | some raised ↦ if raised then some true else rest ]

-- Whether `check_for_cycle` on the target `name` raises the error of a cycle through `top`.
unfoldable pub check_for_cycle : ℕ → Targets → List ℕ → List ℕ → Option Bool
check_for_cycle zero ts top name = none
check_for_cycle (suc fuel) ts top name =
    let below = any_raises (check_for_cycle fuel ts top) (target_of ts name).deps in
    if same_text name top then some true else below

-- `self.deps[name] = true`
abbrev pub has : List (List ℕ) → List ℕ → Bool
has [] name = false
has (d ∷ ds) name = let rest = has ds name in if same_text d name then true else rest

abbrev pub insert : List ℕ → List (List ℕ) → List (List ℕ)
insert name ds = if has ds name then ds else name ∷ ds

unfoldable pub add_dep : List ℕ → List ℕ → Targets → Targets
add_dep self name ts = modify self (λ t. record t { deps = insert name t.deps }) ts

-- The targets that the loop leaves, and whether it ended with an error.
pub record Added : Type 0 where
  pub raised : Bool
  pub targets : Targets

-- `if __target[v.name] then ...:check_for_cycle(self.name, v.name, 1) end`
abbrev pub check_dep : ℕ → List ℕ → List ℕ → Targets → Option Bool
check_dep fuel self name ts =
    if defined ts name then check_for_cycle fuel ts self name else some false

unfoldable pub add_deps : ℕ → List ℕ → List (List ℕ) → Targets → Option Added
add_deps fuel self [] ts = some (record { raised = false; targets = ts })
add_deps fuel self (name ∷ names) ts =
    let rest = add_deps fuel self names (add_dep self name ts) in
    if has_backslash name
    then some (record { raised = true; targets = ts })
    else (elim (check_dep fuel self name ts) [
      | none ↦ none
      | some raised ↦ if raised then some (record { raised = true; targets = ts }) else rest
    ])

-- `if not target:defined(self.name) then target[self.name] = self end`, for an object with the given fields.
abbrev pub ensure : List ℕ → Target → Targets → Targets
ensure self t ts = if defined ts self then ts else register self t ts

-- The assignment is made, and its name is refused.
abbrev pub refuses : List ℕ → Targets → Bool
refuses self ts = if defined ts self then false else has_backslash self

unfoldable pub depends_on : ℕ → List ℕ → Target → List (List ℕ) → Targets → Option Added
depends_on fuel self t names ts =
    if refuses self ts
    then some (record { raised = true; targets = ts })
    else add_deps fuel self names (ensure self t ts)
