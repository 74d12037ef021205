-- ===== src/Build/Kinds.antt =====
-- lua/mkinit.lua: `phony_target` and `dir_target`. Nothing is given back where they raise an error.
use presto_build.Base.{ℕ, refl, Option, none, some, List, Bool, true, false, ◌||◌, if◌then◌else◌}
use presto_build.Build.Target.{
  Kind, file_target, phony_target, dir_target, Target, new_target, Targets, has_backslash,
  target_of, defined, register,
}
use presto_build.Build.Cycles.{Acyclic}
use presto_build.Build.Acyclic.{Acyclic-of_subset, IsDep-register}

-- __phony_target:new{}, whose command does nothing
abbrev pub new_phony : Target
new_phony = record new_target { kind = phony_target; has_command = true }

-- __dir_target:new{}
abbrev pub new_dir : Target
new_dir = record new_target { kind = dir_target; has_command = true }

abbrev pub is_dir : Kind → Bool
is_dir file_target = false
is_dir phony_target = false
is_dir dir_target = true

-- The test for a target that is there asks for another name, which has none, so that the write to the
-- table is what raises the error.
unfoldable pub add_phony : List ℕ → Targets → Option Targets
add_phony name ts =
    if defined ts name || has_backslash name then none else some (register name new_phony ts)

unfoldable pub add_dir : List ℕ → Targets → Option Targets
add_dir dir ts =
    if defined ts dir
    then (if is_dir (target_of ts dir).kind then some ts else none)
    else if has_backslash dir
    then none
    else some (register dir new_dir ts)

-- Targets that are given back have no cycle.
abbrev HasNoCycle : Option Targets → Type 0
HasNoCycle none = Unit
HasNoCycle (some ts) = Acyclic ts

HasNoCycle-if :
    (b : Bool) (x y : Option Targets)
    → HasNoCycle x
    → HasNoCycle y
    → HasNoCycle (if b then x else y)
HasNoCycle-if true x y h k = h
HasNoCycle-if false x y h k = k

pub add_phony-HasNoCycle :
    (name : List ℕ) (ts : Targets) → Acyclic ts → HasNoCycle (add_phony name ts)
unfolding add_phony
add_phony-HasNoCycle name ts wf =
    HasNoCycle-if (defined ts name || has_backslash name) none (some (register name new_phony ts))
      tt
      (Acyclic-of_subset ts (register name new_phony ts) (IsDep-register ts name new_phony refl) wf)

pub add_dir-HasNoCycle : (dir : List ℕ) (ts : Targets) → Acyclic ts → HasNoCycle (add_dir dir ts)
unfolding add_dir
add_dir-HasNoCycle dir ts wf =
    HasNoCycle-if (defined ts dir) (if is_dir (target_of ts dir).kind then some ts else none)
      (if has_backslash dir then none else some (register dir new_dir ts))
      (HasNoCycle-if (is_dir (target_of ts dir).kind) (some ts) none wf tt)
      (HasNoCycle-if (has_backslash dir) none (some (register dir new_dir ts)) tt
        (Acyclic-of_subset ts (register dir new_dir ts) (IsDep-register ts dir new_dir refl) wf))
