-- ===== src/Build/Target.antt =====
-- lua/mkinit.lua: `__target` and the objects of `target:new`, `phony_target` and `dir_target`, and the state
-- of the build engine. A target is registered under its name; one that is not is made anew at each access,
-- without dependencies.
use presto_build.Base.{
  ℕ, ◌==◌, Option, none, some, List, [], ◌∷◌, Bool, true, false, same_text, if◌then◌else◌,
}
use presto_build.Lua.{Value}

-- `make.status`; `unchanged` is its `none`, and also stands for a status that is not set.
pub data Status : Type 0 where
  unchanged updated running error : Status

-- What the fields `exists` and `timestamp` come from.
pub data Kind : Type 0 where
  file_target phony_target dir_target : Kind

-- `has_command` says that `command` is set; `known_exists` and `known_time` are the fields that
-- `__target.mt.__index` keeps once they were read; `dep_failed` says that `dep_status` is an error.
pub record Target : Type 0 where
  pub kind : Kind
  pub deps : List (List ℕ)
  pub deps_newer : List (List ℕ)
  pub status : Status
  pub dep_failed : Bool
  pub has_command : Bool
  pub known_exists : Option Bool
  pub known_time : Option Value

-- target:new{name=key}
abbrev pub new_target : Target
new_target = record {
  kind = file_target;
  deps = [];
  deps_newer = [];
  status = unchanged;
  dep_failed = false;
  has_command = false;
  known_exists = none;
  known_time = none;
}

-- `__target`
abbrev pub Targets : Type 0
Targets = List ℕ → Option Target

abbrev pub or_fresh : Option Target → Target
or_fresh none = new_target
or_fresh (some t) = t

-- The checks of target.__index and target.__newindex, which raise an error: string.match(key,"\\")
abbrev pub has_backslash : List ℕ → Bool
has_backslash [] = false
has_backslash (c ∷ cs) = let rest = has_backslash cs in if c == 92 then true else rest

-- target[name], for a name that passes the check.
abbrev pub target_of : Targets → List ℕ → Target
target_of ts name = or_fresh (ts name)

abbrev pub defined : Targets → List ℕ → Bool
defined ts name = elim (ts name) [ none ↦ false | some t ↦ true ]

abbrev pub changed : (Target → Target) → Option Target → Option Target
changed f none = none
changed f (some t) = some (f t)

-- A write to fields of the target; on one that is not registered the object is lost.
unfoldable pub modify : List ℕ → (Target → Target) → Targets → Targets
modify name f ts = λ other. if same_text other name then changed f (ts other) else ts other

-- target[name] = t, for a name that passes the check: a new entry of `__target`.
unfoldable pub register : List ℕ → Target → Targets → Targets
register name t ts = λ other. if same_text other name then some t else ts other
