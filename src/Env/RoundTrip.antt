-- ===== src/Env/RoundTrip.antt =====
-- What a child reads from the environment that its parent wrote.
use presto_build.Base.{
  ℕ, zero, suc, ◌+◌, ◌≤◌, Bool, true, false, ◌&&◌, ◌<◌, ◌≡◌, ◌≢◌, refl, ap, ap₂, ◌∙◌, List, [], ◌∷◌,
  ◌++◌, map, length, length-append, append_assoc, some, ne→==, ==_iff, leb, if◌then◌else◌, All,
  arith,
}
use presto_build.Lua.{LuaApi, Value, string, Outcome, returns}
use presto_build.CommandLine.Parse.{toupper}
use presto_build.Env.{
  Block, block, overruns, env_size, c_string, put, write_env, spawn_env, until, Reading, reads,
  overran, has_room, set_env, read_env,
}

-- A variable that can be written: the name is not empty and has no "=", neither it nor the value a zero.
abbrev pub IsVariable : (List ℕ) × List ℕ → Type 0
IsVariable (name, value) =
    (name ≢ []) × All (λ c. c ≢ 0) name × All (λ c. c ≢ b'=') name × All (λ c. c ≢ 0) value

abbrev pub AllVariables : List ((List ℕ) × List ℕ) → Type 0
AllVariables [] = Unit
AllVariables (e ∷ es) = IsVariable e × AllVariables es

abbrev pub as_field : (List ℕ) × List ℕ → (List ℕ) × Value
as_field (name, value) = (name, string value)

abbrev pub upper : (List ℕ) × List ℕ → (List ℕ) × List ℕ
upper (name, value) = (map toupper name, value)

-- The block as a whole: NAME=VALUE with a zero for each variable, and another zero.
abbrev pub block_of : List ((List ℕ) × List ℕ) → List ℕ
block_of [] = 0 ∷ []
block_of ((name, value) ∷ es) = name ++ (b'=' ∷ (value ++ (0 ∷ block_of es)))

c_string_lem : (s : List ℕ) → All (λ c. c ≢ 0) s → c_string s ≡ s
unfolding c_string
c_string_lem [] h = refl
c_string_lem (c ∷ cs) h = rw (c_string_lem cs h.1, ne→== c 0 h.0)

until-append :
    (stop : ℕ) (s rest : List ℕ)
    → All (λ c. c ≢ stop) s
    → until stop (s ++ stop ∷ rest) ≡ some (s, rest)
unfolding until
until-append stop [] rest h = rw ((==_iff stop stop).1 refl)
until-append stop (c ∷ cs) rest h = rw (until-append stop cs rest h.1, ne→== c stop h.0)

-- The block if it has come to no more than the buffer's size.
abbrev pub fits : ℕ → List ℕ → Outcome Block
fits n bytes = if leb n env_size then returns (block bytes) else returns overruns

put-fits :
    (buffer bytes : List ℕ) (next : List ℕ → Outcome Block) (b : ℕ) (more : List ℕ)
    → next (buffer ++ bytes) ≡ fits (length (buffer ++ bytes) + b) more
    → put buffer bytes next ≡ fits (length buffer + (length bytes + b)) more
unfolding put
put-fits buffer bytes next b more h = rw h (ground (arith, length-append buffer bytes))

length-block_of :
    (name value rest : List ℕ)
    → length (name ++ b'=' ∷ []) + (length (value ++ 0 ∷ []) + length rest)
      ≡ length (name ++ b'=' ∷ (value ++ 0 ∷ rest))
length-block_of name value rest = omega (
  arith,
  length-append name (b'=' ∷ []),
  length-append value (0 ∷ []),
  length-append name (b'=' ∷ (value ++ 0 ∷ rest)),
  length-append value (0 ∷ rest),
)

append_block :
    (buffer name value rest : List ℕ)
    → ((buffer ++ (name ++ b'=' ∷ [])) ++ (value ++ 0 ∷ [])) ++ rest
      ≡ buffer ++ (name ++ b'=' ∷ (value ++ 0 ∷ rest))
append_block buffer name value rest = simp append_assoc

-- What the loop does, on variables: it writes their block or overruns the buffer.
write_env_lem :
    (api : LuaApi) (es : List ((List ℕ) × List ℕ)) (buffer : List ℕ)
    → AllVariables es
    → write_env api (map as_field es) buffer
      ≡ fits (length buffer + length (block_of es)) (buffer ++ block_of es)
unfolding write_env
write_env_lem api [] buffer h = unfold put in refl
write_env_lem api ((name, value) ∷ es) buffer h =
    let rest : List ℕ = block_of es in
    rw (c_string_lem name h.0.1, c_string_lem value h.0.3)
      (put-fits buffer (name ++ b'=' ∷ []) _ (length (value ++ 0 ∷ []) + length rest) _ (
          put-fits (buffer ++ (name ++ b'=' ∷ [])) (value ++ 0 ∷ []) _ (length rest) _
            (write_env_lem api es ((buffer ++ (name ++ b'=' ∷ [])) ++ (value ++ 0 ∷ [])) h.1))
        ∙ ap₂ (λ n. fits (length buffer + n)) (length-block_of name value rest)
            (append_block buffer name value rest))

-- What the reader's arrays have room for.
abbrev pub are_short : List ((List ℕ) × List ℕ) → Bool
are_short [] = true
are_short ((name, value) ∷ es) = has_room name && (has_room value && are_short es)

abbrev pub read_of : List ((List ℕ) × List ℕ) → Reading
read_of es = if are_short es then reads (map upper es) else overran

set_env_lem :
    (c : ℕ) (cs value : List ℕ) (es : List ((List ℕ) × List ℕ))
    → (if has_room (c ∷ cs)
        then (if has_room value then set_env (c ∷ cs) value (read_of es) else overran)
        else overran)
      ≡ read_of ((c ∷ cs, value) ∷ es)
set_env_lem c cs value es = go (has_room (c ∷ cs)) (has_room value) (are_short es)
  where
    go :
        (a b d : Bool)
        → (if a
            then (if b
                then set_env (c ∷ cs) value (if d then reads (map upper es) else overran)
                else overran)
            else overran)
          ≡ (if a && (b && d) then reads (upper (c ∷ cs, value) ∷ map upper es) else overran)
    go true true true = refl
    go true true false = refl
    go true false d = refl
    go false b d = refl

read_env_lem :
    (es : List ((List ℕ) × List ℕ)) (fuel : ℕ)
    → AllVariables es
    → length es < fuel
    → read_env fuel (block_of es) ≡ read_of es
unfolding read_env
read_env_lem es zero h enough = absurd (omega arith)
read_env_lem [] (suc fuel) h enough = refl
read_env_lem (([], value) ∷ es) (suc fuel) h enough = absurd (h.0.0 refl)
read_env_lem ((c ∷ cs, value) ∷ es) (suc fuel) h enough =
    rw
      (
        until-append b'=' (c ∷ cs) (value ++ 0 ∷ block_of es) h.0.2,
        until-append 0 value (block_of es) h.0.3,
        read_env_lem es fuel h.1 (omega arith),
        ne→== c 0 h.0.1.0,
      )
      (set_env_lem c cs value es)

-- A block that has come to no more than `env_buffer` holds only short names and values.
short_lem :
    (es : List ((List ℕ) × List ℕ)) (n : ℕ)
    → n ≤ 32768
    → length (block_of es) ≤ n
    → are_short es ≡ true
short_lem [] n small le = refl
short_lem ((name, value) ∷ es) n small le =
    let rest : List ℕ = block_of es in
    let whole = length-append name (b'=' ∷ (value ++ (0 ∷ rest))) in
    let tail = length-append value (0 ∷ rest) in
    let more : are_short es ≡ true = short_lem es n small (omega (arith, le, whole, tail)) in
    let first : length name < 32768 = omega (arith, le, whole, tail, small) in
    let second : length value < 32768 = omega (arith, le, whole, tail, small) in
    rw (more, room name first, room value second) refl
  where
    room : (s : List ℕ) → length s < 32768 → has_room s ≡ true
    room s lt = ground (arith, lt)

-- For variables with a name that is not empty and has no "=", and no zero byte anywhere: make.proc.spawn
-- writes their block to `env_buffer`, or past its end exactly when the block has more than 32768 bytes. A
-- program that reads the block as `luaopen_make` does, with fuel for one round more than there are variables,
-- sets the same variables in the same order, their names in upper case, or writes past the end of `keyb` or
-- `valueb` exactly when a name or a value has 32768 bytes or more; a block that fits `env_buffer` is read.
pub read_env-spawn_env :
    (api : LuaApi) (es : List ((List ℕ) × List ℕ)) (fuel : ℕ)
    → AllVariables es
    → length es < fuel
    → (spawn_env api (some (map as_field es)) ≡ fits (length (block_of es)) (block_of es))
      × (read_env fuel (block_of es) ≡ read_of es)
      × (length (block_of es) ≤ env_size → read_env fuel (block_of es) ≡ reads (map upper es))
unfolding spawn_env
read_env-spawn_env api es fuel h enough = (
  write_env_lem api es [] h ∙ ap (λ (n : ℕ). fits n (block_of es)) (omega arith),
  read_env_lem es fuel h enough,
  λ small.
      read_env_lem es fuel h enough
      ∙ ap (λ b. if b then reads (map upper es) else overran)
          (short_lem es env_size (omega arith) small),
)
