-- ===== src/Path/Presto.antt =====
-- lmakelib.cpp, the make.path functions: texts without a backslash, and lemmas on the shapes that they share.
use presto_build.Base.{
  same_text, ℕ, ◌≢◌, List, [], ◌∷◌, map, length, Bool, true, false, ◌==◌, ◌||◌, leb, if◌then◌else◌,
  All, arith, Bool-cases, inl, inr,
}
use presto_build.Lua.{
  Frame, Value, nil, string, number, ticks, boolean, table, function, userdata, Fields, end, field,
  Outcome, returns, raises, ◌>>=◌,
}
use presto_build.Env.{c_string}
use presto_build.Path.{
  PathCalls, Ran, ran, aborted, overran, max_path, forward_slash, get_wide_path, push_path,
  push_wide_path, on_path, copied, with_path, on_copy, on_copy_and_path,
}

abbrev pub NoBackslash : List ℕ → Type 0
NoBackslash = All (λ c. c ≢ 92)

-- No text in a value has a backslash.
unfoldable mutual
  pub IsPresto : Value → Type 0
  IsPresto nil = Unit
  IsPresto (boolean b) = Unit
  IsPresto (number n) = Unit
  IsPresto (ticks b n) = Unit
  IsPresto (string s) = NoBackslash s
  IsPresto (table fields) = ArePresto fields
  IsPresto function = Unit
  IsPresto userdata = Unit

  pub ArePresto : Fields → Type 0
  ArePresto end = Unit
  ArePresto (field k v fields) = IsPresto k × IsPresto v × ArePresto fields

abbrev pub FrameIsPresto : Frame → Type 0
FrameIsPresto [] = Unit
FrameIsPresto (v ∷ frame) = IsPresto v × FrameIsPresto frame

abbrev pub OutcomeIsPresto : Outcome Frame → Type 0
OutcomeIsPresto (returns frame) = FrameIsPresto frame
OutcomeIsPresto (raises e) = Unit

abbrev pub GivesPresto : Ran → Type 0
GivesPresto (ran o) = OutcomeIsPresto o
GivesPresto aborted = Unit
GivesPresto overran = Unit

pub forward_slash_ne : (c : ℕ) → forward_slash c ≢ 92
unfolding forward_slash
forward_slash_ne c = elim (Bool-cases (c == 92)) [
  | inl e ↦ rw e (λ f. absurd (omega (arith, f)))
  | inr e ↦ rw e (λ f. ground (arith, e, f))
]

pub slashes-NoBackslash : (s : List ℕ) → NoBackslash (map forward_slash s)
slashes-NoBackslash [] = tt
slashes-NoBackslash (c ∷ cs) = (forward_slash_ne c, slashes-NoBackslash cs)

-- The names that make.path.glob leaves out.
abbrev pub is_dots : List ℕ → Bool
is_dots name = same_text name (b'.' ∷ []) || same_text name (b'.' ∷ b'.' ∷ [])

pub push_wide_path-IsPresto : (os : PathCalls) (path : List ℕ) → IsPresto (push_wide_path os path)
unfolding push_wide_path push_path IsPresto
push_wide_path-IsPresto os path = slashes-NoBackslash (c_string (os.to_utf8 path))

pub bind-IsPresto :
    {A : Type 0} (o : Outcome A) (k : A → Outcome Frame)
    → ((a : A) → OutcomeIsPresto (k a))
    → OutcomeIsPresto (o >>= k)
bind-IsPresto (returns a) k h = h a
bind-IsPresto (raises e) k h = tt

pub with_path-GivesPresto :
    (o : Outcome (List ℕ)) (next : List ℕ → Ran)
    → ((path : List ℕ) → GivesPresto (next path))
    → GivesPresto (with_path o next)
with_path-GivesPresto (returns path) next h = h path
with_path-GivesPresto (raises e) next h = tt

pub GivesPresto-if :
    (b : Bool) (x y : Ran) → GivesPresto x → GivesPresto y → GivesPresto (if b then x else y)
GivesPresto-if true x y hx hy = hx
GivesPresto-if false x y hx hy = hy

module _ (os : PathCalls) (frame : Frame) where
  pub one_path : (path : List ℕ) → OutcomeIsPresto (returns (push_wide_path os path ∷ []))
  one_path path = (push_wide_path-IsPresto os path, tt)

  pub on_path-IsPresto : (call : List ℕ → List ℕ) → OutcomeIsPresto (on_path os frame call)
  unfolding on_path
  on_path-IsPresto call = bind-IsPresto (get_wide_path os frame 1) _ (λ path. one_path (call path))

  pub copied-GivesPresto :
      (path : List ℕ) (call : List ℕ → List ℕ)
      → GivesPresto (copied path (λ path_out. returns (push_wide_path os (call path_out) ∷ [])))
  unfolding copied
  copied-GivesPresto path call =
      GivesPresto-if (leb max_path (length path)) _ _ tt (one_path (call path))

  pub on_copy-GivesPresto : (call : List ℕ → List ℕ) → GivesPresto (on_copy os frame call)
  unfolding on_copy
  on_copy-GivesPresto call =
      with_path-GivesPresto (get_wide_path os frame 1) _ (λ path. copied-GivesPresto path call)

  pub on_copy_and_path-GivesPresto :
      (call : List ℕ → List ℕ → List ℕ) → GivesPresto (on_copy_and_path os frame call)
  unfolding on_copy_and_path
  on_copy_and_path-GivesPresto call = with_path-GivesPresto (get_wide_path os frame 1) _ (λ path1.
      with_path-GivesPresto (get_wide_path os frame 2) _
        (λ path2. copied-GivesPresto path1 (λ path_out. call path_out path2)))
