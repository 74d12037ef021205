-- ===== src/Path/Texts.antt =====
-- Which texts the make.path functions give: to_os and from_os, the numbering of glob, and the array that
-- combine reads each of its arguments into.
use presto_build.Base.{
  ℕ, ◌+◌, ◌≤◌, ◌<◌, ◌≡◌, ◌≢◌, refl, ap, List, [], ◌∷◌, ◌++◌, map, length, ◌==◌, if◌then◌else◌, All,
  arith, ne→==, Bool-cases, inl, inr,
}
use presto_build.Lua.{Frame, Value, string, number, Fields, end, field, returns}
use presto_build.Env.{c_string}
use presto_build.Path.{
  PathCalls, overran, back_slash, forward_slash, get_path, push_path, push_wide_path,
  convert_to_string,
}
use presto_build.Path.Functions.{make_path_to_os, make_path_from_os, combine_from, glob_from}
use presto_build.Path.Presto.{is_dots}

-- A path as presto writes it: no backslash and no zero byte.
abbrev pub IsPath : List ℕ → Type 0
IsPath = All (λ c. (c ≢ 92) × (c ≢ 0))

swapped :
    (c : ℕ)
    → c ≢ 92
    → c ≢ 0
    → (forward_slash (back_slash c) ≡ c) × (back_slash c ≢ 0) × (back_slash c ≢ b'/')
unfolding back_slash forward_slash
swapped c no_slash no_zero = elim (Bool-cases (c == b'/')) [
  | inl e ↦
      rw e (ground (arith, e), (λ f. absurd (omega (arith, f))), (λ f. absurd (omega (arith, f))))
  | inr e ↦ rw (e, ne→== c 92 no_slash) (refl, no_zero, λ f. ground (arith, e, f))
]

c_string-back_slash : (p : List ℕ) → IsPath p → c_string (map back_slash p) ≡ map back_slash p
unfolding c_string
c_string-back_slash [] h = refl
c_string-back_slash (c ∷ cs) h =
    rw (c_string-back_slash cs h.1, ne→== (back_slash c) 0 (swapped c h.0.0 h.0.1).1)

slashes_back : (p : List ℕ) → IsPath p → map forward_slash (map back_slash p) ≡ p
slashes_back [] h = refl
slashes_back (c ∷ cs) h = rw ((swapped c h.0.0 h.0.1).0, slashes_back cs h.1)

no_slash_left : (p : List ℕ) → IsPath p → All (λ c. c ≢ b'/') (map back_slash p)
no_slash_left [] h = tt
no_slash_left (c ∷ cs) h = ((swapped c h.0.0 h.0.1).2, no_slash_left cs h.1)

-- On a path with no backslash and no zero byte, make.path.to_os gives a path with no forward slash, and
-- make.path.from_os gives the first path back from it.
pub from_os-to_os :
    (os : PathCalls) (p : List ℕ)
    → IsPath p
    → (q : List ℕ) × (make_path_to_os os (string p ∷ []) ≡ returns (string q ∷ []))
      × All (λ c. c ≢ b'/') q
      × (make_path_from_os os (string q ∷ []) ≡ returns (string p ∷ []))
unfolding make_path_to_os make_path_from_os get_path push_path
from_os-to_os os p h = (
  map back_slash p,
  rw (c_string-back_slash p h) refl,
  no_slash_left p h,
  rw (c_string-back_slash p h, slashes_back p h) refl,
)

-- The names that make.path.glob keeps.
pub without_dots : List (List ℕ) → List (List ℕ)
without_dots [] = []
without_dots (name ∷ names) =
    let rest = without_dots names in if is_dots name then rest else name ∷ rest

-- An array from an index on.
abbrev pub numbered : ℕ → List Value → Fields
numbered pos [] = end
numbered pos (v ∷ vs) = field (number pos) v (numbered (pos + 1) vs)

-- make.path.glob numbers its files from 1 without a gap: the table is the array of the names that are not
-- "." or "..", in the order in which they were found.
glob_from-eq-numbered :
    (os : PathCalls) (pos : ℕ) (names : List (List ℕ))
    → glob_from os pos names ≡ numbered pos (map (push_wide_path os) (without_dots names))
unfolding glob_from without_dots
glob_from-eq-numbered os pos [] = refl
glob_from-eq-numbered os pos (name ∷ names) = elim (Bool-cases (is_dots name)) [
  | inl e ↦ rw e (glob_from-eq-numbered os pos names)
  | inr e ↦
      rw e (
        ap (field (number pos) (push_wide_path os name)) (glob_from-eq-numbered os (pos + 1) names))
]

-- A text whose UTF-16 form fits path[MAX_PATH] with its zero.
abbrev pub Fits : PathCalls → List ℕ → Type 0
Fits os text = length (map back_slash (os.to_wide text)) < 260

-- Behind any texts that fit, a text of 260 or more UTF-16 units is written past the end of path[MAX_PATH].
combine_overruns :
    (os : PathCalls) (path_out : List ℕ) (texts : List (List ℕ)) (long : List ℕ) (frame : Frame)
    → All (Fits os) texts
    → 260 ≤ length (map back_slash (os.to_wide long))
    → combine_from os path_out (map string texts ++ string long ∷ frame) ≡ overran
unfolding combine_from convert_to_string
combine_overruns os path_out [] long frame h too_long = ground (arith, too_long)
combine_overruns os path_out (text ∷ texts) long frame h too_long =
    let wide = map back_slash (os.to_wide text) in
    let rest =
      combine_overruns os (os.path_combine path_out (c_string wide)) texts long frame h.1
        too_long in
    ground (arith, h.0, rest)
