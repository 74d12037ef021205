-- ===== src/Base/Texts.antt =====
-- Texts as lists of bytes, compared byte by byte.
use Prim.Native.Nat.{ℕ}
use mathlib.Core.Path.{◌≡◌, refl, ap₂}
use mathlib.Core.Logic.{◌≢◌, inl, inr}
use mathlib.Core.Bool.{Bool, true, false, ◌&&◌}
use mathlib.Core.List.{List, [], ◌∷◌}
use presto_build.Base.Tests.{◌==◌, ==_iff, Bool-cases}

unfoldable pub same_text : List ℕ → List ℕ → Bool
same_text [] [] = true
same_text [] (d ∷ ds) = false
same_text (c ∷ cs) [] = false
same_text (c ∷ cs) (d ∷ ds) = c == d && same_text cs ds

pub same_text_refl : (k : List ℕ) → same_text k k ≡ true
unfolding same_text
same_text_refl [] = refl
same_text_refl (c ∷ cs) = rw (same_text_refl cs, (==_iff c c).1 refl)

pub eq_of_same_text : (a b : List ℕ) → same_text a b ≡ true → a ≡ b
unfolding same_text
eq_of_same_text [] [] h = refl
eq_of_same_text [] (d ∷ ds) h = cc
eq_of_same_text (c ∷ cs) [] h = cc
eq_of_same_text (c ∷ cs) (d ∷ ds) h = elim (Bool-cases (c == d)) [
  | inl e ↦ ap₂ ◌∷◌ ((==_iff c d).0 e) (eq_of_same_text cs ds (rw e at h))
  | inr e ↦ cc (rw e at h)
]

pub ne→same_text : (a b : List ℕ) → a ≢ b → same_text a b ≡ false
ne→same_text a b ne = elim (Bool-cases (same_text a b)) [
  | inl e ↦ absurd (ne (eq_of_same_text a b e))
  | inr e ↦ e
]
