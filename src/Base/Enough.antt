-- ===== src/Base/Enough.antt =====
-- One amount of fuel that is enough for every element of a list.
use Prim.Native.Nat.{ℕ, ◌+◌, ◌≤◌}
use mathlib.Core.Path.{refl, sym, subst}
use mathlib.Core.Logic.{inl, inr}
use mathlib.Core.List.{List, [], ◌∷◌, Memᴰ}
use mathlib.Core.List.Memᴰ
use native.Mathlib.Omega.{arith}

pub enough_for_all {ℓ κ} :
    {A : Type ℓ} (P : ℕ → A → Type κ)
    → ((k n : ℕ) (a : A) → k ≤ n → P k a → P n a)
    → (xs : List A) → ((a : A) → Memᴰ a xs → (k : ℕ) × P k a)
    → (k : ℕ) × ((a : A) → Memᴰ a xs → P k a)
enough_for_all P more [] h = (0, λ a m. absurd (Memᴰ.not-nil m))
enough_for_all P more (x ∷ xs) h =
    let (k, one) = h x (Memᴰ.head refl) in
    let (n, all) = enough_for_all P more xs (λ a m. h a (Memᴰ.tail m)) in
    (
      k + n,
      λ a m. elim (Memᴰ.cases_cons m) [
        | inl same ↦ subst (P (k + n)) (sym same) (more k (k + n) x (omega arith) one)
        | inr later ↦ more n (k + n) a (omega arith) (all a later)
      ],
    )
