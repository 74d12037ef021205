-- ===== src/Base/Table.antt =====
-- Two functions that agree below a bound, by evaluation.
use Prim.Native.Nat.{ℕ, zero, suc, ◌<◌}
use mathlib.Core.Path.{◌≡◌}
use mathlib.Core.Bool.{Bool, true, ◌&&◌}
use native.Mathlib.Omega.{arith}
use presto_build.Base.Tests.{◌==◌}

unfoldable pub agree : (ℕ → ℕ) → (ℕ → ℕ) → ℕ → Bool
agree f g zero = true
agree f g (suc n) = f n == g n && agree f g n

pub agree_sound : (f g : ℕ → ℕ) (n i : ℕ) → agree f g n ≡ true → i < n → f i ≡ g i
unfolding agree
agree_sound f g zero i e h = absurd (omega arith)
agree_sound f g (suc n) i e h = ground (arith, agree_sound f g n i)
