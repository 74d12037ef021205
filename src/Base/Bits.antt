-- ===== src/Base/Bits.antt =====
-- `|` of fields that do not overlap and `&` with low ones, at every width, as arithmetic.
use Prim.Native.Nat.{
  ℕ, zero, suc, ◌+◌, ◌-◌, ◌*◌, ◌/◌, ◌%◌, ◌^◌, ◌≤◌, ◌<◌, min, max, digits, bit_and, bit_or,
  bit_and-bitwise, bit_or-bitwise,
}
use mathlib.Core.Path.{◌≡◌, refl, sym, ap, ap₂, ◌∙◌}
use native.Mathlib.Nat.{
  pow-suc, one-le-pow, div-add-mod, mod-lt, mul-add-mod_self_left, mod-eq_of_lt,
}
use native.Mathlib.Omega.{arith}

module _ (z : ℕ → ℕ) (f : ℕ → ℕ → ℕ) where
  -- Any count of digits from the first number on gives the same result.
  enough_digits : (a b n m : ℕ) → a ≤ n → a ≤ m → digits z f n a b ≡ digits z f m a b
  enough_digits zero b zero zero p q = refl
  enough_digits zero b zero (suc m) p q = refl
  enough_digits zero b (suc n) zero p q = refl
  enough_digits zero b (suc n) (suc m) p q = refl
  enough_digits (suc a) b zero m p q = absurd (omega arith)
  enough_digits (suc a) b (suc n) zero p q = absurd (omega arith)
  enough_digits (suc a) b (suc n) (suc m) p q =
      ap (λ (t : ℕ). t * 2 + f (suc a % 2) (b % 2))
        (enough_digits (suc a / 2) (b / 2) n m (omega arith) (omega arith))

pub bit_or_lowest : (a b : ℕ) → bit_or a b ≡ bit_or (a / 2) (b / 2) * 2 + max (a % 2) (b % 2)
bit_or_lowest zero b = omega (arith, bit_or-bitwise 0 b, bit_or-bitwise 0 (b / 2))
bit_or_lowest (suc a) b = omega (
  arith,
  bit_or-bitwise (suc a) b,
  bit_or-bitwise (suc a / 2) (b / 2),
  enough_digits (λ y. y) max (suc a / 2) (b / 2) a (suc a / 2) (omega arith) (omega arith),
)

pub bit_and_lowest : (a b : ℕ) → bit_and a b ≡ bit_and (a / 2) (b / 2) * 2 + min (a % 2) (b % 2)
bit_and_lowest zero b = omega (arith, bit_and-bitwise 0 b, bit_and-bitwise 0 (b / 2))
bit_and_lowest (suc a) b = omega (
  arith,
  bit_and-bitwise (suc a) b,
  bit_and-bitwise (suc a / 2) (b / 2),
  enough_digits (λ y. 0) min (suc a / 2) (b / 2) a (suc a / 2) (omega arith) (omega arith),
)

-- By halves: `n` bounds the number.
bit_or-zero_below : (n a : ℕ) → a ≤ n → bit_or a 0 ≡ a
bit_or-zero_below n zero h = bit_or-bitwise 0 0
bit_or-zero_below zero (suc a) h = absurd (omega arith)
bit_or-zero_below (suc n) (suc a) h =
    omega (arith, bit_or_lowest (suc a) 0, bit_or-zero_below n (suc a / 2) (omega arith))

bit_and-zero_below : (n a : ℕ) → a ≤ n → bit_and a 0 ≡ 0
bit_and-zero_below n zero h = bit_and-bitwise 0 0
bit_and-zero_below zero (suc a) h = absurd (omega arith)
bit_and-zero_below (suc n) (suc a) h =
    omega (arith, bit_and_lowest (suc a) 0, bit_and-zero_below n (suc a / 2) (omega arith))

twice_shifted : (q k : ℕ) → q * 2 ^ suc k ≡ 2 * (q * 2 ^ k)
twice_shifted q k = omega (arith, ap (λ (t : ℕ). q * t) (pow-suc 2 k))

-- A number shifted left by `k` bits, `|` one of at most `k` bits, is their sum.
pub bit_or_shifted : (k q r : ℕ) → r < 2 ^ k → bit_or (q * 2 ^ k) r ≡ q * 2 ^ k + r
bit_or_shifted zero q r h = ground (arith, bit_or-zero_below q q)
bit_or_shifted (suc k) q r h = ground (
  arith,
  bit_or_lowest (q * 2 ^ suc k) r,
  twice_shifted q k,
  pow-suc 2 k,
  bit_or_shifted k q (r / 2),
)

halved_mask : (k : ℕ) → (2 ^ suc k - 1) / 2 ≡ 2 ^ k - 1
halved_mask k = omega (arith, pow-suc 2 k, one-le-pow k 2)

mod_twice : (a p : ℕ) → 1 ≤ p → a % (2 * p) ≡ a / 2 % p * 2 + a % 2
mod_twice a p h =
    let c = a / 2 % p * 2 + a % 2 in
    let e = a / 2 / p in
    let split : a ≡ 2 * p * e + c = omega (arith, div-add-mod (a / 2) p) in
    let below : c < 2 * p = omega (arith, mod-lt (a / 2) h) in
    ap (λ (t : ℕ). t % (2 * p)) split ∙ mul-add-mod_self_left (2 * p) e c ∙ mod-eq_of_lt below

-- `&` with a mask of the `k` lowest bits is the remainder by `2 ^ k`.
pub bit_and_mask : (k a : ℕ) → bit_and a (2 ^ k - 1) ≡ a % 2 ^ k
bit_and_mask zero a = omega (arith, bit_and-zero_below a a)
bit_and_mask (suc k) a =
    let double : 2 ^ suc k ≡ 2 * 2 ^ k = omega (arith, pow-suc 2 k) in
    let low : min (a % 2) ((2 ^ suc k - 1) % 2) ≡ a % 2 =
      omega (arith, one-le-pow k 2 (omega arith)) in
    bit_and_lowest a (2 ^ suc k - 1)
    ∙ ap₂ (λ (s t : ℕ). s * 2 + t) (ap (bit_and (a / 2)) (halved_mask k) ∙ bit_and_mask k (a / 2))
        low
    ∙ sym (ap (λ (t : ℕ). a % t) double ∙ mod_twice a (2 ^ k) (one-le-pow k 2 (omega arith)))
