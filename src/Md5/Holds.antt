-- ===== src/Md5/Holds.antt =====
-- What a context stands for: the message that `MD5Update` has been given since `MD5Init`.
use presto_build.Base.{
  ℕ, zero, suc, ◌+◌, ◌*◌, ◌/◌, ◌%◌, ◌^◌, ◌≤◌, ◌≡◌, refl, ap, ap₂, ◌∙◌, List, [], ◌++◌, length, take,
  drop, length-drop, take-append, drop-append, drop-drop, arith, ltb, if◌then◌else◌,
}
use presto_build.Md5.Word.{u32}
use presto_build.Md5.Transform.{Regs}
use presto_build.Md5.Context.{Context, init, init_regs}
use presto_build.Md5.Reference.{compress, blocks, le_words}
use presto_build.Md5.Decode.{IsBytes}

-- The whole blocks of the message are compressed into `buf`, the bytes behind them stand in `in`,
-- and `i` is the message's length in bits, modulo 2^64.
pub record Holds (ctx : Context) (h : Regs) (message : List ℕ) : Type 0 where
  pub size : length ctx.input ≡ 64
  pub state : ctx.buf ≡ blocks (length message / 64) h message
  pub rest : take (length message % 64) ctx.input ≡ drop (64 * (length message / 64)) message
  pub lo : ctx.bits_lo ≡ length message * 8 % 2 ^ 32
  pub hi : ctx.bits_hi ≡ length message * 8 / 2 ^ 32 % 2 ^ 32
  pub bytes : IsBytes message

pub Holds-init :
    (input digest : List ℕ) → length input ≡ 64 → Holds (init input digest) init_regs []
unfolding init blocks
Holds-init input digest e = record {
  size = e;
  state = refl;
  rest = refl;
  lo = refl;
  hi = refl;
  bytes = tt;
}

-- The blocks of a message do not depend on what follows it.
pub blocks-append :
    (n : ℕ) (h : Regs) (xs ys : List ℕ) → 64 * n ≤ length xs → blocks n h (xs ++ ys) ≡ blocks n h xs
unfolding blocks
blocks-append zero h xs ys e = refl
blocks-append (suc n) h xs ys e =
    ap₂ (λ s t. blocks n (compress h (le_words s)) t) (take-append 64 xs ys (omega arith))
      (drop-append 64 xs ys (omega arith))
    ∙ blocks-append n (compress h (le_words (take 64 xs))) (drop 64 xs) ys
        (omega (arith, length-drop 64 xs))

pub blocks_add :
    (n m k : ℕ) (h : Regs) (xs : List ℕ)
    → n + m ≡ k
    → blocks k h xs ≡ blocks m (blocks n h xs) (drop (64 * n) xs)
unfolding blocks
blocks_add zero m k h xs e = let same : k ≡ m = omega arith in ap (λ (t : ℕ). blocks t h xs) same
blocks_add (suc n) m zero h xs e = absurd (omega arith)
blocks_add (suc n) m (suc k) h xs e =
    blocks_add n m k (compress h (le_words (take 64 xs))) (drop 64 xs) (omega arith)
    ∙ ap (blocks m (blocks n (compress h (le_words (take 64 xs))) (drop 64 xs)))
        (drop-drop 64 (64 * n) (64 * suc n) xs (omega arith))

-- The two halves of the bit count after `n` more bytes, the carry found by the wrapped sum.
abbrev pub next_lo : ℕ → ℕ → ℕ
next_lo lo n = u32 (lo + u32 (n * 2 ^ 3))

abbrev pub next_hi : ℕ → ℕ → ℕ → ℕ
next_hi lo hi n = u32 ((if ltb (next_lo lo n) lo then u32 (hi + 1) else hi) + n / 2 ^ 29)

pub next_lo_lem : (l n : ℕ) → next_lo (l * 8 % 2 ^ 32) n ≡ (l + n) * 8 % 2 ^ 32
next_lo_lem l n = omega arith

pub next_hi_lem :
    (l n : ℕ) → next_hi (l * 8 % 2 ^ 32) (l * 8 / 2 ^ 32 % 2 ^ 32) n ≡ (l + n) * 8 / 2 ^ 32 % 2 ^ 32
next_hi_lem l n = ground arith
