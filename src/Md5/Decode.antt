-- ===== src/Md5/Decode.antt =====
-- Bytes and words: the `<<`, `|`, `>>` and `&` of md5.c are little-endian arithmetic.
use presto_build.Base.{
  ℕ, zero, suc, ◌+◌, ◌*◌, ◌/◌, ◌%◌, ◌^◌, ◌≤◌, ◌<◌, bit_or, ◌≡◌, refl, sym, ap, ap₂, ◌∙◌, List, ◌∷◌,
  ◌++◌, length, get_or, take, drop, All, get_or-drop, drop-drop, arith,
}
use presto_build.Base.Bits.{bit_or_shifted, bit_and_mask}
use presto_build.Md5.Word.{u32}
use presto_build.Md5.Transform.{Regs}
use presto_build.Md5.Context.{word_from, words_from, word_bytes, digest_of, mdi_of}
use presto_build.Md5.Reference.{le_words, le_bytes}

abbrev pub IsByte : ℕ → Type 0
IsByte b = b < 256

abbrev pub IsBytes : List ℕ → Type 0
IsBytes = All IsByte

pub word_lem :
    (b0 b1 b2 b3 : ℕ)
    → b0 < 256
    → b1 < 256
    → b2 < 256
    → b3 < 256
    → bit_or (bit_or (bit_or (u32 (b3 * 2 ^ 24)) (u32 (b2 * 2 ^ 16))) (u32 (b1 * 2 ^ 8))) b0
      ≡ b0 + 256 * b1 + 65536 * b2 + 16777216 * b3
word_lem b0 b1 b2 b3 h0 h1 h2 h3 = ground (
  arith,
  bit_or_shifted 24 b3 (b2 * 2 ^ 16),
  bit_or_shifted 16 (b3 * 256 + b2) (b1 * 2 ^ 8),
  bit_or_shifted 8 ((b3 * 256 + b2) * 256 + b1) b0,
)

word_from_lem :
    (ii : ℕ) (input : List ℕ) (b0 b1 b2 b3 : ℕ) (rest : List ℕ)
    → drop ii input ≡ b0 ∷ b1 ∷ b2 ∷ b3 ∷ rest
    → b0 < 256
    → b1 < 256
    → b2 < 256
    → b3 < 256
    → word_from input ii ≡ b0 + 256 * b1 + 65536 * b2 + 16777216 * b3
unfolding word_from
word_from_lem ii input b0 b1 b2 b3 rest d h0 h1 h2 h3 =
    rw
      (
        get_or-drop ii 3 (ii + 3) input 0 refl ∙ ap (λ t. get_or t 3 0) d,
        get_or-drop ii 2 (ii + 2) input 0 refl ∙ ap (λ t. get_or t 2 0) d,
        get_or-drop ii 1 (ii + 1) input 0 refl ∙ ap (λ t. get_or t 1 0) d,
        get_or-drop ii 0 ii input 0 (omega arith) ∙ ap (λ t. get_or t 0 0) d,
      )
      (word_lem b0 b1 b2 b3 h0 h1 h2 h3)

-- The words read from an index on are the words of the bytes that stand there.
pub words_from_lem :
    (n m ii : ℕ) (input rest : List ℕ)
    → m ≡ 4 * n
    → drop ii input ≡ rest
    → m ≤ length rest
    → IsBytes (take m rest)
    → words_from input n ii ≡ le_words (take m rest)
unfolding words_from le_words
words_from_lem zero zero ii input rest e d h byte = refl
words_from_lem zero (suc m) ii input rest e d h byte = absurd (omega arith)
words_from_lem (suc n) (suc (suc (suc (suc m)))) ii input (b0 ∷ b1 ∷ b2 ∷ b3 ∷ rest) e d h byte =
    ap₂ ◌∷◌ (word_from_lem ii input b0 b1 b2 b3 rest d byte.0 byte.1.0 byte.1.1.0 byte.1.1.1.0) (
      words_from_lem n m (ii + 4) input rest (omega arith)
        (sym (drop-drop ii 4 (ii + 4) input refl) ∙ ap (drop 4) d) (omega arith) byte.1.1.1.1)
words_from_lem (suc n) m ii input rest e d h byte = absurd (omega arith)

pub word_bytes_lem : (w : ℕ) → word_bytes w ≡ le_bytes 4 w
unfolding word_bytes le_bytes
word_bytes_lem w = ground (
  arith,
  bit_and_mask 8 w,
  bit_and_mask 8 (w / 2 ^ 8),
  bit_and_mask 8 (w / 2 ^ 16),
  bit_and_mask 8 (w / 2 ^ 24),
)

pub digest_of_lem :
    (r : Regs)
    → digest_of r ≡ le_bytes 4 r.a ++ (le_bytes 4 r.b ++ (le_bytes 4 r.c ++ le_bytes 4 r.d))
unfolding digest_of
digest_of_lem r =
    rw (word_bytes_lem r.a, word_bytes_lem r.b, word_bytes_lem r.c, word_bytes_lem r.d)

pub mdi_of_lem : (lo : ℕ) → mdi_of lo ≡ lo / 8 % 64
unfolding mdi_of
mdi_of_lem lo = bit_and_mask 6 (lo / 2 ^ 3)
