-- ===== src/Md5/Final.antt =====
-- `MD5Final` on a context that holds a message: the padding, the length and the last block.
use presto_build.Base.{
  ℕ, zero, suc, ◌+◌, ◌-◌, ◌*◌, ◌/◌, ◌%◌, ◌^◌, ◌≤◌, ◌≡◌, refl, sym, ap, ap₂, ◌∙◌, List, [], ◌∷◌,
  ◌++◌, length, take, drop, replicate, length-append, length-drop, length-replicate, take_all,
  drop-append, All-drop, append_assoc, arith,
}
use presto_build.Md5.Transform.{Regs, transform}
use presto_build.Md5.Context.{
  Context, update, mdi_of, padding, pad_len, final, words_from, digest_of,
}
use presto_build.Md5.Reference.{compress, blocks, le_words, le_bytes, pad, md5}
use presto_build.Md5.Compression.{transform-eq-compress}
use presto_build.Md5.Decode.{IsByte, IsBytes, words_from_lem, digest_of_lem}
use presto_build.Md5.Holds.{Holds, blocks_add, blocks-append}
use presto_build.Md5.Updates.{index_lem, update-Holds}

take-replicate : (n m v : ℕ) → n ≤ m → take n (replicate m v) ≡ replicate n v
take-replicate zero m v h = refl
take-replicate (suc n) zero v h = absurd (omega arith)
take-replicate (suc n) (suc m) v h = ap (λ t. v ∷ t) (take-replicate n m v (omega arith))

All-replicate : (n v : ℕ) → IsByte v → IsBytes (replicate n v)
All-replicate zero v h = tt
All-replicate (suc n) v h = (h, All-replicate n v h)

-- The number of zeros behind the first padding byte.
abbrev zeros : ℕ → ℕ
zeros r = (119 - r % 64) % 64

pad_len_lem : (r : ℕ) → pad_len (r % 64) ≡ suc (zeros r)
unfolding pad_len
pad_len_lem r = ground arith

zeros-le : (r : ℕ) → zeros r ≤ 63
zeros-le r = omega arith

abbrev stuffing : ℕ → List ℕ
stuffing r = 0x80 ∷ replicate (zeros r) 0

-- The bytes that `MD5Final` takes from `PADDING`.
padding_taken : (r : ℕ) → take (pad_len (r % 64)) padding ≡ stuffing r
padding_taken r =
    ap (λ (t : ℕ). take t padding) (pad_len_lem r)
    ∙ ap (λ t. 0x80 ∷ t) (take-replicate (zeros r) 63 0 (zeros-le r))

stuffing-IsBytes : (r : ℕ) → IsBytes (stuffing r)
stuffing-IsBytes r = (omega arith, All-replicate (zeros r) 0 (omega arith))

-- With the padding the message is 8 bytes short of whole blocks.
stuffed_length : (message : List ℕ) → length (message ++ stuffing (length message)) % 64 ≡ 56
stuffed_length message = omega (
  arith,
  length-append message (stuffing (length message)),
  length-replicate {A = ℕ} (zeros (length message)) 0,
)

pad_lem :
    (message : List ℕ)
    → pad message ≡ (message ++ stuffing (length message)) ++ le_bytes 8 (length message * 8)
unfolding pad
pad_lem message = sym (append_assoc message (stuffing (length message)) (le_bytes 8 _))

le_words-append :
    (n : ℕ) (xs ys : List ℕ) → length xs ≡ 4 * n → le_words (xs ++ ys) ≡ le_words xs ++ le_words ys
unfolding le_words
le_words-append zero [] ys h = refl
le_words-append (suc n) (a ∷ b ∷ c ∷ d ∷ xs) ys h =
    ap (λ t. (a + 256 * b + 65536 * c + 16777216 * d) ∷ t) (le_words-append n xs ys (omega arith))
le_words-append n xs ys h = absurd (omega arith)

length_words : (w : ℕ) → le_words (le_bytes 8 w) ≡ w % 2 ^ 32 ∷ w / 2 ^ 32 % 2 ^ 32 ∷ []
unfolding le_words le_bytes
length_words w = ground arith

length-le_bytes : (n w : ℕ) → length (le_bytes n w) ≡ n
unfolding le_bytes
length-le_bytes zero w = refl
length-le_bytes (suc n) w = ap suc (length-le_bytes n (w / 256))

one_block : (h : Regs) (bytes : List ℕ) → compress h (le_words (take 64 bytes)) ≡ blocks 1 h bytes
unfolding blocks
one_block h bytes = refl

module _ {ctx : Context} {h : Regs} {stuffed : List ℕ} (held : Holds ctx h stuffed)
    (short : length stuffed % 64 ≡ 56) (bits : ℕ) where
  abbrev full : ℕ
  full = length stuffed / 64

  abbrev rest : List ℕ
  rest = drop (64 * full) stuffed

  waiting : take 56 ctx.input ≡ rest
  waiting = ap (λ (t : ℕ). take t ctx.input) (sym short) ∙ held.rest

  rest_length : length rest ≡ 56
  rest_length = omega (arith, length-drop (64 * full) stuffed)

  waiting_words : words_from ctx.input 14 0 ≡ le_words (take 56 ctx.input)
  waiting_words =
      words_from_lem 14 56 0 ctx.input ctx.input refl refl (omega (arith, held.size))
        (rw waiting (All-drop IsByte (64 * full) stuffed held.bytes))

  -- The last block: the bytes that wait in `in`, and the length.
  last_words :
      words_from ctx.input 14 0 ++ (bits % 2 ^ 32 ∷ bits / 2 ^ 32 % 2 ^ 32 ∷ [])
      ≡ le_words (rest ++ le_bytes 8 bits)
  last_words =
      ap₂ ◌++◌ (waiting_words ∙ ap le_words waiting) (sym (length_words bits))
      ∙ sym (le_words-append 14 rest (le_bytes 8 bits) rest_length)

  last_block :
      transform ctx.buf (words_from ctx.input 14 0 ++ (bits % 2 ^ 32 ∷ bits / 2 ^ 32 % 2 ^ 32 ∷ []))
      ≡ blocks (length (stuffed ++ le_bytes 8 bits) / 64) h (stuffed ++ le_bytes 8 bits)
  last_block =
      transform-eq-compress ctx.buf _
      ∙ ap₂ compress before (
          last_words
          ∙ ap le_words (sym (take_all 64 (rest ++ le_bytes 8 bits) (omega (arith, sizes)))))
      ∙ one_block (blocks full h (stuffed ++ le_bytes 8 bits)) (rest ++ le_bytes 8 bits)
      ∙ ap (blocks 1 (blocks full h (stuffed ++ le_bytes 8 bits)))
          (sym (drop-append (64 * full) stuffed (le_bytes 8 bits) (omega arith)))
      ∙ sym (blocks_add full 1 _ h (stuffed ++ le_bytes 8 bits) (omega (arith, total)))
    where
      sizes : length (rest ++ le_bytes 8 bits) ≡ 64
      sizes =
          omega (arith, length-append rest (le_bytes 8 bits), rest_length, length-le_bytes 8 bits)

      total : length (stuffed ++ le_bytes 8 bits) ≡ length stuffed + 8
      total = length-append stuffed (le_bytes 8 bits) ∙ omega (arith, length-le_bytes 8 bits)

      before : ctx.buf ≡ blocks full h (stuffed ++ le_bytes 8 bits)
      before = held.state ∙ sym (blocks-append full h stuffed (le_bytes 8 bits) (omega arith))

-- The digest of a context that holds a message is the reference's digest of the message.
pub final-eq-md5 :
    {ctx : Context} {h : Regs} {message : List ℕ}
    → Holds ctx h message
    → (final ctx).digest ≡ md5 h message
unfolding final md5
final-eq-md5 {ctx} {h} {message} held =
    let n = length message in
    let taken : take (pad_len (mdi_of ctx.bits_lo)) padding ≡ stuffing n =
      ap (λ (t : ℕ). take (pad_len t) padding) (index_lem held) ∙ padding_taken n in
    let stuffed = update-Holds held (stuffing n) (stuffing-IsBytes n) in
    let padded = update ctx (stuffing n) in
    let last = λ (lo hi : ℕ). transform padded.buf (words_from padded.input 14 0 ++ lo ∷ hi ∷ []) in
    rw (taken, pad_lem message)
      (ap digest_of (ap₂ last held.lo held.hi ∙ last_block stuffed (stuffed_length message) (n * 8))
        ∙ digest_of_lem _)
