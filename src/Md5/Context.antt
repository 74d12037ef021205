-- ===== src/Md5/Context.antt =====
-- md5.h `MD5_CTX`, and `MD5Init`, `MD5Update` and `MD5Final` of md5.c. LITTLE_ENDIAN is not defined
-- by the project, so `MD5Update` takes its input byte by byte.
use presto_build.Base.{
  ℕ, zero, suc, ◌+◌, ◌-◌, ◌*◌, ◌/◌, ◌^◌, bit_and, bit_or, List, [], ◌∷◌, ◌++◌, ltb, ◌==◌,
  if◌then◌else◌, length, get_or, set, take, replicate,
}
use presto_build.Md5.Word.{u32}
use presto_build.Md5.Transform.{Regs, transform}

-- `i[0]` and `i[1]` are `bits_lo` and `bits_hi`, `in` is `input`.
pub record Context : Type 0 where
  pub bits_lo : ℕ
  pub bits_hi : ℕ
  pub buf : Regs
  pub input : List ℕ
  pub digest : List ℕ

-- `PADDING[64]`
abbrev pub padding : List ℕ
padding = 0x80 ∷ replicate 63 0

abbrev pub init_regs : Regs
init_regs = record { a = 0x67452301; b = 0xefcdab89; c = 0x98badcfe; d = 0x10325476 }

-- `MD5Init` leaves `in` and `digest` as they were.
unfoldable pub init : List ℕ → List ℕ → Context
init input digest = record {
  bits_lo = 0;
  bits_hi = 0;
  buf = init_regs;
  input = input;
  digest = digest;
}

-- `in[i]` from the four bytes at `ii`.
unfoldable pub word_from : List ℕ → ℕ → ℕ
word_from input ii =
    bit_or
      (bit_or
        (bit_or (u32 (get_or input (ii + 3) 0 * 2 ^ 24)) (u32 (get_or input (ii + 2) 0 * 2 ^ 16)))
        (u32 (get_or input (ii + 1) 0 * 2 ^ 8)))
      (get_or input ii 0)

-- `for (i = 0, ii = 0; i < n; i++, ii += 4) in[i] = ...`, from a given `ii`.
unfoldable pub words_from : List ℕ → ℕ → ℕ → List ℕ
words_from input zero ii = []
words_from input (suc n) ii = word_from input ii ∷ words_from input n (ii + 4)

-- What the loop of `MD5Update` changes.
pub record Fill : Type 0 where
  pub mdi : ℕ
  pub buf : Regs
  pub input : List ℕ

unfoldable pub put_byte : Fill → ℕ → Fill
put_byte s b =
    let filled = set s.input s.mdi b in
    if s.mdi + 1 == 0x40
    then record { mdi = 0; buf = transform s.buf (words_from filled 16 0); input = filled }
    else record { mdi = s.mdi + 1; buf = s.buf; input = filled }

-- `while (inLen--)`
unfoldable pub put_bytes : Fill → List ℕ → Fill
put_bytes s [] = s
put_bytes s (b ∷ bs) = put_bytes (put_byte s b) bs

unfoldable pub mdi_of : ℕ → ℕ
mdi_of bits_lo = bit_and (bits_lo / 2 ^ 3) 0x3f

-- The list is the `inLen` bytes at `inBuf`.
unfoldable pub update : Context → List ℕ → Context
unfolding put_bytes put_byte mdi_of
update ctx bytes =
    let n = length bytes in
    let shifted = u32 (n * 2 ^ 3) in
    let lo = u32 (ctx.bits_lo + shifted) in
    let hi = if ltb lo ctx.bits_lo then u32 (ctx.bits_hi + 1) else ctx.bits_hi in
    let s =
      put_bytes (record { mdi = mdi_of ctx.bits_lo; buf = ctx.buf; input = ctx.input }) bytes in
    record ctx { bits_lo = lo; bits_hi = u32 (hi + n / 2 ^ 29); buf = s.buf; input = s.input }

-- The four bytes of `digest` for one word of `buf`.
unfoldable pub word_bytes : ℕ → List ℕ
word_bytes w =
    bit_and w 0xff
    ∷ bit_and (w / 2 ^ 8) 0xff
    ∷ bit_and (w / 2 ^ 16) 0xff
    ∷ bit_and (w / 2 ^ 24) 0xff
    ∷ []

unfoldable pub digest_of : Regs → List ℕ
digest_of r = word_bytes r.a ++ (word_bytes r.b ++ (word_bytes r.c ++ word_bytes r.d))

unfoldable pub pad_len : ℕ → ℕ
pad_len mdi = if ltb mdi 56 then 56 - mdi else 120 - mdi

unfoldable pub final : Context → Context
final ctx =
    let padded = update ctx (take (pad_len (mdi_of ctx.bits_lo)) padding) in
    let words = words_from padded.input 14 0 ++ (ctx.bits_lo ∷ ctx.bits_hi ∷ []) in
    let buf = transform padded.buf words in record padded { buf = buf; digest = digest_of buf }
