-- ===== src/Md5/Reference.antt =====
-- An independent reading of the message digest: RFC 1321's padding, block splitting and compression,
-- the last driven by tables instead of 64 unrolled lines.
use presto_build.Base.{
  ℕ, zero, suc, ◌+◌, ◌-◌, ◌*◌, ◌/◌, ◌%◌, List, [], ◌∷◌, ◌++◌, length, get_or, take, drop, replicate,
}
use presto_build.Md5.Word.{u32, f_fun, g_fun, h_fun, i_fun, rotate_left}
use presto_build.Md5.Transform.{Regs}

abbrev additive : List ℕ
additive =
    3614090360 ∷ 3905402710 ∷ 606105819 ∷ 3250441966 ∷ 4118548399 ∷ 1200080426 ∷ 2821735955
    ∷ 4249261313 ∷ 1770035416 ∷ 2336552879 ∷ 4294925233 ∷ 2304563134 ∷ 1804603682 ∷ 4254626195
    ∷ 2792965006 ∷ 1236535329 ∷ 4129170786 ∷ 3225465664 ∷ 643717713 ∷ 3921069994 ∷ 3593408605
    ∷ 38016083 ∷ 3634488961 ∷ 3889429448 ∷ 568446438 ∷ 3275163606 ∷ 4107603335 ∷ 1163531501
    ∷ 2850285829 ∷ 4243563512 ∷ 1735328473 ∷ 2368359562 ∷ 4294588738 ∷ 2272392833 ∷ 1839030562
    ∷ 4259657740 ∷ 2763975236 ∷ 1272893353 ∷ 4139469664 ∷ 3200236656 ∷ 681279174 ∷ 3936430074
    ∷ 3572445317 ∷ 76029189 ∷ 3654602809 ∷ 3873151461 ∷ 530742520 ∷ 3299628645 ∷ 4096336452
    ∷ 1126891415 ∷ 2878612391 ∷ 4237533241 ∷ 1700485571 ∷ 2399980690 ∷ 4293915773 ∷ 2240044497
    ∷ 1873313359 ∷ 4264355552 ∷ 2734768916 ∷ 1309151649 ∷ 4149444226 ∷ 3174756917 ∷ 718787259
    ∷ 3951481745 ∷ []

abbrev shifts : List ℕ
shifts = 7 ∷ 12 ∷ 17 ∷ 22 ∷ 5 ∷ 9 ∷ 14 ∷ 20 ∷ 4 ∷ 11 ∷ 16 ∷ 23 ∷ 6 ∷ 10 ∷ 15 ∷ 21 ∷ []

-- b + ((a + f(b,c,d) + x + t) <<< s)
unfoldable pub rotate_add : (ℕ → ℕ → ℕ → ℕ) → ℕ → ℕ → ℕ → ℕ → ℕ → ℕ → ℕ → ℕ
rotate_add fun a b c d x s t = u32 (b + rotate_left (u32 (a + fun b c d + x + t)) s)

-- One step; the registers move on by one place.
unfoldable pub rotate_step : (ℕ → ℕ → ℕ → ℕ) → ℕ → ℕ → ℕ → Regs → Regs
rotate_step fun x s t r = record {
  a = r.d;
  b = rotate_add fun r.a r.b r.c r.d x s t;
  c = r.b;
  d = r.c;
}

abbrev pub fun_at : ℕ → ℕ → ℕ → ℕ → ℕ
fun_at zero = f_fun
fun_at (suc zero) = g_fun
fun_at (suc (suc zero)) = h_fun
fun_at _ = i_fun

-- Which word of the block step `i` reads.
abbrev pub index_at : ℕ → ℕ → ℕ
index_at zero i = i % 16
index_at (suc zero) i = (5 * i + 1) % 16
index_at (suc (suc zero)) i = (3 * i + 5) % 16
index_at _ i = 7 * i % 16

unfoldable pub steps : ℕ → ℕ → List ℕ → Regs → Regs
steps zero i block r = r
steps (suc n) i block r =
    let q = i / 16 in
    steps n (i + 1) block (
      rotate_step (fun_at q) (get_or block (index_at q i) 0) (get_or shifts (q * 4 + i % 4) 0)
        (get_or additive i 0) r)

unfoldable pub compress : Regs → List ℕ → Regs
unfolding steps
compress h block =
    let r = steps 64 0 block h in
    record { a = u32 (h.a + r.a); b = u32 (h.b + r.b); c = u32 (h.c + r.c); d = u32 (h.d + r.d) }

-- Little-endian words.
unfoldable pub le_words : List ℕ → List ℕ
le_words (b0 ∷ b1 ∷ b2 ∷ b3 ∷ rest) = (b0 + 256 * b1 + 65536 * b2 + 16777216 * b3) ∷ le_words rest
le_words _ = []

-- The state after `n` blocks of 64 bytes.
unfoldable pub blocks : ℕ → Regs → List ℕ → Regs
blocks zero h bytes = h
blocks (suc n) h bytes = blocks n (compress h (le_words (take 64 bytes))) (drop 64 bytes)

-- `n` bytes of a number, the lowest first.
unfoldable pub le_bytes : ℕ → ℕ → List ℕ
le_bytes zero w = []
le_bytes (suc n) w = w % 256 ∷ le_bytes n (w / 256)

-- One bit and zeros up to 56 bytes modulo 64, then the length in bits modulo 2^64.
unfoldable pub pad : List ℕ → List ℕ
pad message =
    let n = length message in
    message ++ (0x80 ∷ replicate ((119 - n % 64) % 64) 0 ++ le_bytes 8 (n * 8))

unfoldable pub md5 : Regs → List ℕ → List ℕ
md5 h message =
    let padded = pad message in
    let r = blocks (length padded / 64) h padded in
    le_bytes 4 r.a ++ (le_bytes 4 r.b ++ (le_bytes 4 r.c ++ le_bytes 4 r.d))
