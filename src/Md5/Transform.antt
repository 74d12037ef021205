-- ===== src/Md5/Transform.antt =====
-- md5.c `MD5Transform` (the C version, compiled where CPU386 is not defined): 64 unrolled steps,
-- sixteen to a round, then the registers are added to `buf`.
use presto_build.Base.{ℕ, ◌+◌, List, get_or}
use presto_build.Md5.Word.{u32, ff, gg, hh, ii}

-- `buf[4]` of MD5_CTX, and the registers a, b, c, d of the transform.
pub record Regs : Type 0 where
  pub a : ℕ
  pub b : ℕ
  pub c : ℕ
  pub d : ℕ

-- `in[16]`, read at an index.
abbrev pub word_at : List ℕ → ℕ → ℕ
word_at input i = get_or input i 0

abbrev pub Step : Type 0
Step = ℕ → ℕ → ℕ → ℕ → ℕ → ℕ → ℕ → ℕ

-- Four lines of a round: they assign a, d, c and b in turn.
unfoldable pub row : Step → (ℕ → ℕ) → ℕ → ℕ → ℕ → ℕ → Regs → ℕ → ℕ → ℕ → ℕ → ℕ → ℕ → ℕ → ℕ → Regs
row op x s1 s2 s3 s4 r k1 ac1 k2 ac2 k3 ac3 k4 ac4 =
    let a = op r.a r.b r.c r.d (x k1) s1 ac1 in
    let d = op r.d a r.b r.c (x k2) s2 ac2 in
    let c = op r.c d a r.b (x k3) s3 ac3 in
    let b = op r.b c d a (x k4) s4 ac4 in record { a = a; b = b; c = c; d = d }

unfoldable pub round_one : (ℕ → ℕ) → Regs → Regs
round_one x r0 =
    let line = row ff x 7 12 17 22 in
    let r1 = line r0 0 3614090360 1 3905402710 2 606105819 3 3250441966 in
    let r2 = line r1 4 4118548399 5 1200080426 6 2821735955 7 4249261313 in
    let r3 = line r2 8 1770035416 9 2336552879 10 4294925233 11 2304563134 in
    line r3 12 1804603682 13 4254626195 14 2792965006 15 1236535329

unfoldable pub round_two : (ℕ → ℕ) → Regs → Regs
round_two x r0 =
    let line = row gg x 5 9 14 20 in
    let r1 = line r0 1 4129170786 6 3225465664 11 643717713 0 3921069994 in
    let r2 = line r1 5 3593408605 10 38016083 15 3634488961 4 3889429448 in
    let r3 = line r2 9 568446438 14 3275163606 3 4107603335 8 1163531501 in
    line r3 13 2850285829 2 4243563512 7 1735328473 12 2368359562

unfoldable pub round_three : (ℕ → ℕ) → Regs → Regs
round_three x r0 =
    let line = row hh x 4 11 16 23 in
    let r1 = line r0 5 4294588738 8 2272392833 11 1839030562 14 4259657740 in
    let r2 = line r1 1 2763975236 4 1272893353 7 4139469664 10 3200236656 in
    let r3 = line r2 13 681279174 0 3936430074 3 3572445317 6 76029189 in
    line r3 9 3654602809 12 3873151461 15 530742520 2 3299628645

unfoldable pub round_four : (ℕ → ℕ) → Regs → Regs
round_four x r0 =
    let line = row ii x 6 10 15 21 in
    let r1 = line r0 0 4096336452 7 1126891415 14 2878612391 5 4237533241 in
    let r2 = line r1 12 1700485571 3 2399980690 10 4293915773 1 2240044497 in
    let r3 = line r2 8 1873313359 15 4264355552 6 2734768916 13 1309151649 in
    line r3 4 4149444226 11 3174756917 2 718787259 9 3951481745

unfoldable pub transform : Regs → List ℕ → Regs
transform buf input =
    let x = word_at input in
    let r = round_four x (round_three x (round_two x (round_one x buf))) in
    record {
      a = u32 (buf.a + r.a);
      b = u32 (buf.b + r.b);
      c = u32 (buf.c + r.c);
      d = u32 (buf.d + r.d);
    }
