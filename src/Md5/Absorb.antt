-- ===== src/Md5/Absorb.antt =====
-- The byte loop of `MD5Update`: it compresses the whole blocks and keeps the rest in `in`.
use presto_build.Base.{
  ℕ, zero, suc, ◌+◌, ◌*◌, ◌<◌, ◌≡◌, refl, sym, ap, ◌∙◌, List, [], ◌∷◌, ◌++◌, ◌⊎◌, inl, inr, length,
  set, take, drop, length-set, length-append, length-take, take-suc-set, take_all,
  take-length-append, drop-length-append, drop-drop, All-append, append-nil, append_assoc, arith,
}
use presto_build.Md5.Transform.{Regs, transform}
use presto_build.Md5.Context.{Fill, put_byte, put_bytes, words_from}
use presto_build.Md5.Reference.{compress, blocks, le_words}
use presto_build.Md5.Compression.{transform-eq-compress}
use presto_build.Md5.Decode.{IsByte, IsBytes, words_from_lem}

-- `in` is a whole array with room for another byte, and holds bytes as far as it is filled.
pub record IsFill (s : Fill) : Type 0 where
  pub room : s.mdi < 64
  pub size : length s.input ≡ 64
  pub filled : IsBytes (take s.mdi s.input)

-- From the state `h`, the `n` whole blocks of `bytes` are compressed, and the `k` bytes behind them
-- stand in `in`.
pub record IsAbsorbed (s : Fill) (h : Regs) (bytes : List ℕ) (n k : ℕ) : Type 0 where
  pub state : s.buf ≡ blocks n h bytes
  pub index : s.mdi ≡ k
  pub size : length s.input ≡ 64
  pub rest : take k s.input ≡ drop (64 * n) bytes

put_byte_part :
    (s : Fill) (b : ℕ)
    → s.mdi + 1 < 64
    → put_byte s b ≡ record { mdi = s.mdi + 1; buf = s.buf; input = set s.input s.mdi b }
unfolding put_byte
put_byte_part s b h = ground arith

put_byte_full :
    (s : Fill) (b : ℕ)
    → s.mdi + 1 ≡ 64
    → put_byte s b ≡ record {
      mdi = 0;
      buf = transform s.buf (words_from (set s.input s.mdi b) 16 0);
      input = set s.input s.mdi b;
    }
unfolding put_byte
put_byte_full s b h = ground arith

-- The bytes that are filled in once `b` is stored.
take_stored :
    (s : Fill) (b : ℕ)
    → IsFill s
    → take (s.mdi + 1) (set s.input s.mdi b) ≡ take s.mdi s.input ++ b ∷ []
take_stored s b f =
    let next : s.mdi + 1 ≡ suc s.mdi = omega arith in
    ap (λ (t : ℕ). take t (set s.input s.mdi b)) next
    ∙ take-suc-set s.input s.mdi b (omega (arith, f.room, f.size))

compress_filled :
    (h : Regs) (input : List ℕ)
    → length input ≡ 64
    → IsBytes input
    → transform h (words_from input 16 0) ≡ compress h (le_words input)
compress_filled h input size byte =
    transform-eq-compress h (words_from input 16 0)
    ∙ ap (compress h) (
        words_from_lem 16 64 0 input input refl refl (omega arith)
          (rw (take_all 64 input (omega arith)) byte)
        ∙ ap le_words (take_all 64 input (omega arith)))

blocks-suc :
    (n : ℕ) (h : Regs) (block bytes : List ℕ)
    → length block ≡ 64
    → blocks (suc n) h (block ++ bytes) ≡ blocks n (compress h (le_words block)) bytes
unfolding blocks
blocks-suc n h block bytes e = rw (
  ap (λ (t : ℕ). take t (block ++ bytes)) (sym e) ∙ take-length-append block bytes,
  ap (λ (t : ℕ). drop t (block ++ bytes)) (sym e) ∙ drop-length-append block bytes,
)

drop-suc :
    (n : ℕ) (block bytes : List ℕ)
    → length block ≡ 64
    → drop (64 * suc n) (block ++ bytes) ≡ drop (64 * n) bytes
drop-suc n block bytes e =
    sym (drop-drop 64 (64 * n) (64 * suc n) (block ++ bytes) (omega arith))
    ∙ ap (drop (64 * n))
        (ap (λ (t : ℕ). drop t (block ++ bytes)) (sym e) ∙ drop-length-append block bytes)

absorb_nil :
    (s : Fill) (n k : ℕ) (whole : List ℕ)
    → IsFill s
    → take s.mdi s.input ≡ whole
    → length whole ≡ 64 * n + k
    → k < 64
    → IsAbsorbed s s.buf whole n k
unfolding blocks
absorb_nil s zero k whole f e l h =
    let same : k ≡ s.mdi = omega (arith, length-take s.mdi s.input, f.size, f.room, ap length e) in
    record {
      state = refl;
      index = sym same;
      size = f.size;
      rest = ap (λ (t : ℕ). take t s.input) same ∙ e;
    }
absorb_nil s (suc n) k whole f e l h =
    absurd (omega (arith, length-take s.mdi s.input, f.size, f.room, ap length e))

room_cases : (m : ℕ) → m < 64 → (m + 1 < 64) ⊎ (m + 1 ≡ 64)
room_cases m h = grind arith

module _ (s : Fill) (b : ℕ) (f : IsFill s) (byte : IsByte b) where
  abbrev stored : List ℕ
  stored = set s.input s.mdi b

  stored_size : length stored ≡ 64
  stored_size = length-set s.input s.mdi b ∙ f.size

  stored-IsBytes : IsBytes (take (s.mdi + 1) stored)
  stored-IsBytes =
      rw (take_stored s b f) (All-append IsByte (take s.mdi s.input) (b ∷ []) f.filled (byte, tt))

  stored_whole :
      (bytes whole : List ℕ)
      → take s.mdi s.input ++ b ∷ bytes ≡ whole
      → take (s.mdi + 1) stored ++ bytes ≡ whole
  stored_whole bytes whole e =
      ap (λ t. t ++ bytes) (take_stored s b f)
      ∙ append_assoc (take s.mdi s.input) (b ∷ []) bytes
      ∙ e

  module _ (last : s.mdi + 1 ≡ 64) where
    take-stored_all : take (s.mdi + 1) stored ≡ stored
    take-stored_all = take_all (s.mdi + 1) stored (omega (arith, stored_size))

    compress-stored : transform s.buf (words_from stored 16 0) ≡ compress s.buf (le_words stored)
    compress-stored =
        compress_filled s.buf stored stored_size (rw take-stored_all at stored-IsBytes)

    -- The block is full: the rest of the loop works from the state behind it.
    absorb_full :
        (n k : ℕ) (bytes whole : List ℕ) (r : Fill)
        → stored ++ bytes ≡ whole
        → length whole ≡ 64 * n + k
        → k < 64
        → ((m : ℕ)
            → length bytes ≡ 64 * m + k
            → IsAbsorbed r (transform s.buf (words_from stored 16 0)) bytes m k)
        → IsAbsorbed r s.buf whole n k
    absorb_full zero k bytes whole r e l h later =
        absurd (omega (arith, ap length e, length-append stored bytes, stored_size))
    absorb_full (suc n) k bytes whole r e l h later =
        let ih = later n (omega (arith, ap length e, length-append stored bytes, stored_size)) in
        record {
          state =
              ih.state
              ∙ ap (λ t. blocks n t bytes) compress-stored
              ∙ sym (blocks-suc n s.buf stored bytes stored_size)
              ∙ ap (blocks (suc n) s.buf) e;
          index = ih.index;
          size = ih.size;
          rest = ih.rest ∙ sym (drop-suc n stored bytes stored_size) ∙ ap (drop (64 * suc n)) e;
        }

pub put_bytes-IsAbsorbed :
    (bytes : List ℕ) (s : Fill) (n k : ℕ) (whole : List ℕ)
    → IsFill s
    → IsBytes bytes
    → take s.mdi s.input ++ bytes ≡ whole
    → length whole ≡ 64 * n + k
    → k < 64
    → IsAbsorbed (put_bytes s bytes) s.buf whole n k
unfolding put_bytes
put_bytes-IsAbsorbed [] s n k whole f byte e l h =
    absorb_nil s n k whole f (sym (append-nil (take s.mdi s.input)) ∙ e) l h
put_bytes-IsAbsorbed (b ∷ bytes) s n k whole f byte e l h = elim (room_cases s.mdi f.room) [
  | inl room ↦ rw (put_byte_part s b room) (
      put_bytes-IsAbsorbed bytes
        (record { mdi = s.mdi + 1; buf = s.buf; input = set s.input s.mdi b }) n k whole
        (record {
          room = room;
          size = stored_size s b f byte.0;
          filled = stored-IsBytes s b f byte.0;
        })
        byte.1 (stored_whole s b f byte.0 bytes whole e) l h)
  | inr last ↦ rw (put_byte_full s b last) (
      absorb_full s b f byte.0 last n k bytes whole _
        (ap (λ t. t ++ bytes) (sym (take-stored_all s b f byte.0 last))
          ∙ stored_whole s b f byte.0 bytes whole e)
        l h
        (λ m q.
          put_bytes-IsAbsorbed bytes
            (record {
              mdi = 0;
              buf = transform s.buf (words_from (set s.input s.mdi b) 16 0);
              input = set s.input s.mdi b;
            })
            m k bytes (record { room = omega arith; size = stored_size s b f byte.0; filled = tt })
            byte.1 refl q h))
]
