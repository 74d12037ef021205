-- ===== src/Md5/Updates.antt =====
-- `MD5Update` and `MD5Final` on a context that holds a message.
use presto_build.Base.{
  ℕ, ◌+◌, ◌-◌, ◌*◌, ◌/◌, ◌%◌, ◌^◌, ◌<◌, ◌≡◌, sym, ap, ap₂, ◌∙◌, List, ◌++◌, length, take, drop,
  length-append, length-drop, drop-append, drop-drop, All-append, All-drop, arith,
}
use presto_build.Md5.Transform.{Regs}
use presto_build.Md5.Context.{Context, Fill, update, put_bytes, mdi_of}
use presto_build.Md5.Reference.{blocks}
use presto_build.Md5.Decode.{IsByte, IsBytes, mdi_of_lem}
use presto_build.Md5.Absorb.{IsFill, IsAbsorbed, put_bytes-IsAbsorbed}
use presto_build.Md5.Holds.{
  Holds, blocks-append, blocks_add, next_lo, next_hi, next_lo_lem, next_hi_lem,
}

module _ {ctx : Context} {h : Regs} {message : List ℕ} (held : Holds ctx h message) where
  abbrev whole : ℕ
  whole = length message / 64

  pub index_lem : mdi_of ctx.bits_lo ≡ length message % 64
  index_lem = mdi_of_lem ctx.bits_lo ∙ omega (arith, held.lo)

  abbrev start : Fill
  start = record { mdi = mdi_of ctx.bits_lo; buf = ctx.buf; input = ctx.input }

  start_taken : take (mdi_of ctx.bits_lo) ctx.input ≡ drop (64 * whole) message
  start_taken = ap (λ (t : ℕ). take t ctx.input) index_lem ∙ held.rest

  start-IsFill : IsFill start
  start-IsFill = record {
    room = omega (arith, index_lem);
    size = held.size;
    filled = rw start_taken (All-drop IsByte (64 * whole) message held.bytes);
  }

  -- The loop starts from the rest of the message.
  loop-IsAbsorbed :
      (bytes : List ℕ) (n k : ℕ)
      → IsBytes bytes
      → length message % 64 + length bytes ≡ 64 * n + k
      → k < 64
      → IsAbsorbed (put_bytes start bytes) ctx.buf (drop (64 * whole) message ++ bytes) n k
  loop-IsAbsorbed bytes n k byte e lt =
      put_bytes-IsAbsorbed bytes start n k (drop (64 * whole) message ++ bytes) start-IsFill byte
        (ap (λ t. t ++ bytes) start_taken)
        (omega (
          arith,
          length-append (drop (64 * whole) message) bytes,
          length-drop (64 * whole) message,
        ))
        lt

  drop-whole :
      (bytes : List ℕ) → drop (64 * whole) (message ++ bytes) ≡ drop (64 * whole) message ++ bytes
  drop-whole bytes = drop-append (64 * whole) message bytes (omega arith)

  -- `n` more blocks, the rest of the message first.
  blocks_more :
      (bytes : List ℕ) (n k : ℕ)
      → whole + n ≡ k
      → blocks n ctx.buf (drop (64 * whole) message ++ bytes) ≡ blocks k h (message ++ bytes)
  blocks_more bytes n k e =
      ap₂ (blocks n) (held.state ∙ sym (blocks-append whole h message bytes (omega arith)))
        (sym (drop-whole bytes))
      ∙ sym (blocks_add whole n k h (message ++ bytes) e)

  -- A context that holds a message and is given more bytes holds the message with those bytes behind it.
  pub update-Holds :
      (bytes : List ℕ) → IsBytes bytes → Holds (update ctx bytes) h (message ++ bytes)
  unfolding update
  update-Holds bytes byte =
      let total = length (message ++ bytes) in
      let more = total / 64 - whole in
      let sum : total ≡ length message + length bytes = length-append message bytes in
      let count : whole + more ≡ total / 64 = omega arith in
      let a = loop-IsAbsorbed bytes more (total % 64) byte (omega arith) (omega arith) in
      record {
        size = a.size;
        state = a.state ∙ blocks_more bytes more (total / 64) count;
        rest =
            a.rest
            ∙ ap (drop (64 * more)) (sym (drop-whole bytes))
            ∙ drop-drop (64 * whole) (64 * more) (64 * (total / 64)) (message ++ bytes)
                (omega arith);
        lo =
            ap (λ (t : ℕ). next_lo t (length bytes)) held.lo
            ∙ next_lo_lem (length message) (length bytes)
            ∙ ap (λ (t : ℕ). t * 8 % 2 ^ 32) (sym sum);
        hi =
            ap₂ (λ (s t : ℕ). next_hi s t (length bytes)) held.lo held.hi
            ∙ next_hi_lem (length message) (length bytes)
            ∙ ap (λ (t : ℕ). t * 8 / 2 ^ 32 % 2 ^ 32) (sym sum);
        bytes = All-append IsByte message bytes held.bytes byte;
      }
