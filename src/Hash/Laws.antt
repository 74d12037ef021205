-- ===== src/Hash/Laws.antt =====
-- What the hex digests of lmakelib.cpp are digests of.
use presto_build.Base.{
  ℕ, zero, suc, ◌+◌, ◌*◌, ◌/◌, ◌%◌, ◌^◌, ◌<◌, ◌≡◌, refl, sym, ap, ap₂, ◌∙◌, bit_and, subst, some,
  List, [], ◌∷◌, ◌++◌, ◌==◌, ==_iff, ◌≢◌, ◌-◌, true, length, get_or, take, drop, length-take,
  length-drop, take_all, append_assoc, take-append-drop, All-take, All-drop, Bool-cases, inl, inr,
  arith, if◌then◌else◌,
}
use Prim.Native.Nat.{min}
use presto_build.Base.Table.{agree, agree_sound}
use presto_build.Lua.{LuaApi, string, returns}
use presto_build.Md5.Transform.{Regs}
use presto_build.Md5.Context.{Context, init_regs, update}
use presto_build.Md5.Reference.{md5}
use presto_build.Md5.Decode.{IsByte, IsBytes}
use presto_build.Md5.Holds.{Holds, Holds-init}
use presto_build.Md5.Updates.{update-Holds}
use presto_build.Md5.Final.{final-eq-md5}
use presto_build.Hash.{
  hex_chars, push_hex, Garbage, start, make_md5, FileApi, hash_loop, hashed, hash_opened,
  make_file_md5,
}

-- The digit that a character stands for, by its position among 0-9 and a-f.
abbrev pub digit_of : ℕ → ℕ
digit_of c = if c == 0 then 16 else (c % 97 % 48) + c / 97 * 10

abbrev pub read_hex : List ℕ → List ℕ
read_hex (h ∷ l ∷ rest) = (digit_of h * 16 + digit_of l) ∷ read_hex rest
read_hex _ = []

byte_round : ℕ → ℕ
byte_round b =
    digit_of (get_or hex_chars (bit_and b 0xf0 / 2 ^ 4) 0) * 16
    + digit_of (get_or hex_chars (bit_and b 0x0f) 0)

byte_round_table : agree byte_round (λ b. b) 256 ≡ true
unfolding agree byte_round
byte_round_table = refl

-- The hex text of any bytes has two characters for each byte and reads back as the bytes.
pub read_hex-push_hex :
    (bytes : List ℕ)
    → IsBytes bytes
    → (read_hex (push_hex bytes) ≡ bytes) × (length (push_hex bytes) ≡ 2 * length bytes)
unfolding push_hex
read_hex-push_hex [] h = (refl, refl)
read_hex-push_hex (b ∷ bytes) h =
    let ih = read_hex-push_hex bytes h.1 in
    (
      ap₂ ◌∷◌ (unfold byte_round in agree_sound byte_round (λ t. t) 256 b byte_round_table h.0)
          ih.0,
      omega (arith, ih.1),
    )

start-Holds : (g : Garbage) → length g.input ≡ 64 → Holds (start g) init_regs []
unfolding start
start-Holds g e = Holds-init g.input g.digest e

-- `make.md5` pushes the hex text of the reference digest of its argument, for every string of bytes and
-- whatever the 64 bytes of the uninitialised context held.
pub make_md5-eq-md5 :
    (api : LuaApi) (g : Garbage) (text : List ℕ)
    → length g.input ≡ 64
    → IsBytes text
    → make_md5 api g (string text ∷ []) ≡ returns (string (push_hex (md5 init_regs text)) ∷ [])
unfolding make_md5
make_md5-eq-md5 api g text size byte =
    ap (λ t. returns (string (push_hex t) ∷ []))
      (final-eq-md5 (update-Holds (start-Holds g size) text byte))

module _ (os : FileApi) (contents : os.Handle → List ℕ) where
  -- ReadFile on a file: as many bytes as asked for, or all that are left, and the position moves on.
  abbrev pub Reads : Type 0
  Reads =
      (handle : os.Handle) (n : ℕ)
      → ((os.read_file handle n).0 ≡ take n (contents handle))
        × (contents (os.read_file handle n).1 ≡ drop n (contents handle))

module _ (os : FileApi) (contents : os.Handle → List ℕ) (reads : Reads os contents) where
  loop-Holds :
      (fuel : ℕ) (handle : os.Handle) (ctx : Context) (h : Regs) (message : List ℕ)
      → length (contents handle) < 4096 * fuel
      → IsBytes (contents handle)
      → Holds ctx h message
      → (ctx' : Context) × (hash_loop os fuel handle ctx ≡ some ctx')
        × Holds ctx' h (message ++ contents handle)
  unfolding hash_loop
  loop-Holds zero handle ctx h message enough byte held = absurd (omega arith)
  loop-Holds (suc fuel) handle ctx h message enough byte held =
      elim (Bool-cases (length (os.read_file handle 4096).0 == 4096)) [
        | inl full ↦
            let (ctx', ran, held') =
              loop-Holds fuel later (update ctx chunk) h (message ++ chunk)
                (omega (arith, (==_iff (length chunk) 4096).0 full, left, got))
                (rw (reads handle 4096).1 (All-drop IsByte 4096 (contents handle) byte)) fed in
            (
              ctx',
              rw full ran,
              subst (Holds ctx' h)
                  (append_assoc message chunk (contents later) ∙ ap (λ t. message ++ t) joined)
                  held',
            )
        | inr short ↦ (
          update ctx chunk,
          rw short,
          subst (λ t. Holds (update ctx chunk) h (message ++ t))
              (all_read (λ e. cc (short, (==_iff (length chunk) 4096).1 e))) fed,
        )
      ]
    where
      chunk : List ℕ
      chunk = (os.read_file handle 4096).0

      later : os.Handle
      later = (os.read_file handle 4096).1

      got : length chunk ≡ min 4096 (length (contents handle))
      got = ap length (reads handle 4096).0 ∙ length-take 4096 (contents handle)

      left : length (contents later) ≡ length (contents handle) - 4096
      left = ap length (reads handle 4096).1 ∙ length-drop 4096 (contents handle)

      fed : Holds (update ctx chunk) h (message ++ chunk)
      fed =
          update-Holds held chunk
            (rw (reads handle 4096).0 (All-take IsByte 4096 (contents handle) byte))

      joined : chunk ++ contents later ≡ contents handle
      joined =
          ap₂ ◌++◌ (reads handle 4096).0 (reads handle 4096).1
          ∙ take-append-drop 4096 (contents handle)

      all_read : (length chunk ≢ 4096) → chunk ≡ contents handle
      all_read ne = (reads handle 4096).0 ∙ take_all 4096 (contents handle) (omega (arith, got, ne))

  -- For a file that opens and holds bytes, and calls of ReadFile that obey `Reads`: with fuel for as many
  -- reads of 4096 bytes as cover the contents with a byte to spare, `make.file.md5` returns, and pushes
  -- what `make.md5` pushes for the contents, whatever the 64 bytes of the uninitialised context held.
  pub make_file_md5-eq-make_md5 :
      (api : LuaApi) (g : Garbage) (path : List ℕ) (handle : os.Handle) (fuel : ℕ)
      → length g.input ≡ 64
      → os.open_file path ≡ some handle
      → IsBytes (contents handle)
      → length (contents handle) < 4096 * fuel
      → make_file_md5 os fuel g path ≡ some (make_md5 api g (string (contents handle) ∷ []))
  unfolding make_file_md5 hash_opened hashed
  make_file_md5-eq-make_md5 api g path handle fuel size opened byte enough =
      let (ctx, ran, held) =
        loop-Holds fuel handle (start g) init_regs [] enough byte (start-Holds g size) in
      rw (opened, ran)
        (ap some (
          ap (λ t. returns (string (push_hex t) ∷ [])) (final-eq-md5 held)
          ∙ sym (make_md5-eq-md5 api g (contents handle) size byte)))
