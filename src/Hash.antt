-- ===== src/Hash.antt =====
-- lmakelib.cpp: `lua_pushhex`, `make_md5` and `make_file_md5`.
pub mod Laws
use presto_build.Base.{
  ℕ, zero, suc, ◌*◌, ◌/◌, ◌^◌, bit_and, Option, none, some, List, [], ◌∷◌, ◌==◌, if◌then◌else◌,
  length, get_or,
}
use presto_build.Lua.{
  LuaApi, Frame, Value, string, Outcome, returns, raises, message, check_text, ◌>>=◌,
}
use presto_build.Md5.Context.{Context, init, update, final}

-- "0123456789abcdef"
abbrev pub hex_chars : List ℕ
hex_chars = 48 ∷ 49 ∷ 50 ∷ 51 ∷ 52 ∷ 53 ∷ 54 ∷ 55 ∷ 56 ∷ 57 ∷ 97 ∷ 98 ∷ 99 ∷ 100 ∷ 101 ∷ 102 ∷ []

pub push_hex : List ℕ → List ℕ
push_hex [] = []
push_hex (b ∷ buffer) =
    get_or hex_chars (bit_and b 0xf0 / 2 ^ 4) 0
    ∷ get_or hex_chars (bit_and b 0x0f) 0
    ∷ push_hex buffer

-- An `MD5_CTX` on the stack: what its arrays hold before `MD5Init` is not known.
pub record Garbage : Type 0 where
  pub input : List ℕ
  pub digest : List ℕ

pub start : Garbage → Context
start g = init g.input g.digest

pub make_md5 : LuaApi → Garbage → Frame → Outcome Frame
make_md5 api garbage frame = do
  text ← check_text api frame 1
  returns (string (push_hex (final (update (start garbage) text)).digest) ∷ [])

-- The calls of the operating system. A handle that has been read from is a new handle value.
pub record FileApi : Type 1 where
  pub Handle : Type 0
  pub open_file : List ℕ → Option Handle
  pub read_file : Handle → ℕ → (List ℕ) × Handle

module _ (os : FileApi) where
  open os use {Handle, open_file, read_file}

  -- do { ReadFile; MD5Update } while (dwRead == sizeof(buffer)); `none` is fuel that ran out.
  pub hash_loop : ℕ → Handle → Context → Option Context
  hash_loop zero handle ctx = none
  hash_loop (suc fuel) handle ctx =
      let (chunk, handle') = read_file handle 4096 in
      let ctx' = update ctx chunk in
      let more = hash_loop fuel handle' ctx' in if length chunk == 4096 then more else some ctx'

  pub hashed : Option Context → Option (Outcome Frame)
  hashed none = none
  hashed (some ctx) = some (returns (string (push_hex (final ctx).digest) ∷ []))

  pub hash_opened : ℕ → Garbage → Option Handle → Option (Outcome Frame)
  hash_opened fuel garbage none = some (raises (message "error opening file for reading"))
  hash_opened fuel garbage (some handle) = hashed (hash_loop fuel handle (start garbage))

  -- `make_file_md5` on the path that its argument names.
  pub make_file_md5 : ℕ → Garbage → List ℕ → Option (Outcome Frame)
  make_file_md5 fuel garbage path = hash_opened fuel garbage (open_file path)
